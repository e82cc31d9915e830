-- ===== src/Middleware/Names.antt =====
-- Lists of the headers that src/api/middleware.py adds: which headers they have, and which names.
use extube.Prelude.{
  ◌≡◌, String, Bool, true, false, ◌&&◌, ◌||◌, not, List, [], ◌∷◌, ◌++◌, any, keep, str_eq, eq_iff,
  eq_refl, Bool-cases, inl, inr, arith, refl, ap,
}
use extube.Prelude.Text.{upper_eq}
use extube.Middleware.{Header, headers_for, is_server}

abbrev pub same : Header → Header → Bool
same a b = str_eq a.0 b.0 && str_eq a.1 b.1

abbrev pub has : Header → List Header → Bool
has h headers = any (same h) headers

pub any-append :
    (p : Header → Bool) (xs ys : List Header) → any p (xs ++ ys) ≡ (any p xs || any p ys)
any-append p [] ys = ground arith
any-append p (x ∷ xs) ys = ground (arith, any-append p xs ys)

pub none_kept :
    (p : Header → Bool) (headers : List Header) → any p (keep (λ h. not (p h)) headers) ≡ false
none_kept p [] = refl
none_kept p (h ∷ headers) = ground (arith, none_kept p headers)

pub no_server : (environment : String) → any is_server (headers_for environment) ≡ false
unfolding headers_for is_server upper_eq
no_server environment = elim (Bool-cases (str_eq environment "production")) [
  | inl live ↦ rw live refl
  | inr test ↦ rw test refl
]

pub or_left : (a b : Bool) → a ≡ true → (a || b) ≡ true
or_left a b h = ground (arith, h)

pub or_right : (a b : Bool) → b ≡ true → (a || b) ≡ true
or_right a b h = ground (arith, h)

pub both_false : (a b : Bool) → a ≡ false → b ≡ false → (a || b) ≡ false
both_false a b h k = ground (arith, h, k)

pub same_refl : (name value : String) → has (name, value) ((name, value) ∷ []) ≡ true
same_refl name value = rw (eq_refl name, eq_refl value) refl

pub one_header : (request_id : String) → any is_server (("x-request-id", request_id) ∷ []) ≡ false
unfolding is_server upper_eq
one_header request_id = refl

-- A header with another name is none of the headers.
pub unnamed :
    (h : Header) (n v : String) (headers : List Header)
    → any (λ k. str_eq k.0 n) headers ≡ false
    → has h headers ≡ true
    → same h (n, v) ≡ false
unnamed h n v [] free found = cc
unnamed h n v (k ∷ headers) free found =
    ground (arith, eq_iff h.0 k.0, eq_iff k.0 n, eq_iff h.0 n, free, found, unnamed h n v headers)

pub not_any :
    (p : Header → Bool)
    → ((h k : Header) → same h k ≡ true → p h ≡ p k)
    → (h : Header) (headers : List Header) → any p headers ≡ false
    → has h headers ≡ true
    → p h ≡ false
not_any p fits h [] free found = cc
not_any p fits h (k ∷ headers) free found =
    ground (arith, free, found, fits h k, not_any p fits h headers)

-- The names that CORS sets or replaces.
abbrev pub is_of_cors : Header → Bool
is_of_cors h = any (str_eq h.0) (
    "vary" ∷ "access-control-allow-origin" ∷ "access-control-allow-credentials"
    ∷ "access-control-allow-methods" ∷ "access-control-allow-headers"
    ∷ "access-control-expose-headers" ∷ "access-control-max-age" ∷ [])

is_of_cors-same : (h k : Header) → same h k ≡ true → is_of_cors h ≡ is_of_cors k
is_of_cors-same h k e = ap (λ n. is_of_cors (n, h.1)) ((eq_iff h.0 k.0).0 (ground arith))

none_of_cors : (environment : String) → any is_of_cors (headers_for environment) ≡ false
unfolding headers_for
none_of_cors environment = elim (Bool-cases (str_eq environment "production")) [
  | inl live ↦ rw live refl
  | inr test ↦ rw test refl
]

pub not_of_cors :
    (environment : String) (h : Header)
    → has h (headers_for environment) ≡ true
    → is_of_cors h ≡ false
not_of_cors environment h found =
    not_any is_of_cors is_of_cors-same h (headers_for environment) (none_of_cors environment) found

pub no_retry :
    (environment : String) → any (λ k. str_eq k.0 "retry-after") (headers_for environment) ≡ false
unfolding headers_for
no_retry environment = elim (Bool-cases (str_eq environment "production")) [
  | inl live ↦ rw live refl
  | inr test ↦ rw test refl
]

pub no_id :
    (environment : String) → any (λ k. str_eq k.0 "x-request-id") (headers_for environment) ≡ false
unfolding headers_for
no_id environment = elim (Bool-cases (str_eq environment "production")) [
  | inl live ↦ rw live refl
  | inr test ↦ rw test refl
]

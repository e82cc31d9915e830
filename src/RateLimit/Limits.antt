-- ===== src/RateLimit/Limits.antt =====
-- The limiter of src/api/rate_limit.py over a history of requests.
use extube.Prelude.{
  ℕ, ◌+◌, ◌≤◌, ◌<◌, ◌≡◌, String, ◌&&◌, List, [], ◌∷◌, ◌++◌, arith, leb, leb→le, true, refl,
  if◌then◌else◌, Bool-cases, inl, inr, str_eq, eq_iff, length, count, count-le-length,
}
use native.Mathlib.Nat.{le_refl}
use extube.Prelude.Dict
use extube.Prelude.Dict.{get_or-put}
use extube.RateLimit.{
  RateLimitRule, SlidingWindow, Request, Middleware, Reply, passed, too_many, index_error, key_of,
  rule_of, admit, no_requests, dispatch,
}
use extube.RateLimit.Window.{within, width, times_passed, admit-length, admit-count}

abbrev pub Arrival : Type 0
Arrival = Request × ℕ

abbrev keyed : Middleware → Request → List ℕ → List (String × ℕ)
keyed m request [] = []
keyed m request (t ∷ ts) = (key_of m request, t) ∷ keyed m request ts

-- The requests that are passed on, each with its key and its time.
unfoldable pub serve : Middleware → List Arrival → List (String × ℕ)
serve m [] = []
serve m ((request, now) ∷ rest) =
    keyed m request (times_passed (dispatch m request now).1 now)
    ++ serve (dispatch m request now).0 rest

-- The clock does not run backwards.
abbrev pub Ordered : ℕ → List Arrival → Type 0
Ordered from [] = Unit
Ordered from ((request, now) ∷ rest) = (from ≤ now) × Ordered now rest

-- Every request of the history that is counted under `key` is counted by `rule`.
abbrev pub Governed : Middleware → String → RateLimitRule → List Arrival → Type 0
Governed m key rule [] = Unit
Governed m key rule ((request, now) ∷ rest) =
    (key_of m request ≡ key → rule_of m request ≡ rule) × Governed m key rule rest

abbrev pub window_of : Middleware → String → SlidingWindow
window_of m key = Dict.get_or no_requests key m.windows

abbrev pub hits : String → ℕ → ℕ → List (String × ℕ) → ℕ
hits key w to = count (λ p. str_eq p.0 key && within w to p.1)

module _ (m : Middleware) (request : Request) (now : ℕ) where
  -- A dispatch touches the window of its own key only, and does there what `admit` does.
  window_of-dispatch :
      (key : String)
      → window_of (dispatch m request now).0 key ≡ (
          if str_eq (key_of m request) key
          then (admit (rule_of m request) (window_of m (key_of m request)) now).0
          else window_of m key)
  unfolding dispatch
  window_of-dispatch key = get_or-put no_requests (key_of m request) key _ m.windows

  reply-dispatch :
      (dispatch m request now).1
      ≡ (admit (rule_of m request) (window_of m (key_of m request)) now).1
  unfolding dispatch
  reply-dispatch = refl

  key_of-dispatch : (r : Request) → key_of (dispatch m request now).0 r ≡ key_of m r
  unfolding dispatch key_of
  key_of-dispatch r = refl

  rule_of-dispatch : (r : Request) → rule_of (dispatch m request now).0 r ≡ rule_of m r
  unfolding dispatch rule_of
  rule_of-dispatch r = refl

Governed-dispatch :
    (m : Middleware) (r : Request) (now : ℕ) (key : String) (rule : RateLimitRule)
    (arrivals : List Arrival)
    → Governed m key rule arrivals
    → Governed (dispatch m r now).0 key rule arrivals
unfolding dispatch key_of rule_of
Governed-dispatch m r now key rule [] g = tt
Governed-dispatch m r now key rule (a ∷ rest) g = (g.0, Governed-dispatch m r now key rule rest g.1)

hits-keyed :
    (key : String) (w to : ℕ) (m : Middleware) (request : Request) (ts : List ℕ)
    (later : List (String × ℕ))
    → hits key w to (keyed m request ts ++ later)
      ≡ (if str_eq (key_of m request) key then count (within w to) ts else 0) + hits key w to later
hits-keyed key w to m request [] later = ground arith
hits-keyed key w to m request (t ∷ ts) later =
    ground (arith, hits-keyed key w to m request ts later)

count-times_passed :
    (w to now : ℕ) (r : Reply) → to < now → count (within w to) (times_passed r now) ≡ 0
count-times_passed w to now passed h = ground arith
count-times_passed w to now (too_many _) h = refl
count-times_passed w to now index_error h = refl

-- Nothing is passed on at a time before the history begins.
hits-serve_before :
    (key : String) (w to : ℕ) (m : Middleware) (from : ℕ) (arrivals : List Arrival)
    → Ordered from arrivals
    → to < from
    → hits key w to (serve m arrivals) ≡ 0
unfolding serve
hits-serve_before key w to m from [] o h = refl
hits-serve_before key w to m from ((request, now) ∷ rest) o h = ground (
  arith,
  hits-keyed key w to m request (times_passed (dispatch m request now).1 now)
      (serve (dispatch m request now).0 rest),
  count-times_passed w to now (dispatch m request now).1,
  hits-serve_before key w to (dispatch m request now).0 now rest o.1,
)

module _ (key : String) (rule : RateLimitRule) (to : ℕ) where
  abbrev IsWithin : Middleware → Type 0
  IsWithin m = length (window_of m key).timestamps ≤ rule.max_requests

  module _ (m : Middleware) (request : Request) (now : ℕ)
      (governed : key_of m request ≡ key → rule_of m request ≡ rule) where
    own_window :
        str_eq (key_of m request) key ≡ true
        → (window_of (dispatch m request now).0 key ≡ (admit rule (window_of m key) now).0)
          × ((dispatch m request now).1 ≡ (admit rule (window_of m key) now).1)
    own_window same =
        let e : key_of m request ≡ key = (eq_iff _ key).0 same in
        let r : rule_of m request ≡ rule = governed e in
        (
          rw (window_of-dispatch m request now key) (rw same (rw (e, r) refl)),
          rw (reply-dispatch m request now) (rw (e, r) refl),
        )

    dispatch-IsWithin : IsWithin m → IsWithin (dispatch m request now).0
    dispatch-IsWithin h = elim (Bool-cases (str_eq (key_of m request) key)) [
      | inl same ↦ rw ((own_window same).0) (admit-length rule (window_of m key) now h)
      | inr other ↦ rw (window_of-dispatch m request now key) (rw other h)
    ]

    dispatch-count :
        now ≤ to
        → (if str_eq (key_of m request) key
              then count (within (width rule) to) (times_passed (dispatch m request now).1 now)
              else 0)
            + count (within (width rule) to) (window_of m key).timestamps
          ≡ count (within (width rule) to) (window_of (dispatch m request now).0 key).timestamps
    dispatch-count h = elim (Bool-cases (str_eq (key_of m request) key)) [
      | inl same ↦
          rw (same, (own_window same).0, (own_window same).1)
            (admit-count rule (window_of m key) now to h)
      | inr other ↦ rw (window_of-dispatch m request now key) (rw other (omega arith))
    ]

  -- What is passed on in a window, and what the window already held, are within the rule.
  hits-serve :
      (m : Middleware) (from : ℕ) (arrivals : List Arrival)
      → Ordered from arrivals
      → Governed m key rule arrivals
      → IsWithin m
      → hits key (width rule) to (serve m arrivals)
          + count (within (width rule) to) (window_of m key).timestamps
        ≤ rule.max_requests
  unfolding serve
  hits-serve m from [] o g h =
      omega (arith, count-le-length (within (width rule) to) (window_of m key).timestamps)
  hits-serve m from ((request, now) ∷ rest) o g h = elim (Bool-cases (leb now to)) [
    | inl reached ↦
        rw
          (hits-keyed key (width rule) to m request (times_passed (dispatch m request now).1 now)
            (serve (dispatch m request now).0 rest))
          (omega (
            arith,
            dispatch-count m request now g.0 (leb→le now to reached),
            hits-serve (dispatch m request now).0 now rest o.1
                (Governed-dispatch m request now key rule rest g.1)
                (dispatch-IsWithin m request now g.0 h),
          ))
    | inr before ↦ omega (
      arith,
      hits-serve_before key (width rule) to m now ((request, now) ∷ rest) (le_refl now, o.1)
          (ground arith),
      count-le-length (within (width rule) to) (window_of m key).timestamps,
    )
  ]

-- Whatever the requests, over any window of the length that the rule of `key` sets, at most
-- `max_requests` of those counted under `key` are passed on, if the window held no more at the
-- start, the clock does not run backwards and every request under `key` is under that rule.
pub serve-le-max_requests :
    (key : String) (rule : RateLimitRule) (to : ℕ) (m : Middleware) (from : ℕ)
    (arrivals : List Arrival)
    → Ordered from arrivals
    → Governed m key rule arrivals
    → length (window_of m key).timestamps ≤ rule.max_requests
    → hits key (width rule) to (serve m arrivals) ≤ rule.max_requests
serve-le-max_requests key rule to m from arrivals o g h =
    omega (arith, hits-serve key rule to m from arrivals o g h)

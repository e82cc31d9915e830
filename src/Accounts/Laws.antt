-- ===== src/Accounts/Laws.antt =====
-- The refresh tokens and the users of src/api/db.py.
use extube.Prelude.{
  ◌≡◌, String, true, false, none, some, List, [], ◌∷◌, ◌++◌, arith, refl, any, str_eq, eq_iff,
  if◌then◌else◌,
}
use extube.Accounts.{RefreshToken, get_token, revoke}

-- A revoked token is not found again; every other token is found as before.
pub get_token-revoke :
    (j k : String) (ts : List RefreshToken)
    → get_token j (revoke k ts) ≡ (if str_eq k j then none else get_token j ts)
unfolding get_token revoke
get_token-revoke j k [] = ground arith
get_token-revoke j k (t ∷ ts) =
    ground (arith, eq_iff k j, eq_iff t.token_id k, eq_iff t.token_id j, get_token-revoke j k ts)

-- A look-up that fails still fails when another token is appended.
pub get_token-append :
    (j : String) (ts : List RefreshToken) (r : RefreshToken)
    → get_token j ts ≡ none
    → str_eq r.token_id j ≡ false
    → get_token j (ts ++ r ∷ []) ≡ none
unfolding get_token
get_token-append j [] r h e = ground arith
get_token-append j (t ∷ ts) r h e = ground (arith, get_token-append j ts r)

-- A token that was found keeps its id in the table when it is revoked.
pub any-revoke :
    (j k : String) (ts : List RefreshToken)
    → any (λ t. str_eq t.token_id j) (revoke k ts) ≡ any (λ t. str_eq t.token_id j) ts
unfolding revoke
any-revoke j k [] = refl
any-revoke j k (t ∷ ts) = ground (arith, any-revoke j k ts)

pub any-get_token :
    (j : String) (ts : List RefreshToken) (t : RefreshToken)
    → get_token j ts ≡ some t
    → any (λ t. str_eq t.token_id j) ts ≡ true
unfolding get_token
any-get_token j [] t h = cc
any-get_token j (s ∷ ts) t h = ground (arith, any-get_token j ts t)

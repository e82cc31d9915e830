-- ===== src/Accounts.antt =====
-- src/api/db.py, `UserStore` and `RefreshTokenStore`: two tables as the lists of their rows.
-- Times are whole ticks. An insertion that breaks a key raises `sqlite3.IntegrityError`, here `none`.
pub mod Laws
use extube.Prelude.{
  ℕ, String, Bool, true, false, ◌&&◌, ◌||◌, Option, none, some, List, [], ◌∷◌, ◌++◌, any, first,
  str_eq, if◌then◌else◌,
}

pub record User : Type 0 where
  pub id : String
  pub username : String
  pub hashed_password : String
  pub created_at : ℕ

pub record RefreshToken : Type 0 where
  pub token_id : String
  pub user_id : String
  pub expires_at : ℕ
  pub revoked : Bool

unfoldable pub create_user : String → String → String → ℕ → List User → Option (List User)
create_user user_id username hashed now users =
    if any (λ u. str_eq u.id user_id || str_eq u.username username) users
    then none
    else some (
        users
        ++ record { id = user_id; username = username; hashed_password = hashed; created_at = now }
          ∷ [])

unfoldable pub get_by_username : String → List User → Option User
get_by_username username users = first (λ u. str_eq u.username username) users

unfoldable pub get_by_id : String → List User → Option User
get_by_id user_id users = first (λ u. str_eq u.id user_id) users

unfoldable pub create_token : String → String → ℕ → List RefreshToken → Option (List RefreshToken)
create_token token_id user_id expires_at tokens =
    if any (λ t. str_eq t.token_id token_id) tokens
    then none
    else some (
        tokens
        ++ record {
          token_id = token_id;
          user_id = user_id;
          expires_at = expires_at;
          revoked = false;
        }
          ∷ [])

-- `WHERE token_id = ? AND revoked = 0`
unfoldable pub get_token : String → List RefreshToken → Option RefreshToken
get_token token_id tokens =
    first (λ t. str_eq t.token_id token_id && (if t.revoked then false else true)) tokens

unfoldable pub revoke : String → List RefreshToken → List RefreshToken
revoke token_id [] = []
revoke token_id (t ∷ ts) =
    let rest = revoke token_id ts in
    (if str_eq t.token_id token_id then record t { revoked = true } else t) ∷ rest

unfoldable pub revoke_all_for_user : String → List RefreshToken → List RefreshToken
revoke_all_for_user user_id [] = []
revoke_all_for_user user_id (t ∷ ts) =
    let rest = revoke_all_for_user user_id ts in
    (if str_eq t.user_id user_id then record t { revoked = true } else t) ∷ rest

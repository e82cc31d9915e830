-- ===== src/Auth/SignIn.antt =====
-- From the registration of a user to a token that names them (src/api/auth.py).
use extube.Prelude.{
  ℕ, ◌+◌, ◌*◌, ◌≡◌, String, Bool, true, false, Option, none, some, any, str_eq, leb, refl, sym, ap,
  ◌∙◌,
}
use mathlib.Core.Path.{subst}
use extube.Prelude.Dict
use extube.RateLimit.{second}
use extube.Http.{Reply, ok, http}
use extube.Accounts.{get_by_username, get_by_id, create_token}
use extube.Auth.{
  Claims, Crypto, Counters, Settings, Server, TokenResponse, Identity, check_login_lockout,
  check_redis, check_memory, no_attempts, create_access_token, create_refresh_token,
  validate_access_token, issue, authenticate, login, clear_login_attempts,
}
use extube.Auth.Credentials.{UserRegister, register_body, get_current_user}
use extube.Auth.Registered.{row_of, Registered, register_body-Registered}

-- The claims of the access token of a sign-in.
abbrev pub access_claims : Settings → String → String → ℕ → Claims
access_claims s user_id username now = record {
  sub = some user_id;
  username = some username;
  jti = none;
  exp = now + s.access_token_expire_minutes * 60 * second;
  type = some "access";
}

-- What the libraries are relied on for: the hash of a password verifies it, and the token of some
-- claims decodes to them until it expires.
pub record Trusted (K : Crypto) (password : String) (claims : Claims) : Type 0 where
  pub verifies : K.verify password (K.hash password) ≡ true
  pub decodes : (now : ℕ) → leb now claims.exp ≡ true → K.decode now (K.encode claims) ≡ some claims

module _ (C : Counters) (K : Crypto) where
  -- The check of the lockout leaves the accounts as they are.
  lockout-users :
      (s : Settings) (username : String) (now : ℕ) (server : Server C)
      → ((check_login_lockout C s username now server).0.users ≡ server.users)
        × ((check_login_lockout C s username now server).0.tokens ≡ server.tokens)
  unfolding check_login_lockout
  lockout-users s username now server = of_redis server.redis
    where
      of_redis :
          (o : Option C.Db)
          → (((elim o as (λ _. Server C × Bool) [
            | some db ↦ (
              record server { redis = some (check_redis C s username now db).0 },
              (check_redis C s username now db).1,
            )
            | none ↦
                let (a, locked) =
                  check_memory s now (Dict.get_or no_attempts username server.attempts) in
                (record server { attempts = Dict.put username a server.attempts }, locked)
          ]).0.users
                ≡ server.users)
              × ((elim o as (λ _. Server C × Bool) [
                | some db ↦ (
                  record server { redis = some (check_redis C s username now db).0 },
                  (check_redis C s username now db).1,
                )
                | none ↦
                    let (a, locked) =
                      check_memory s now (Dict.get_or no_attempts username server.attempts) in
                    (record server { attempts = Dict.put username a server.attempts }, locked)
              ]).0.tokens
                  ≡ server.tokens))
      of_redis none = (refl, refl)
      of_redis (some db) = (refl, refl)

  -- A sign-in: tokens, the first of which names the user.
  pub record SignsIn (identity : Identity) (now : ℕ) (r : Server C × Reply TokenResponse)
      : Type 0 where
    pub tokens : TokenResponse
    pub answers : r.1 ≡ ok tokens
    pub names : get_current_user C K now tokens.access_token r.0 ≡ ok identity

  login-SignsIn :
      (s : Settings) (body : UserRegister) (user_id token_id : String) (t₀ t₁ t₂ : ℕ)
      (server : Server C)
      → Trusted K body.password (access_claims s user_id body.username t₁)
      → get_by_username body.username server.users ≡ some (row_of C K body user_id t₀)
      → get_by_id user_id server.users ≡ some (row_of C K body user_id t₀)
      → (check_login_lockout C s body.username t₁ server).1 ≡ false
      → any (λ t. str_eq t.token_id token_id) server.tokens ≡ false
      → leb t₂ (t₁ + s.access_token_expire_minutes * 60 * second) ≡ true
      → SignsIn
          (record { id = user_id; username = body.username })
          t₂
          (login C K s body.username body.password token_id t₁ server)
  unfolding login authenticate issue clear_login_attempts create_token get_current_user
      validate_access_token create_access_token
  login-SignsIn s body user_id token_id t₀ t₁ t₂ server trust by_name by_id open_ fresh early =
      let checked = (check_login_lockout C s body.username t₁ server).0 in
      let same = lockout-users s body.username t₁ server in
      let named : get_by_username body.username checked.users ≡ some (row_of C K body user_id t₀) =
        ap (get_by_username body.username) same.0 ∙ by_name in
      let found : get_by_id user_id checked.users ≡ some (row_of C K body user_id t₀) =
        ap (get_by_id user_id) same.0 ∙ by_id in
      let unused : any (λ t. str_eq t.token_id token_id) checked.tokens ≡ false =
        ap (any (λ t. str_eq t.token_id token_id)) same.1 ∙ fresh in
      rw (open_, named, trust.verifies, issue, create_token, unused)
        (record {
          tokens = record {
            access_token = create_access_token C K s user_id body.username t₁;
            refresh_token = create_refresh_token C K s token_id user_id t₁;
          };
          answers = refl;
          names = rw (trust.decodes t₂ early, found) refl;
        })

  -- For a hash that verifies its password and a token that decodes until it expires: whoever registers
  -- and is answered with an identity signs in with the name and the password, at any time at which the
  -- name is not locked and with any id that no token has, and the access token, until it expires,
  -- stands for that identity.
  pub register_body-SignsIn :
      (decimal : ℕ → Bool) (s : Settings) (body : UserRegister) (user_id token_id : String)
      (t₀ t₁ t₂ : ℕ) (server : Server C) (identity : Identity)
      → Trusted K body.password (access_claims s user_id body.username t₁)
      → (register_body C K decimal body user_id t₀ server).1 ≡ ok identity
      → (check_login_lockout C s body.username t₁
          (register_body C K decimal body user_id t₀ server).0).1
        ≡ false
      → any
          (λ t. str_eq t.token_id token_id)
          (register_body C K decimal body user_id t₀ server).0.tokens
        ≡ false
      → leb t₂ (t₁ + s.access_token_expire_minutes * 60 * second) ≡ true
      → SignsIn identity t₂ (
          login C K s body.username body.password token_id t₁
            (register_body C K decimal body user_id t₀ server).0)
  register_body-SignsIn decimal s body user_id token_id t₀ t₁ t₂ server identity trust =
      of_reply (register_body C K decimal body user_id t₀ server)
        (register_body-Registered C K decimal body user_id t₀ server)
    where
      or_else : Reply Identity → Identity
      or_else (ok i) = i
      or_else (http code) = identity

      of_reply :
          (r : Server C × Reply Identity)
          → Registered C K body user_id t₀ r
          → r.1 ≡ ok identity
          → (check_login_lockout C s body.username t₁ r.0).1 ≡ false
          → any (λ t. str_eq t.token_id token_id) r.0.tokens ≡ false
          → leb t₂ (t₁ + s.access_token_expire_minutes * 60 * second) ≡ true
          → SignsIn identity t₂ (login C K s body.username body.password token_id t₁ r.0)
      of_reply (server₁, ok i) h e open_ fresh early =
          subst
            (λ who. SignsIn who t₂ (login C K s body.username body.password token_id t₁ server₁))
            (sym h.names ∙ ap or_else e)
            (login-SignsIn s body user_id token_id t₀ t₁ t₂ server₁ trust h.by_name h.by_id open_
              fresh early)
      of_reply (server₁, http code) h e open_ fresh early = cc

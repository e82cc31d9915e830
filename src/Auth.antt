-- ===== src/Auth.antt =====
-- src/api/auth.py: lockout, registration, login, token rotation and the check of access tokens.
-- JWT (jose) and bcrypt (passlib) are the parameter `Crypto`, the Redis client of the lockout is
-- `Counters`; `none` for its database is `_get_redis()` failing. A fresh `uuid4` is an argument.
-- Times are whole ticks.
pub mod Lockout
pub mod Rotation
pub mod Credentials
pub mod Registered
pub mod SignIn
mod Tests
use extube.Prelude.{
  ℕ, ◌≡◌, ◌+◌, ◌*◌, String, Bool, true, false, Option, none, some, List, [], ◌∷◌, ltb, leb, str_eq,
  if◌then◌else◌, ◌==◌ as nat_eq,
}
use extube.Prelude.Dict
use extube.Prelude.Dict.{Dict}
use extube.Prelude.Text.{concat}
use extube.RateLimit.{second}
use extube.Http.{Reply, ok, http, ◌>>=◌, ◌>>◌, raise_if, or_raise}
use extube.Accounts.{
  User, RefreshToken, create_user, get_by_username, get_by_id, create_token, get_token, revoke,
}

pub record Claims : Type 0 where
  pub sub : Option String
  pub username : Option String
  pub jti : Option String
  pub exp : ℕ
  pub type : Option String

-- The claims that a token decodes to, while it does, are its own: they do not change with time.
pub record Crypto : Type 0 where
  pub encode : Claims → String
  pub decode : ℕ → String → Option Claims
  pub hash : String → String
  pub verify : String → String → Bool
  pub decode_stable :
      (t u : ℕ) (token : String) (p q : Claims)
      → decode t token ≡ some p
      → decode u token ≡ some q
      → p ≡ q

-- The commands of the lockout: the count under a key, its time to live in seconds (0 for the
-- answers that are not positive), and the changes.
pub record Counters : Type 1 where
  pub Db : Type 0
  pub get : String → ℕ → Db → Option ℕ
  pub ttl : String → ℕ → Db → ℕ
  pub incr : String → ℕ → Db → Db × ℕ
  pub expire : String → ℕ → ℕ → Db → Db
  pub delete : String → Db → Db

pub record Settings : Type 0 where
  pub max_login_attempts : ℕ
  pub login_lockout_seconds : ℕ
  pub access_token_expire_minutes : ℕ
  pub refresh_token_expire_days : ℕ

pub record Attempts : Type 0 where
  pub count : ℕ
  pub last_fail : ℕ

abbrev pub no_attempts : Attempts
no_attempts = record { count = 0; last_fail = 0 }

unfoldable pub fail_key : String → String
fail_key username = concat ("login_fail:" ∷ username ∷ [])

-- The in-memory fallback of `_check_login_lockout`: whether it raises, and what it leaves.
unfoldable pub check_memory : Settings → ℕ → Attempts → Attempts × Bool
check_memory s now a =
    if leb s.max_login_attempts a.count
    then (if ltb now (a.last_fail + s.login_lockout_seconds * second)
        then (a, true)
        else (no_attempts, false))
    else (a, false)

pub record TokenResponse : Type 0 where
  pub access_token : String
  pub refresh_token : String

pub record Identity : Type 0 where
  pub id : String
  pub username : String

module _ (C : Counters) where
  pub record Server : Type 0 where
    pub redis : Option C.Db
    pub attempts : Dict Attempts
    pub users : List User
    pub tokens : List RefreshToken

  -- The part of `_check_login_lockout` on Redis.
  unfoldable pub check_redis : Settings → String → ℕ → C.Db → C.Db × Bool
  unfolding fail_key
  check_redis s username now db = elim (C.get (fail_key username) now db) [
    | none ↦ (db, false)
    | some count ↦
        if leb s.max_login_attempts count
        then (if ltb 0 (C.ttl (fail_key username) now db)
            then (db, true)
            else (C.delete (fail_key username) db, false))
        else (db, false)
  ]

  unfoldable pub check_login_lockout : Settings → String → ℕ → Server → Server × Bool
  unfolding check_redis check_memory
  check_login_lockout s username now server = elim server.redis [
    | some db ↦
        let (db', locked) = check_redis s username now db in
        (record server { redis = some db' }, locked)
    | none ↦
        let (a, locked) = check_memory s now (Dict.get_or no_attempts username server.attempts) in
        (record server { attempts = Dict.put username a server.attempts }, locked)
  ]

  unfoldable pub incr_redis : Settings → String → ℕ → C.Db → C.Db
  unfolding fail_key
  incr_redis s username now db =
      let (db', new_count) = C.incr (fail_key username) now db in
      if nat_eq new_count 1
      then C.expire (fail_key username) s.login_lockout_seconds now db'
      else db'

  unfoldable pub record_login_failure : Settings → String → ℕ → Server → Server
  unfolding incr_redis
  record_login_failure s username now server = elim server.redis [
    | some db ↦ record server { redis = some (incr_redis s username now db) }
    | none ↦
        let a = Dict.get_or no_attempts username server.attempts in
        record server {
          attempts =
              Dict.put username (record { count = a.count + 1; last_fail = now }) server.attempts;
        }
  ]

  unfoldable pub clear_login_attempts : String → Server → Server
  unfolding fail_key
  clear_login_attempts username server = record server {
    redis = elim server.redis [ none ↦ none | some db ↦ some (C.delete (fail_key username) db) ];
    attempts = Dict.remove username server.attempts;
  }

  module _ (K : Crypto) where
    unfoldable pub create_access_token : Settings → String → String → ℕ → String
    create_access_token s user_id username now = K.encode (record {
      sub = some user_id;
      username = some username;
      jti = none;
      exp = now + s.access_token_expire_minutes * 60 * second;
      type = some "access";
    })

    unfoldable pub create_refresh_token : Settings → String → String → ℕ → String
    create_refresh_token s token_id user_id now = K.encode (record {
      sub = some user_id;
      username = none;
      jti = some token_id;
      exp = now + s.refresh_token_expire_days * 86400 * second;
      type = some "refresh";
    })

    unfoldable pub is_type : String → Option String → Bool
    is_type t none = false
    is_type t (some u) = str_eq u t

    unfoldable pub validate_access_token : ℕ → String → Server → Reply Identity
    unfolding is_type
    validate_access_token now token server = do
      payload ← or_raise (K.decode now token) 401
      user_id ← or_raise payload.sub 401
      raise_if (if is_type "access" payload.type then false else true) 401
      user ← or_raise (get_by_id user_id server.users) 401
      ok (record { id = user.id; username = user.username })

    -- `token or query_token`: an empty header is falsy.
    unfoldable pub current_user_or_query_token :
        ℕ → Option String → Option String → Server → Reply Identity
    unfolding validate_access_token
    current_user_or_query_token now token query_token server =
        elim (first_token token query_token) [
          | none ↦ http 401
          | some t ↦ validate_access_token now t server
        ]
      where
        truthy : Option String → Option String
        truthy none = none
        truthy (some t) = if str_eq t "" then none else some t

        first_token : Option String → Option String → Option String
        first_token a b = elim (truthy a) [ none ↦ truthy b | some t ↦ some t ]

    unfoldable pub register : String → String → String → ℕ → Server → Server × Reply Identity
    register username password user_id now server = elim (get_by_username username server.users) [
      | some existing ↦ (server, http 409)
      | none ↦ elim (create_user user_id username (K.hash password) now server.users) [
        | none ↦ (server, http 500)
        | some users ↦
            (record server { users = users }, ok (record { id = user_id; username = username }))
      ]
    ]

    -- The tokens of a user who has been authenticated, and the row of the refresh token.
    unfoldable pub issue : Settings → User → String → ℕ → Server → Server × Reply TokenResponse
    unfolding create_access_token create_refresh_token
    issue s user token_id now server =
        let expires_at = now + s.refresh_token_expire_days * 86400 * second in
        elim (create_token token_id user.id expires_at server.tokens) [
          | none ↦ (server, http 500)
          | some tokens ↦ (
            record server { tokens = tokens },
            ok (record {
              access_token = create_access_token s user.id user.username now;
              refresh_token = create_refresh_token s token_id user.id now;
            }),
          )
        ]

    -- The user whose name and password are given.
    unfoldable pub authenticate : String → String → Server → Option User
    authenticate username password server = elim (get_by_username username server.users) [
      | none ↦ none
      | some user ↦ if K.verify password user.hashed_password then some user else none
    ]

    -- The check, the test of the password and the record are one step here: the requests of one name
    -- come one after another.
    unfoldable pub login :
        Settings → String → String → String → ℕ → Server → Server × Reply TokenResponse
    unfolding check_login_lockout record_login_failure clear_login_attempts issue authenticate
    login s username password token_id now server =
        let (checked, locked) = check_login_lockout s username now server in
        if locked then (checked, http 429) else elim (authenticate username password checked) [
          | none ↦ (record_login_failure s username now checked, http 401)
          | some user ↦ issue s user token_id now (clear_login_attempts username checked)
        ]

    unfoldable pub find_user : Server → Option String → Option User
    find_user server none = none
    find_user server (some id) = get_by_id id server.users

    unfoldable pub reissue :
        Settings → Option User → String → ℕ → Server → Server × Reply TokenResponse
    unfolding issue
    reissue s none new_id now server = (server, http 401)
    reissue s (some user) new_id now server = issue s user new_id now server

    unfoldable pub rotate :
        Settings
        → Option String
        → Option String
        → String
        → ℕ
        → Server
        → Server × Reply TokenResponse
    unfolding reissue
    rotate s none user_id new_id now server = (server, http 401)
    rotate s (some token_id) user_id new_id now server = elim (get_token token_id server.tokens) [
      | none ↦ (server, http 401)
      | some stored ↦
          if ltb stored.expires_at now
          then (server, http 401)
          else reissue s (find_user server user_id) new_id now
              (record server { tokens = revoke token_id server.tokens })
    ]

    unfoldable pub refresh : Settings → String → String → ℕ → Server → Server × Reply TokenResponse
    unfolding is_type rotate
    refresh s token new_id now server = elim (K.decode now token) [
      | none ↦ (server, http 401)
      | some payload ↦
          if is_type "refresh" payload.type
          then rotate s payload.jti payload.sub new_id now server
          else (server, http 401)
    ]

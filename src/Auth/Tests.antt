-- ===== src/Auth/Tests.antt =====
-- The authentication of src/api/auth.py on concrete accounts. The model of JWT keeps one token.
use extube.Prelude.{
  ℕ, ◌≡◌, Bool, ◌&&◌, true, false, some, none, [], ◌∷◌, refl, str_eq, leb, if◌then◌else◌,
}
use extube.Prelude.Dict
use extube.Http.{http}
use extube.Accounts.{get_by_id, get_by_username, get_token, revoke, create_token, create_user}
use extube.Auth.{
  Claims, Crypto, Counters, Settings, Server, find_user, refresh, login, check_login_lockout,
}
use extube.Auth.Credentials.{UserRegister, is_valid_registration, register_body}
use extube.Auth.SignIn.{access_claims, Trusted, SignsIn, register_body-SignsIn}
use extube.Auth.Rotation.{logs_in, refreshes, handle_all, refresh_twice}
use extube.Auth.Lockout.{Try}

abbrev C : Counters
C = record {
  Db = ℕ;
  get = λ k now db. none;
  ttl = λ k now db. 0;
  incr = λ k now db. (db, 1);
  expire = λ k s now db. db;
  delete = λ k db. db;
}

abbrev claims : Claims
claims = record {
  sub = some "id";
  username = none;
  jti = some "t0";
  exp = 100;
  type = some "refresh";
}

same_claims : (p q : Claims) → some claims ≡ some p → some claims ≡ some q → p ≡ q
same_claims p q d e = cc

abbrev K : Crypto
K = record {
  encode = λ c. "token";
  decode = λ now token. some claims;
  hash = λ p. p;
  verify = str_eq;
  decode_stable = λ t u token p q d e. same_claims p q d e;
}

abbrev s : Settings
s = record {
  max_login_attempts = 2;
  login_lockout_seconds = 900;
  access_token_expire_minutes = 30;
  refresh_token_expire_days = 7;
}

abbrev server : Server C
server = record {
  redis = none;
  attempts = [];
  users = record { id = "id"; username = "ann"; hashed_password = "pw"; created_at = 0 } ∷ [];
  tokens = record { token_id = "t0"; user_id = "id"; expires_at = 1000; revoked = false } ∷ [];
}

refresh_twice_example :
    (refresh C K s "token" "t2" 9 (
      handle_all C K s
        (logs_in "ann" "pw" "t5" 6 ∷ refreshes "token" "t6" 7 ∷ [])
        (refresh C K s "token" "t1" 5 server).0)).1
    ≡ http 401
unfolding refresh get_token revoke create_token get_by_id find_user
refresh_twice_example =
    refresh_twice C K s "token" "t1" "t2" 5 9
      (logs_in "ann" "pw" "t5" 6 ∷ refreshes "token" "t6" 7 ∷ []) server
      (record { access_token = "token"; refresh_token = "token" }) refl

abbrev wrong : ℕ → Try
wrong now = record { username = "ann"; password = "no"; token_id = "t1"; now = now }

-- A JWT of the access token of one user, until it expires.
abbrev bobs : Claims
bobs = access_claims s "id2" "bob" 20

until_same :
    (b c : Bool) (p q : Claims)
    → (if b then some bobs else none) ≡ some p
    → (if c then some bobs else none) ≡ some q
    → p ≡ q
until_same true true p q d e = cc
until_same true false p q d e = cc
until_same false c p q d e = cc

abbrev J : Crypto
J = record {
  encode = λ c. "token";
  decode = λ now token. if leb now bobs.exp then some bobs else none;
  hash = λ p. p;
  verify = str_eq;
  decode_stable = λ t u token p q d e. until_same (leb t bobs.exp) (leb u bobs.exp) p q d e;
}

abbrev bob : UserRegister
bob = record { username = "bob"; password = "Aa1!aaaa" }

abbrev is_decimal : ℕ → Bool
is_decimal c = leb b'0' c && leb c b'9'

trusted : Trusted J "Aa1!aaaa" bobs
trusted = record { verifies = refl; decodes = λ now early. rw early refl }

abbrev joined : Server C
joined = (register_body C J is_decimal bob "id2" 10 server).0

register_body-SignsIn_example :
    SignsIn C J
      (record { id = "id2"; username = "bob" })
      500
      (login C J s "bob" "Aa1!aaaa" "t1" 20 joined)
unfolding register_body get_by_username create_user check_login_lockout Dict.get_or
register_body-SignsIn_example =
    register_body-SignsIn C J is_decimal s bob "id2" "t1" 10 20 500 server
      (record { id = "id2"; username = "bob" }) trusted refl refl refl refl

accepts_a_last_newline :
    is_valid_registration is_decimal (record bob { password = "Aa1!aaaa\n" }) ≡ true
unfolding is_valid_registration
accepts_a_last_newline = refl

refuses_two_lines :
    is_valid_registration is_decimal (record bob { password = "Aa1!aaaa\nb" }) ≡ false
unfolding is_valid_registration
refuses_two_lines = refl

-- ===== src/Auth/Lockout.antt =====
-- The lockout of src/api/auth.py without Redis: how many wrong passwords a user name can be tried
-- with.
use extube.Prelude.{
  ℕ, suc, ◌+◌, ◌*◌, ◌≤◌, ◌<◌, ◌≡◌, String, Bool, true, false, ◌&&◌, none, List, [], ◌∷◌, ltb, leb,
  str_eq, if◌then◌else◌, ◌==◌ as nat_eq,
}
use extube.Prelude.Dict
use extube.RateLimit.{second}
use extube.Http.{Reply, ok, http}
use extube.Auth.{
  Crypto, Counters, Settings, Server, Attempts, no_attempts, TokenResponse, check_memory,
  authenticate, login,
}

pub record Try : Type 0 where
  pub username : String
  pub password : String
  pub token_id : String
  pub now : ℕ

-- What a wrong password for the name leaves of its record, and whether it was looked at.
abbrev after_wrong : Settings → ℕ → Attempts → Attempts × Bool
after_wrong s now a =
    let (checked, locked) = check_memory s now a in
    if locked
    then (checked, false)
    else (record { count = checked.count + 1; last_fail = now }, true)

-- The time lies in the lockout period that ends at `to`.
abbrev pub within : Settings → ℕ → ℕ → Bool
within s to t = leb t to && ltb to (t + s.login_lockout_seconds * second)

abbrev refused_password : {A : Type 0} → Reply A → Bool
refused_password (ok a) = false
refused_password (http code) = nat_eq code 401

module _ (C : Counters) (K : Crypto) (s : Settings) (username : String) where
  abbrev pub record_of : Server C → Attempts
  record_of server = Dict.get_or no_attempts username server.attempts

  -- Answers of 401 to tries of the name, that is, the passwords for it that were looked at and
  -- found wrong, at times in the period that ends at `to`.
  unfoldable pub wrong_passwords : ℕ → Server C → List Try → ℕ
  wrong_passwords to server [] = 0
  wrong_passwords to server (t ∷ ts) =
      let (server', reply) = login C K s t.username t.password t.token_id t.now server in
      let rest = wrong_passwords to server' ts in
      if str_eq t.username username && (refused_password reply && within s to t.now)
      then suc rest
      else rest

  abbrev pub Ordered : ℕ → List Try → Type 0
  Ordered from [] = Unit
  Ordered from (t ∷ ts) = (from ≤ t.now) × Ordered t.now ts

  -- No try of the name has its password.
  abbrev pub AllWrong : Server C → List Try → Type 0
  AllWrong server [] = Unit
  AllWrong server (t ∷ ts) =
      (str_eq t.username username ≡ true → authenticate C K t.username t.password server ≡ none)
      × AllWrong server ts

  abbrev checked : Try → Server C → Attempts
  checked t server = (check_memory s t.now (Dict.get_or no_attempts t.username server.attempts)).0

  abbrev failed : Try → Server C → Attempts
  failed t server = record {
    count =
        (Dict.get_or no_attempts t.username
          (Dict.put t.username (checked t server) server.attempts)).count
        + 1;
    last_fail = t.now;
  }

  module _ (t : Try) (server : Server C) (memory : server.redis ≡ none) where
    abbrev tried : Server C × Reply TokenResponse
    tried = login C K s t.username t.password t.token_id t.now server

  -- The weight that the record of the name carries into the period.
  abbrev weight : ℕ → Attempts → ℕ
  weight to a = if within s to a.last_fail then a.count else 0

  module _ (positive : 0 < s.max_login_attempts) (to : ℕ) where
    abbrev counted : Try → Reply TokenResponse → ℕ
    counted t reply =
        if str_eq t.username username && (refused_password reply && within s to t.now) then 1 else 0

    -- What holds of the record of the name between two tries.
    abbrev pub Fits : ℕ → Attempts → Type 0
    Fits from a = (a.last_fail ≤ from) × (a.count ≤ s.max_login_attempts)

-- ===== src/Http.antt =====
-- What an endpoint answers: a value, or the status code of the `HTTPException` that it raises; an
-- exception that is not handled is 500.
use extube.Prelude.{ℕ, Bool, true, false, Option, none, some}

pub data Reply {ℓ} (A : Type ℓ) : Type ℓ where
  ok : A → Reply A
  http : ℕ → Reply A

infixl 5 ◌>>=◌ ◌>>◌
abbrev pub ◌>>=◌ {ℓ κ} : {A : Type ℓ} {B : Type κ} → Reply A → (A → Reply B) → Reply B
ok a >>= f = f a
http code >>= f = http code

abbrev pub ◌>>◌ {ℓ} : {B : Type ℓ} → Reply (Unit {0}) → Reply B → Reply B
m >> k = m >>= λ _. k

-- `if test: raise HTTPException(code)`
abbrev pub raise_if : Bool → ℕ → Reply (Unit {0})
raise_if true code = http code
raise_if false code = ok tt

abbrev pub or_raise {ℓ} : {A : Type ℓ} → Option A → ℕ → Reply A
or_raise none code = http code
or_raise (some a) code = ok a

-- ===== src/Auth/Credentials.antt =====
-- `UserRegister` of src/api/auth.py: the checks on a name and a password, and the endpoint behind
-- them. `\d` is every decimal digit of Unicode, a parameter. A `$` of pydantic is the end of the text,
-- that of `re` may stand before a last newline.
use Prim.Native.Char.{code}
use extube.Prelude.{ℕ, suc, ◌==◌, String, Bool, true, false, ◌&&◌, ◌||◌, leb, if◌then◌else◌}
use extube.Prelude.Text.{before}
use extube.Http.{Reply, http}
use extube.Auth.{Counters, Crypto, Server, Identity, register, validate_access_token}

pub record UserRegister : Type 0 where
  pub username : String
  pub password : String

abbrev pub all_chars : (ℕ → Bool) → String → Bool
all_chars p String.[] = true
all_chars p (String.◌∷◌ c s) = let rest = all_chars p s in p (code c) && rest

abbrev pub some_char : (ℕ → Bool) → String → Bool
some_char p String.[] = false
some_char p (String.◌∷◌ c s) = let rest = some_char p s in p (code c) || rest

abbrev pub len : String → ℕ
len String.[] = 0
len (String.◌∷◌ c s) = suc (len s)

unfoldable pub is_lower : ℕ → Bool
is_lower c = leb b'a' c && leb c b'z'

unfoldable pub is_upper : ℕ → Bool
is_upper c = leb b'A' c && leb c b'Z'

-- `[a-zA-Z0-9_]`
unfoldable pub is_name_char : ℕ → Bool
unfolding is_lower is_upper
is_name_char c = is_lower c || is_upper c || (leb b'0' c && leb c b'9') || c == b'_'

-- The class of special characters: the printable ones of ASCII but letters, digits and the space.
unfoldable pub is_special : ℕ → Bool
is_special c =
    (leb 33 c && leb c 47)
    || (leb 58 c && leb c 64)
    || (leb 91 c && leb c 96)
    || (leb 123 c && leb c 126)

unfoldable pub is_username : String → Bool
unfolding is_name_char
is_username name = leb 3 (len name) && leb (len name) 32 && all_chars is_name_char name

-- A newline stands nowhere but at the end.
unfoldable pub is_one_line : String → Bool
is_one_line String.[] = true
is_one_line (String.◌∷◌ c String.[]) = true
is_one_line (String.◌∷◌ c (String.◌∷◌ d s)) =
    let rest = is_one_line (String.◌∷◌ d s) in if code c == 10 then false else rest

-- `_PASSWORD_PATTERN.match`: `.` is no newline.
unfoldable pub is_strong : (ℕ → Bool) → String → Bool
unfolding before is_lower is_upper is_special is_one_line
is_strong decimal password =
    let line = before 10 password in
    leb 8 (len line)
    && is_one_line password
    && some_char is_lower line
    && some_char is_upper line
    && some_char decimal line
    && some_char is_special line

unfoldable pub is_valid_registration : (ℕ → Bool) → UserRegister → Bool
unfolding is_username is_strong
is_valid_registration decimal body =
    is_username body.username
    && leb 8 (len body.password)
    && leb (len body.password) 128
    && is_strong decimal body.password

module _ (C : Counters) (K : Crypto) where
  -- The endpoint; a body that is not valid is 422.
  unfoldable pub register_body :
      (ℕ → Bool) → UserRegister → String → ℕ → Server C → Server C × Reply Identity
  unfolding is_valid_registration register
  register_body decimal body user_id now server =
      if is_valid_registration decimal body
      then register C K body.username body.password user_id now server
      else (server, http 422)

  unfoldable pub get_current_user : ℕ → String → Server C → Reply Identity
  unfolding validate_access_token
  get_current_user now token server = validate_access_token C K now token server

-- ===== src/Downloader.antt =====
-- The URL test of src/downloader/downloader.py, `YOUTUBE_URL_PATTERN`, and the metadata of a video.
pub mod Download
mod Tests
use Prim.Native.Char.{code}
use extube.Prelude.{
  ℕ, zero, suc, ◌≡◌, refl, String, Bool, true, false, ◌&&◌, ◌||◌, Option, none, some, leb, ◌==◌,
  if◌then◌else◌,
}

-- `[A-Za-z0-9_-]`
unfoldable pub is_id_char : ℕ → Bool
is_id_char c =
    (leb b'A' c && leb c b'Z')
    || (leb b'a' c && leb c b'z')
    || (leb b'0' c && leb c b'9')
    || c == b'_'
    || c == b'-'

-- What follows a literal of the pattern, where the text begins with it.
unfoldable pub after_prefix : String → String → Option String
after_prefix String.[] s = some s
after_prefix (String.◌∷◌ p ps) String.[] = none
after_prefix (String.◌∷◌ p ps) (String.◌∷◌ c s) =
    let rest = after_prefix ps s in if code p == code c then rest else none

-- `n` characters of an id and the end, `$`, which a newline may precede.
unfoldable pub is_id : ℕ → String → Bool
unfolding is_id_char
is_id zero String.[] = true
is_id zero (String.◌∷◌ c String.[]) = code c == 10
is_id zero (String.◌∷◌ c (String.◌∷◌ d s)) = false
is_id (suc n) String.[] = false
is_id (suc n) (String.◌∷◌ c s) = let rest = is_id n s in is_id_char (code c) && rest

-- A group with `?`.
unfoldable pub after_optional : String → String → String
unfolding after_prefix
after_optional p s = elim (after_prefix p s) [ none ↦ s | some rest ↦ rest ]

unfoldable pub is_id_after : String → String → Bool
unfolding after_prefix is_id
is_id_after p s = elim (after_prefix p s) [ none ↦ false | some rest ↦ is_id 11 rest ]

unfoldable pub after_scheme : String → String
unfolding after_prefix after_optional
after_scheme s = elim (after_prefix "https://" s) [
  | none ↦ after_optional "http://" s
  | some rest ↦ rest
]

unfoldable pub validate_youtube_url : String → Bool
unfolding after_scheme after_optional is_id_after
validate_youtube_url url =
    let s = after_optional "www." (after_scheme url) in
    is_id_after "youtube.com/watch?v=" s
    || is_id_after "youtu.be/" s
    || is_id_after "youtube.com/shorts/" s

-- The duration in thousandths of a second.
pub record VideoMetadata : Type 0 where
  pub duration : Option ℕ
  pub title : Option String
  pub video_id : String
  pub height : Option ℕ
  pub filesize_approx : Option ℕ

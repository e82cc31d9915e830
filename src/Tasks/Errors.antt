-- ===== src/Tasks/Errors.antt =====
-- Which errors src/api/tasks.py and src/reconstruction/reconstruction.py take for transient.
use extube.Prelude.{String, Bool, true, false, ◌&&◌, ◌||◌, List, [], ◌∷◌, any, ◌==◌}
use extube.Prelude.Text.{concat, lower}
use Prim.Native.Char.{code}

pub record Exception : Type 0 where
  pub type_name : String
  pub message : String

starts : String → String → Bool
unfolding lower
starts String.[] s = true
starts (String.◌∷◌ c p) String.[] = false
starts (String.◌∷◌ c p) (String.◌∷◌ d s) = let rest = starts p s in code c == lower (code d) && rest

-- `pattern in text.lower()`, for a pattern in lower case.
unfoldable pub contains_lower : String → String → Bool
unfolding starts
contains_lower p String.[] = starts p String.[]
contains_lower p (String.◌∷◌ d s) =
    let rest = contains_lower p s in starts p (String.◌∷◌ d s) || rest

-- `_RETRYABLE_ERROR_PATTERNS`
abbrev pub retryable_error_patterns : List String
retryable_error_patterns =
    "timeout" ∷ "timed out" ∷ "connection reset" ∷ "connection refused" ∷ "temporary failure"
    ∷ "network is unreachable" ∷ "name resolution" ∷ "ssl" ∷ "http error 429" ∷ "http error 500"
    ∷ "http error 502" ∷ "http error 503" ∷ "http error 504" ∷ "unable to download"
    ∷ "urlopen error" ∷ "incompleteread" ∷ "remotedisconnected" ∷ "out of memory" ∷ "cuda" ∷ "gpu"
    ∷ "cannot allocate memory" ∷ "killed" ∷ []

-- `_COLMAP_RETRYABLE_PATTERNS`
abbrev pub colmap_retryable_patterns : List String
colmap_retryable_patterns =
    "out of memory" ∷ "gpu" ∷ "cuda" ∷ "timeout" ∷ "timed out" ∷ "resource temporarily unavailable"
    ∷ "cannot allocate memory" ∷ "killed" ∷ "signal 9" ∷ "signal 15" ∷ []

-- `any(pattern in text for pattern in patterns)`
unfoldable pub any_in : List String → String → Bool
unfolding contains_lower
any_in patterns text = any (λ p. contains_lower p text) patterns

unfoldable pub is_retryable_error : Exception → Bool
unfolding any_in concat
is_retryable_error e =
    any_in retryable_error_patterns (concat (e.type_name ∷ ": " ∷ e.message ∷ []))

unfoldable pub is_colmap_retryable_error : String → Bool
unfolding any_in
is_colmap_retryable_error message = any_in colmap_retryable_patterns message

-- ===== src/Paths.antt =====
-- Job ids and resolved paths: `validate_job_path` of src/api/dependencies.py, `_validate_job_path`
-- of src/api/tasks.py, and the path tests of src/api/routers/files.py. A resolved path is the list
-- of its parts; the output directory is given resolved, and symbolic links are not modelled.
use Prim.Native.Char.{code}
use extube.Prelude.{
  ℕ, suc, String, Bool, true, false, ◌&&◌, ◌||◌, Option, none, some, List, [], ◌∷◌, ◌++◌, leb, ◌==◌,
  str_eq, if◌then◌else◌,
}

unfoldable pub is_hex : ℕ → Bool
is_hex c = (leb b'a' c && leb c b'f') || (leb b'0' c && leb c b'9')

abbrev pub all_hex : String → Bool
all_hex String.[] = true
all_hex (String.◌∷◌ c s) = let rest = all_hex s in is_hex (code c) && rest

abbrev size : String → ℕ
size String.[] = 0
size (String.◌∷◌ c s) = suc (size s)

-- `re.fullmatch(r"[a-f0-9]{12}", job_id)`
unfoldable pub is_valid_job_id : String → Bool
unfolding is_hex
is_valid_job_id job_id = all_hex job_id && size job_id == 12

abbrev pub FilePath : Type 0
FilePath = List String

-- `path.is_relative_to(base)`
unfoldable pub is_relative_to : FilePath → FilePath → Bool
is_relative_to path [] = true
is_relative_to [] (b ∷ base) = false
is_relative_to (p ∷ path) (b ∷ base) = let rest = is_relative_to path base in str_eq p b && rest

without_last : FilePath → FilePath
without_last [] = []
without_last (p ∷ []) = []
without_last (p ∷ q ∷ path) = p ∷ without_last (q ∷ path)

-- `resolve()` of the parts of a request path under a resolved directory: `.` and empty parts stay
-- where they are, `..` goes up.
unfoldable pub resolve : FilePath → List String → FilePath
unfolding without_last
resolve dir [] = dir
resolve dir (part ∷ parts) =
    resolve
      (if str_eq part "" || str_eq part "."
        then dir
        else if str_eq part ".."
        then without_last dir
        else dir ++ part ∷ [])
      parts

-- `(dir / text).resolve()`, where `parts` is the text split at `/`: a text that begins with `/` is
-- absolute and replaces the directory.
unfoldable pub join : FilePath → List String → FilePath
unfolding resolve
join dir [] = dir
join dir (part ∷ []) = resolve dir (part ∷ [])
join dir (part ∷ q ∷ parts) =
    if str_eq part "" then resolve [] (q ∷ parts) else resolve dir (part ∷ q ∷ parts)

-- `none` stands for the `ValueError`.
unfoldable pub validate_job_path : FilePath → String → Option FilePath
unfolding is_valid_job_id is_relative_to resolve
validate_job_path base job_id =
    if is_valid_job_id job_id
    then (if is_relative_to (resolve base (job_id ∷ [])) base
        then some (resolve base (job_id ∷ []))
        else none)
    else none

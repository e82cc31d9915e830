-- ===== src/Reconstruct/Stats.antt =====
-- What src/reconstruction/reconstruction.py reads from the output of tools and from directories.
use Prim.Native.Char.{code}
use extube.Prelude.{
  ℕ, ◌+◌, ◌*◌, ◌-◌, String, Bool, ◌&&◌, ◌||◌, Option, none, some, List, [], ◌∷◌, ◌==◌, leb, str_eq,
  keep, count, if◌then◌else◌,
}
use extube.Prelude.Text.{strip, sorted, is_space}
use extube.Prelude.Split.{split_on}
use extube.Gaussian.{or_else, starts, contains}
use extube.Reconstruct.{Files, child}

pub record Stats : Type 0 where
  pub num_registered : ℕ
  pub num_points3d : ℕ
  pub model_dir : Option String

-- `int(text)` for digits; anything else is a `ValueError`.
int_from : ℕ → String → Option ℕ
int_from n String.[] = some n
int_from n (String.◌∷◌ c s) =
    let rest = int_from (n * 10 + (code c - 48)) s in
    if leb 48 (code c) && leb (code c) 57 then rest else none

unfoldable pub int : String → Option ℕ
unfolding int_from
int text = if str_eq (strip text) "" then none else int_from 0 (strip text)

-- What stands behind the last character that passes, and the whole text where none does.
after_last : (ℕ → Bool) → String → Option String
after_last p String.[] = none
after_last p (String.◌∷◌ c s) =
    let rest = after_last p s in some_or rest (if p (code c) then some s else none)
  where
    some_or : Option String → Option String → Option String
    some_or none o = o
    some_or (some s) o = some s

unfoldable pub last_part : (ℕ → Bool) → String → String
unfolding after_last
last_part p s = or_else (after_last p s) s

unfoldable pub count_ply_points : Option (List String) → ℕ
unfolding starts last_part int is_space
count_ply_points none = 0
count_ply_points (some []) = 0
count_ply_points (some (raw_line ∷ lines)) =
    let rest = count_ply_points (some lines) in
    let line = strip raw_line in
    if starts "element vertex" line
    then or_else (int (last_part is_space line)) 0
    else if str_eq line "end_header"
    then 0
    else rest

-- One line of `model_analyzer`: the numbers after it; `none` is a `ValueError`.
unfoldable pub read_line : String → ℕ × ℕ → Option (ℕ × ℕ)
unfolding contains last_part int
read_line line (registered, points) =
    let number = int (last_part (λ c. c == 61) line) in
    if contains "Registered images" line
    then elim number [ none ↦ none | some n ↦ some (n, points) ]
    else if contains "Points" line && contains "3D" line
    then elim number [ none ↦ none | some n ↦ some (registered, n) ]
    else some (registered, points)

-- The loop over the lines, which an error ends.
unfoldable pub read_stats : List String → ℕ × ℕ → ℕ × ℕ
unfolding read_line
read_stats [] found = found
read_stats (line ∷ lines) found = elim (read_line line found) [
  | none ↦ found
  | some next ↦ read_stats lines next
]

-- The directories in a directory, sorted.
unfoldable pub model_dirs : String → Files → List String
unfolding sorted
model_dirs sparse_dir files =
    sorted (keep (λ name. files.is_dir (child sparse_dir name)) (files.names sparse_dir))

unfoldable pub analyzed : Option String → String → Stats
unfolding read_stats
analyzed none model_dir = record {
  num_registered = 0;
  num_points3d = 0;
  model_dir = some model_dir;
}
analyzed (some stdout) model_dir =
    let (registered, points) = read_stats (split_on 10 stdout) (0, 0) in
    record { num_registered = registered; num_points3d = points; model_dir = some model_dir }

unfoldable pub ends_with : String → String → Bool
ends_with suffix String.[] = str_eq suffix ""
ends_with suffix (String.◌∷◌ c s) =
    let rest = ends_with suffix s in str_eq suffix (String.◌∷◌ c s) || rest

abbrev pub image_extensions : List String
image_extensions = ".jpg" ∷ ".jpeg" ∷ ".png" ∷ ".JPG" ∷ ".JPEG" ∷ ".PNG" ∷ []

unfoldable pub count_images : List String → List String → ℕ
unfolding ends_with
count_images [] names = 0
count_images (extension ∷ extensions) names =
    count (ends_with extension) names + count_images extensions names

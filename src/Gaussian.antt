-- ===== src/Gaussian.antt =====
-- src/reconstruction/gaussian_splatting.py: the choice of parameters by GPU memory, the training with
-- its second attempt after a lack of memory, and the run around it. What each process does is an
-- argument. Memory is in MiB, and factors stand as exact fractions where the source has floats.
pub mod Timeout
pub mod Training
mod Tests
use Prim.Native.String
use Prim.Native.Char.{code}
use Prim.Native.Nat.{min}
use extube.Prelude.{
  ℕ, ◌+◌, ◌*◌, ◌/◌, String, Bool, true, false, ◌&&◌, ◌||◌, Option, none, some, List, [], ◌∷◌, ◌==◌,
  ltb, leb, str_eq, if◌then◌else◌,
}
use extube.Prelude.Text.{concat, decimal}
use extube.Colmap.{Process, timed_out, exited, signalled}

pub record Preset : Type 0 where
  pub max_num_iterations : ℕ
  pub steps_per_eval_image : ℕ
  pub num_downscales : ℕ

-- `_VRAM_PRESETS.get(name, _VRAM_PRESETS["medium"])`; the alpha threshold is one constant.
unfoldable pub preset_of : String → Preset
preset_of name =
    if str_eq name "low"
    then record { max_num_iterations = 7000; steps_per_eval_image = 500; num_downscales = 2 }
    else if str_eq name "high"
    then record { max_num_iterations = 30000; steps_per_eval_image = 1000; num_downscales = 0 }
    else record { max_num_iterations = 15000; steps_per_eval_image = 500; num_downscales = 1 }

-- What `nvidia-smi` answers: its code and the number on its first line, if there is one; `none`
-- stands for a process that does not start or end.
abbrev pub Probe : Type 0
Probe = Option (ℕ × Option ℕ)

unfoldable pub detect_vram : Probe → ℕ
detect_vram none = 0
detect_vram (some (status, none)) = 0
detect_vram (some (status, some mib)) = if status == 0 then mib else 0

-- The same reading, of the answer to `memory.free`.
unfoldable pub detect_vram_free : Probe → ℕ
unfolding detect_vram
detect_vram_free probe = detect_vram probe

abbrev pub gb : ℕ
gb = 1024

-- Tenths of a second for each iteration.
unfoldable pub per_iteration : ℕ → ℕ
per_iteration vram = if leb vram (8 * gb) then 5 else if ltb vram (20 * gb) then 3 else 2

unfoldable pub compute_dynamic_timeout : ℕ → ℕ → ℕ
unfolding per_iteration
compute_dynamic_timeout vram num_iterations =
    min (1800 + num_iterations * per_iteration vram / 10) 14400

unfoldable pub select_vram_preset : ℕ → String
select_vram_preset vram =
    if vram == 0
    then "medium"
    else if leb vram (8 * gb)
    then "low"
    else if ltb vram (20 * gb)
    then "medium"
    else "high"

unfoldable pub starts : String → String → Bool
starts String.[] s = true
starts (String.◌∷◌ c p) String.[] = false
starts (String.◌∷◌ c p) (String.◌∷◌ d s) = let rest = starts p s in code c == code d && rest

-- `pattern in stderr`
unfoldable pub contains : String → String → Bool
unfolding starts
contains p String.[] = starts p String.[]
contains p (String.◌∷◌ d s) = let rest = contains p s in starts p (String.◌∷◌ d s) || rest

unfoldable pub is_oom_error : String → Bool
unfolding contains
is_oom_error stderr = contains "CUDA out of memory" stderr || contains "OutOfMemoryError" stderr

pub data GsError : Type 0 where
  file_not_found timeout_expired : GsError
  runtime_error : String → GsError

pub data Result (A : Type 0) : Type 0 where
  ok : A → Result A
  err : GsError → Result A

-- One run of `ns-train`.
pub record Command : Type 0 where
  pub iterations : ℕ
  pub timeout : ℕ
  pub preset : Preset

-- How a run ends for the code after it: it succeeds, lacks memory, fails otherwise, or is cut off.
pub data Ended : Type 0 where
  succeeded out_of_memory cut_off : Ended
  crashed : String → Ended

unfoldable pub ended_by : Process → Ended
unfolding is_oom_error
ended_by timed_out = cut_off
ended_by (exited status stderr) =
    if status == 0
    then succeeded
    else if is_oom_error stderr
    then out_of_memory
    else crashed (concat ("3DGS 학습 실패 (code " ∷ decimal status ∷ "): " ∷ stderr ∷ []))
ended_by (signalled signal stderr) =
    if is_oom_error stderr
    then out_of_memory
    else crashed (concat ("3DGS 학습 실패 (code -" ∷ decimal signal ∷ "): " ∷ stderr ∷ []))

pub record Found : Type 0 where
  pub path : String
  pub modified : ℕ

-- `max(files, key=...)`: the first of the latest.
later_of : Found → List Found → Found
later_of f [] = f
later_of f (g ∷ gs) = later_of (if ltb f.modified g.modified then g else f) gs

unfoldable pub find_output_file : List Found → Option String
unfolding later_of
find_output_file [] = none
find_output_file (f ∷ fs) = some (later_of f fs).path

pub record GaussianSplattingResult : Type 0 where
  pub ply_path : Option String
  pub splat_path : Option String
  pub num_iterations : ℕ
  pub vram_preset : String

unfoldable pub or_else : {A : Type 0} → Option A → A → A
or_else none b = b
or_else (some a) b = a

-- The directories `sparse_dir` and `image_dir` exist, and the process of `ns-process-data` ends.
unfoldable pub convert_colmap_to_nerfstudio : Bool → Bool → Process → Result Unit
convert_colmap_to_nerfstudio sparse_exists image_exists timed_out =
    if sparse_exists && image_exists then err timeout_expired else err file_not_found
convert_colmap_to_nerfstudio sparse_exists image_exists (exited status stderr) =
    if sparse_exists && image_exists
    then if status == 0
      then ok tt
      else err (
          runtime_error
            (concat ("nerfstudio 데이터 변환 실패 (code " ∷ decimal status ∷ "): " ∷ stderr ∷ [])))
    else err file_not_found
convert_colmap_to_nerfstudio sparse_exists image_exists (signalled signal stderr) =
    if sparse_exists && image_exists
    then err (
        runtime_error
          (concat ("nerfstudio 데이터 변환 실패 (code -" ∷ decimal signal ∷ "): " ∷ stderr ∷ [])))
    else err file_not_found

-- The name in the workspace that a file found is copied to.
unfoldable pub copied_to : String → Option String → Option String
copied_to final none = none
copied_to final (some path) = some final

unfoldable pub copy_results : GaussianSplattingResult → GaussianSplattingResult
unfolding copied_to
copy_results r = record r {
  ply_path = copied_to "gaussian_splat.ply" r.ply_path;
  splat_path = copied_to "gaussian_splat.splat" r.splat_path;
}

unfoldable pub copy_outcome :
    List Command × Result GaussianSplattingResult → List Command × Result GaussianSplattingResult
unfolding copy_results
copy_outcome (commands, ok r) = (commands, ok (copy_results r))
copy_outcome (commands, err e) = (commands, err e)

-- What the program meets: the memory that is detected, how the first and the second training run
-- end, and the files that the training leaves.
pub record Machine : Type 0 where
  pub probe : Probe
  pub conversion : Process
  pub first_run : Process
  pub second_run : Process
  pub ply_files : List Found
  pub splat_files : List Found

module _ (machine : Machine) where
  unfoldable pub trained : ℕ → String → GaussianSplattingResult
  unfolding find_output_file
  trained iterations name = record {
    ply_path = find_output_file machine.ply_files;
    splat_path = find_output_file machine.splat_files;
    num_iterations = iterations;
    vram_preset = name;
  }

  -- After the second run.
  unfoldable pub after_second : ℕ → String → Ended → Result GaussianSplattingResult
  unfolding trained
  after_second reduced name succeeded = ok (trained reduced name)
  after_second reduced name cut_off = err timeout_expired
  after_second reduced name (crashed message) = err (runtime_error message)
  after_second reduced name out_of_memory = err (
      runtime_error (
        concat (
          "GPU VRAM이 부족합니다. "
          ∷ decimal reduced
          ∷ " iterations에서도 OOM이 발생했습니다. "
          ∷ "더 낮은 해상도나 적은 iteration을 사용하세요."
          ∷ [])))

  -- After the first: the commands that follow, and the outcome.
  unfoldable pub after_first :
      Command → String → Ended → List Command × Result GaussianSplattingResult
  unfolding after_second trained ended_by
  after_first c name succeeded = ([], ok (trained c.iterations name))
  after_first c name cut_off = ([], err timeout_expired)
  after_first c name (crashed message) = ([], err (runtime_error message))
  after_first c name out_of_memory = (
    record c { iterations = c.iterations / 2 } ∷ [],
    after_second (c.iterations / 2) name (ended_by machine.second_run),
  )

  unfoldable pub train_gaussian_splatting :
      Bool → Option String → Option ℕ → Option ℕ → List Command × Result GaussianSplattingResult
  unfolding preset_of detect_vram select_vram_preset compute_dynamic_timeout or_else after_first
      ended_by
  train_gaussian_splatting data_dir_exists vram_preset max_iterations timeout =
      let vram = detect_vram machine.probe in
      let name = or_else vram_preset (select_vram_preset vram) in
      let preset = preset_of name in
      let iterations = or_else max_iterations preset.max_num_iterations in
      let command : Command = record {
        iterations = iterations;
        timeout = or_else timeout (compute_dynamic_timeout vram iterations);
        preset = preset;
      } in
      let rest = after_first command name (ended_by machine.first_run) in
      if data_dir_exists then (command ∷ rest.0, rest.1) else ([], err file_not_found)

  unfoldable pub after_conversion :
      Option String → Option ℕ → ℕ → Result Unit → List Command × Result GaussianSplattingResult
  unfolding train_gaussian_splatting copy_outcome
  after_conversion vram_preset max_iterations timeout (err e) = ([], err e)
  after_conversion vram_preset max_iterations timeout (ok tt) =
      copy_outcome (train_gaussian_splatting true vram_preset max_iterations (some timeout))

  unfoldable pub run_gaussian_splatting :
      Bool → Bool → Option String → Option ℕ → ℕ → List Command × Result GaussianSplattingResult
  unfolding after_conversion convert_colmap_to_nerfstudio
  run_gaussian_splatting sparse_exists image_exists vram_preset max_iterations timeout =
      after_conversion vram_preset max_iterations timeout
        (convert_colmap_to_nerfstudio sparse_exists image_exists machine.conversion)

-- The timeout of a call that names none.
abbrev pub default_timeout : ℕ
default_timeout = 7200

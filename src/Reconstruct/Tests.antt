-- ===== src/Reconstruct/Tests.antt =====
-- `reconstruct` on a workspace where the first run fails at its last step.
use extube.Prelude.{
  ℕ, String, true, false, ◌≡◌, none, some, List, [], ◌∷◌, refl, map, str_eq, any, if◌then◌else◌,
}
use extube.Prelude.Text.{concat, strip}
use extube.Prelude.Split.{split_on}
use extube.Colmap.{exited, run_colmap, after_attempt, failure_at, failure, goes_on}
use extube.Gaussian.{or_else}
use extube.Reconstruct.{Io, runtime_error, Files, State, Machine, Exit, done, thrown, absent}
use extube.Reconstruct.Stats.{count_ply_points, read_stats}
use extube.Reconstruct.Workspace.{cleaning, steps_of}
use extube.Reconstruct.Pipeline.{Options, ReconstructionResult, reconstruct}
use extube.Reconstruct.Hoare.{After}
use extube.Reconstruct.Resume.{Consistent}
use extube.Reconstruct.Results.{Completes, run_all, reconstruct-resumes}

abbrev files : Files
files = record {
  is_dir = λ path. any (str_eq path) ("frames" ∷ "job" ∷ "job/sparse" ∷ "job/sparse/0" ∷ []);
  is_file = λ path. str_eq path "job/database.db";
  names = λ dir.
      if str_eq dir "frames"
      then "1.jpg" ∷ "2.jpg" ∷ "notes.txt" ∷ []
      else if str_eq dir "job/sparse"
      then "0" ∷ []
      else [];
  lines = λ path. none;
  refuses = λ dir. none;
}

abbrev fresh : State
fresh = record {
  files = files;
  checkpoint = absent;
  steps_completed = [];
  commands = [];
  retries = [];
  notices = [];
  metadata = none;
}

-- The mapper ends with a status, and everything else succeeds.
abbrev mapper_ends : ℕ → Machine
mapper_ends status = record {
  process = λ command attempt.
      if str_eq command.name "mapper" then exited status "no initial pair" else exited 0 "";
  effect = λ command files. files;
  model_analyzer = λ path. some "Registered images = 2\nPoints (3D) = 128";
  potree_installed = false;
  potree_process = exited 0 "";
  potree_effect = λ files. files;
  gaussian = record {
    probe = none;
    conversion = exited 0 "";
    first_run = exited 0 "";
    second_run = exited 0 "";
    ply_files = [];
    splat_files = [];
  };
  gaussian_effect = λ files. files;
  locked = λ path. false;
}

abbrev options : Options
options = record {
  image_dir = "frames";
  workspace_dir = "job";
  camera_model = "SIMPLE_RADIAL";
  export_ply = true;
  timeout = 3600;
  dense = false;
  max_image_size = 0;
  gaussian_splatting = false;
  gs_max_iterations = none;
  retry_config = none;
}

reconstruct-resumes_example :
    After Completes Consistent
      (reconstruct (mapper_ends 0) options (run_all ((mapper_ends 1, options) ∷ []) fresh))
reconstruct-resumes_example =
    reconstruct-resumes ((mapper_ends 1, options) ∷ []) (mapper_ends 0) options fresh refl refl

failed_once : State
unfolding reconstruct
failed_once = (reconstruct (mapper_ends 1) options fresh).1

saves_two : steps_of failed_once.checkpoint ≡ "feature_extraction" ∷ "exhaustive_matching" ∷ []
unfolding failed_once steps_of run_colmap after_attempt failure_at failure concat goes_on
saves_two = refl

steps_reported : Exit ReconstructionResult × State → List String
steps_reported (done r, s) = r.steps_completed
steps_reported (thrown e, s) = []

-- The second run starts at the mapper, whose command has run twice now.
names_run : List String
unfolding failed_once reconstruct
names_run = map (λ c. c.0.name) (reconstruct (mapper_ends 0) options failed_once).1.commands

resumes :
    names_run
    ≡ "feature_extractor" ∷ "exhaustive_matcher" ∷ "mapper" ∷ "mapper" ∷ "model_converter" ∷ []
unfolding names_run run_colmap after_attempt failure_at failure concat goes_on split_on strip
resumes = refl

reports :
    steps_reported (reconstruct (mapper_ends 0) options failed_once)
    ≡ "feature_extraction" ∷ "exhaustive_matching" ∷ "sparse_reconstruction" ∷ "ply_export" ∷ []
unfolding steps_reported failed_once reconstruct run_colmap after_attempt failure_at failure concat
    goes_on split_on strip
reports = refl

counts_points : count_ply_points (some ("ply" ∷ "element vertex 42\n" ∷ "end_header" ∷ [])) ≡ 42
unfolding count_ply_points strip or_else
counts_points = refl

reads_numbers :
    read_stats ("Registered images = 12" ∷ "Points (3D) = x" ∷ "Points (3D) = 7" ∷ []) (0, 0)
    ≡ (12, 0)
unfolding read_stats strip or_else
reads_numbers = refl

-- A run whose mapper fails, in a workspace with a log of it.
abbrev littered : State
littered = record fresh {
  files = record files { names = λ dir. "mapper.log" ∷ "database.db" ∷ [] };
  steps_completed = [];
}

abbrev fails : Io ℕ
fails s = (thrown (runtime_error "no initial pair"), s)

removes_the_log :
    (cleaning (mapper_ends 1) "job" fails littered).1.files.names "job" ≡ "database.db" ∷ []
unfolding cleaning
removes_the_log = refl

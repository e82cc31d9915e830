-- ===== src/Pipeline/Cli.antt =====
-- src/__main__.py: the options of the command line and `main`. The split of the words of a command
-- line into options is that of argparse.
use extube.Prelude.{
  ℕ, String, Bool, true, false, not, Option, none, some, List, [], ◌∷◌, ◌++◌, if◌then◌else◌,
}
use extube.Prelude.Text.{concat, decimal}
use extube.Downloader.Download.{text_or_none}
use extube.Reconstruct.{
  Failure, file_not_found, value_error, timeout_expired, os_error, runtime_error, Files, State,
  Exit, done, thrown, child, exists,
}
use extube.Pipeline.{Pipeline, PipelineResult, Tools, run}

-- An option as argparse reads it, its value converted; floats stand in thousandths.
pub data Argument : Type 0 where
  url output_dir camera_model : String → Argument
  max_height frame_interval blur_threshold max_image_size : ℕ → Argument
  no_ply dense verbose : Argument

pub record Namespace : Type 0 where
  pub url : Option String
  pub output_dir : String
  pub max_height : ℕ
  pub frame_interval : ℕ
  pub blur_threshold : ℕ
  pub camera_model : String
  pub no_ply : Bool
  pub dense : Bool
  pub max_image_size : ℕ
  pub verbose : Bool

abbrev pub defaults : Namespace
defaults = record {
  url = none;
  output_dir = "output";
  max_height = 1080;
  frame_interval = 1000;
  blur_threshold = 100000;
  camera_model = "SIMPLE_RADIAL";
  no_ply = false;
  dense = false;
  max_image_size = 0;
  verbose = false;
}

unfoldable pub store_argument : Argument → Namespace → Namespace
store_argument (url text) args = record args { url = some text }
store_argument (output_dir path) args = record args { output_dir = path }
store_argument (camera_model name) args = record args { camera_model = name }
store_argument (max_height n) args = record args { max_height = n }
store_argument (frame_interval n) args = record args { frame_interval = n }
store_argument (blur_threshold n) args = record args { blur_threshold = n }
store_argument (max_image_size n) args = record args { max_image_size = n }
store_argument no_ply args = record args { no_ply = true }
store_argument dense args = record args { dense = true }
store_argument verbose args = record args { verbose = true }

-- The options in turn, where a later one replaces an earlier one.
unfoldable pub parse_args : List Argument → Namespace → Namespace
unfolding store_argument
parse_args [] args = args
parse_args (argument ∷ arguments) args = parse_args arguments (store_argument argument args)

unfoldable pub pipeline_of : Namespace → Pipeline
pipeline_of args = record {
  output_dir = args.output_dir;
  max_height = args.max_height;
  frame_interval = args.frame_interval;
  blur_threshold = args.blur_threshold;
  camera_model = args.camera_model;
  export_ply = not args.no_ply;
  dense = args.dense;
  max_image_size = args.max_image_size;
  gaussian_splatting = false;
  gs_max_iterations = none;
}

-- The line of a file that exists.
unfoldable pub file_line : Files → String → String → List String
unfolding exists concat
file_line files label path = if exists files path then concat (label ∷ path ∷ []) ∷ [] else []

unfoldable pub dense_lines : Files → String → Option ℕ → List String
unfolding file_line decimal concat
dense_lines files workspace_dir none = []
dense_lines files workspace_dir (some n) =
    concat ("  Dense 포인트: " ∷ decimal n ∷ "개" ∷ [])
    ∷ file_line files "  Dense PLY 파일: " (child workspace_dir "dense_points.ply")

-- What `main` prints of a result.
unfoldable pub summary : PipelineResult → Files → List String
unfolding text_or_none decimal concat file_line dense_lines
summary result files =
    let workspace_dir = child result.output_dir "reconstruction" in
    concat ("\n완료! 결과: " ∷ result.output_dir ∷ [])
      ∷ concat ("  영상: " ∷ text_or_none result.video_title ∷ [])
      ∷ concat ("  프레임: " ∷ decimal result.extraction.total_extracted ∷ "장 추출" ∷ [])
      ∷ concat ("  3D 포인트: " ∷ decimal result.reconstruction.num_points3d ∷ "개" ∷ [])
      ∷ file_line files "  PLY 파일: " (child workspace_dir "points.ply")
    ++ dense_lines files workspace_dir result.reconstruction.num_dense_points

-- How `main` ends: with a code and what it printed, or with an exception that it does not catch.
pub data Outcome : Type 0 where
  exit_code : ℕ → List String → Outcome
  escaped : Failure → Outcome

unfoldable pub caught : Failure → Outcome
caught value_error = exit_code 1 []
caught (runtime_error message) = exit_code 1 []
caught file_not_found = exit_code 1 []
caught timeout_expired = escaped timeout_expired
caught (os_error type_name) = escaped (os_error type_name)

unfoldable pub reported : Exit PipelineResult × State → Outcome × State
unfolding summary caught
reported (done result, s) = (exit_code 0 (summary result s.files), s)
reported (thrown e, s) = (caught e, s)

-- argparse ends the program where no URL is given.
unfoldable pub main : Tools → Namespace → State → Option (Outcome × State)
unfolding reported pipeline_of run
main tools args s = elim args.url [
  | none ↦ none
  | some text ↦ some (reported (run tools (pipeline_of args) text s))
]

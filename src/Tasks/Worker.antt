-- ===== src/Tasks/Worker.antt =====
-- The stages that `run_pipeline` of src/api/tasks.py calls, by the models of Downloader, Extractor
-- and Reconstruct: what each returns or raises, and what it leaves on the disk. The texts of the
-- exceptions, and the calls of the two callbacks by what `reconstruct` has told, are arguments.
pub mod Scene
mod Tests
use Prim.Native.Char.{code}
use extube.Prelude.{
  ℕ, ◌-◌, ◌==◌, String, Bool, true, false, ◌&&◌, ◌||◌, Option, none, some, List, [], ◌∷◌, ltb,
  if◌then◌else◌,
}
use extube.Prelude.Split.{split_on}
use extube.Prelude.Text.{concat}
use extube.JobStore.{Progress, Params}
use extube.Colmap.{ColmapRetryConfig}
use extube.Config
use extube.Paths.{FilePath, is_relative_to, join}
use extube.Downloader.Download as Fetch
use extube.Downloader.Download.{download_video}
use extube.Extractor
use extube.Reconstruct.{
  Failure, file_not_found, value_error, timeout_expired, os_error, runtime_error, Files, State,
  Exit, done, thrown, child, exists,
}
use extube.Reconstruct.Pipeline as Rebuild
use extube.Reconstruct.Pipeline.{Options, reconstruct}
use extube.Pipeline.{Pipeline, Tools, options_of, extract}
use extube.Tasks.Errors.{Exception}
use extube.Tasks.{
  returned, raised, DownloadResult, ExtractionResult, ReconstructionResult, Stages, too_few_frames,
}

-- The text of a path of the root.
unfoldable pub text_of_path : FilePath → String
text_of_path [] = ""
text_of_path (part ∷ path) = let rest = text_of_path path in concat ("/" ∷ part ∷ rest ∷ [])

has_slash : String → Bool
has_slash String.[] = false
has_slash (String.◌∷◌ c s) = let rest = has_slash s in code c == b'/' || rest

-- `path.parent`, of a path with two parts at least.
unfoldable pub parent : String → String
unfolding has_slash
parent String.[] = String.[]
parent (String.◌∷◌ c s) =
    let rest = parent s in if has_slash s then String.◌∷◌ c rest else String.[]

-- `colmap_retry_config`, in thousandths, with the default of the field that is not given.
abbrev pub retry_config_of : Config.Settings → ColmapRetryConfig
retry_config_of settings = record {
  max_retries = settings.colmap_max_retries;
  base_delay = settings.colmap_retry_base_delay;
  backoff_multiplier = settings.colmap_retry_backoff_multiplier;
  timeout_multiplier = 1500;
}

-- The arguments of `run_pipeline`, for stages that work below a directory.
abbrev pub pipeline_of_job : String → Params → Pipeline
pipeline_of_job job_dir params = record {
  output_dir = job_dir;
  max_height = params.max_height;
  frame_interval = params.frame_interval;
  blur_threshold = params.blur_threshold;
  camera_model = params.camera_model;
  export_ply = true;
  dense = params.dense;
  max_image_size = params.max_image_size;
  gaussian_splatting = params.gaussian_splatting;
  gs_max_iterations = params.gs_max_iterations;
}

unfoldable pub exception_of : (Failure → String) → Failure → Exception
exception_of str file_not_found = record {
  type_name = "FileNotFoundError";
  message = str file_not_found;
}
exception_of str value_error = record { type_name = "ValueError"; message = str value_error }
exception_of str timeout_expired = record {
  type_name = "TimeoutExpired";
  message = str timeout_expired;
}
exception_of str (os_error type_name) = record {
  type_name = type_name;
  message = str (os_error type_name);
}
exception_of str (runtime_error message) = record { type_name = "RuntimeError"; message = message }

-- `path.resolve().is_relative_to(base)`
unfoldable pub is_inside : FilePath → String → Bool
unfolding is_relative_to join split_on
is_inside base path = is_relative_to (join [] (split_on b'/' path)) base

unfoldable pub stored_path : FilePath → Files → Option String → Option String
unfolding is_inside
stored_path base files none = none
stored_path base files (some path) =
    if exists files path && is_inside base path then some path else none

unfoldable pub stored_parent : FilePath → Files → Option String → Option String
unfolding is_inside parent
stored_parent base files none = none
stored_parent base files (some path) =
    if exists files path && is_inside base (parent path) then some (parent path) else none

module _ (tools : Tools) (str : Failure → String) (callbacks : State → List Progress)
    (config : Config.Settings) (base : FilePath) (url : String) (p : Pipeline) where
  abbrev pub job_options : Options
  job_options = record (options_of p) { retry_config = some (retry_config_of config) }

  unfoldable pub scene_of : Rebuild.ReconstructionResult → Files → ReconstructionResult
  unfolding stored_path stored_parent
  scene_of r files = record {
    num_registered = r.num_registered;
    num_points3d = r.num_points3d;
    steps_completed = r.steps_completed;
    num_dense_points = r.num_dense_points;
    gs_num_iterations = r.gs_num_iterations;
    ply_path =
        stored_path base files (some (child (child p.output_dir "reconstruction") "points.ply"));
    dense_ply_path =
        stored_path base files
          (some (child (child p.output_dir "reconstruction") "dense_points.ply"));
    gs_splat_path = stored_path base files r.gs_ply_path;
    potree_dir = stored_parent base files r.potree_metadata_path;
  }

  -- The stages behind one that raises are not called, and no code reads what they would do.
  abbrev stopped : Exception → Stages
  stopped e = record {
    download_video = raised e;
    extract_and_filter = raised e;
    callbacks = [];
    reconstruct = raised e;
  }

  abbrev pub downloaded : Fetch.DownloadResult → DownloadResult
  downloaded d = record { title = d.title }

  abbrev pub extracted : Extractor.ExtractionResult → ExtractionResult
  extracted x = record { total_extracted = x.total_extracted; total_filtered = x.total_filtered }

  unfoldable pub after_scene :
      DownloadResult → ExtractionResult → Exit Rebuild.ReconstructionResult × State → Stages × State
  unfolding scene_of exception_of
  after_scene d x (done r, t) = (
    record {
      download_video = returned d;
      extract_and_filter = returned x;
      callbacks = callbacks t;
      reconstruct = returned (scene_of r t.files);
    },
    t,
  )
  after_scene d x (thrown e, t) = (
    record {
      download_video = returned d;
      extract_and_filter = returned x;
      callbacks = callbacks t;
      reconstruct = raised (exception_of str e);
    },
    t,
  )

  -- A run of `reconstruct` begins with nothing told.
  abbrev pub fresh : State → State
  fresh t = record t { steps_completed = []; retries = []; notices = [] }

  unfoldable pub after_frames :
      DownloadResult → Exit Extractor.ExtractionResult × State → Stages × State
  unfolding after_scene reconstruct
  after_frames d (thrown e, t) =
      (record (stopped (exception_of str e)) { download_video = returned d }, t)
  after_frames d (done x, t) =
      let remaining = x.total_extracted - x.total_filtered in
      if ltb remaining 2
      then (
        record (stopped (too_few_frames remaining)) {
          download_video = returned d;
          extract_and_filter = returned (extracted x);
        },
        t,
      )
      else after_scene d (extracted x) (reconstruct tools.machine job_options (fresh t))

  unfoldable pub after_video : Exit Fetch.DownloadResult × State → Stages × State
  unfolding after_frames extract
  after_video (thrown e, t) = (stopped (exception_of str e), t)
  after_video (done d, t) =
      after_frames (downloaded d) (extract tools p d.video_path (child p.output_dir "extraction") t)

  unfoldable pub stages : State → Stages × State
  unfolding after_video download_video
  stages s =
      after_video (download_video tools.yt_dlp url (child p.output_dir "download") p.max_height s)

-- ===== src/Tasks/Worker/Tests.antt =====
-- A job of the worker on a video of three frames, the second of which is blurry.
use extube.Prelude.{
  true, false, ◌≡◌, String, Option, none, some, List, [], ◌∷◌, str_eq, any, refl, if◌then◌else◌,
}
use extube.Prelude.Split.{split_on}
use extube.JobStore
use extube.JobStore.{JobStatus, pending, completed, failed, Progress, Params, Job, Row, new_job}
use extube.Redis.{Redis}
use extube.Redis.Model.{redis_model, no_data}
use extube.QueueManager.{JobMeta}
use extube.Paths.{FilePath, validate_job_path}
use extube.Colmap.{exited, run_colmap, after_attempt, failure_at, failure}
use extube.Config.{default_settings}
use extube.Downloader.{validate_youtube_url}
use extube.Downloader.Download.{Answer, info, missing, value}
use extube.Extractor.{Video}
use extube.Reconstruct.{Failure, State, absent}
use extube.Pipeline.{Tools}
use extube.Tasks.{Settings, World, run_pipeline}
use extube.Tasks.Ends.{status_of, job_of}
use extube.Tasks.Worker.{text_of_path, pipeline_of_job, stages}
use extube.Tasks.Worker.Scene.{Delivered, run_pipeline-Delivered}

abbrev R : Redis JobMeta
R = redis_model JobMeta

abbrev s : Settings
s = record { max_retries = 3; retry_base_delay = 30; retry_backoff_multiplier = 2 }

abbrev video : Video
video = record {
  exists = true;
  ffmpeg = exited 0 "";
  frame_files = "frame_000003.jpg" ∷ "frame_000001.jpg" ∷ "frame_000002.jpg" ∷ [];
  laplacian = λ name. exited 0 (
      if str_eq name "frame_000002.jpg"
      then "lavfi.laplacian.variance=low"
      else "lavfi.laplacian.variance=high");
  float = λ text.
      if str_eq text "low" then some 40 else if str_eq text "high" then some 180000 else none;
  as_completed = λ names. names;
}

abbrev answer : Answer
answer = info (record {
  id = "dQw4w9WgXcQ";
  title = value "Tour";
  ext = missing;
  height = value 720;
  duration = value 60000;
  filesize_approx = missing;
  filesize = value 4096;
})

-- The downloaded file, and the model and the points that COLMAP leaves.
abbrev tools : Tools
tools = record {
  yt_dlp = record {
    lookup = λ text. answer;
    download = λ o text. answer;
    download_effect = λ o text files. record files {
      is_file = λ path. str_eq path "/srv/0123456789ab/download/dQw4w9WgXcQ.mp4";
    };
  };
  video = λ files path. video;
  machine = record {
    process = λ command attempt. exited 0 "";
    effect = λ command files. record files {
      is_dir = λ path. any (str_eq path) (
          "/srv/0123456789ab/extraction/frames" ∷ "/srv/0123456789ab/reconstruction/sparse"
          ∷ "/srv/0123456789ab/reconstruction/sparse/0" ∷ []);
      is_file = λ path. any (str_eq path) (
          "/srv/0123456789ab/reconstruction/database.db"
          ∷ "/srv/0123456789ab/reconstruction/points.ply" ∷ []);
      names = λ dir.
          if str_eq dir "/srv/0123456789ab/reconstruction/sparse"
          then "0" ∷ []
          else files.names dir;
    };
    model_analyzer = λ path. some "Registered images = 2\nPoints (3D) = 128";
    potree_installed = false;
    potree_process = exited 0 "";
    potree_effect = λ files. files;
    gaussian = record {
      probe = none;
      conversion = exited 0 "";
      first_run = exited 0 "";
      second_run = exited 0 "";
      ply_files = [];
      splat_files = [];
    };
    gaussian_effect = λ files. files;
    locked = λ path. false;
  };
}

abbrev disk : State
disk = record {
  files = record {
    is_dir = λ path. false;
    is_file = λ path. false;
    names = λ dir. [];
    lines = λ path. none;
    refuses = λ dir. none;
  };
  checkpoint = absent;
  steps_completed = [];
  commands = [];
  retries = [];
  notices = [];
  metadata = none;
}

abbrev str : Failure → String
str e = "error"

abbrev callbacks : State → List Progress
callbacks t = []

abbrev params : Params
params = record {
  max_height = 1080;
  frame_interval = 1000;
  blur_threshold = 100000;
  camera_model = "SIMPLE_RADIAL";
  dense = false;
  max_image_size = 0;
  gaussian_splatting = false;
  gs_max_iterations = none;
  priority = "normal";
}

abbrev job : Job
job = new_job "0123456789ab" pending "https://youtu.be/dQw4w9WgXcQ" none

abbrev w : World R
w = record {
  table = record { job = job; created_at = 5 } ∷ [];
  redis = no_data JobMeta;
  published = [];
  queued = [];
}

abbrev base : FilePath
base = "srv" ∷ []

abbrev dir : FilePath
dir = "srv" ∷ "0123456789ab" ∷ []

abbrev after : Tools → World R
after tools =
    run_pipeline R s base
      (stages tools str callbacks default_settings base "https://youtu.be/dQw4w9WgXcQ"
        (pipeline_of_job (text_of_path dir) params) disk).0
      "0123456789ab" 7 w

inside : validate_job_path base "0123456789ab" ≡ some dir
unfolding validate_job_path
inside = refl

is_completed : status_of (job_of R "0123456789ab" (after tools)) ≡ some completed
unfolding run_pipeline stages text_of_path validate_youtube_url split_on run_colmap after_attempt
    failure_at failure JobStore.get new_job validate_job_path extube.Prelude.Text.concat
    JobStore.update
is_completed = refl

run_pipeline-Delivered_example : Delivered R s "0123456789ab" 7 (after tools)
unfolding JobStore.get new_job
run_pipeline-Delivered_example =
    run_pipeline-Delivered R s "0123456789ab" 7 tools str callbacks default_settings base dir
      "https://youtu.be/dQw4w9WgXcQ" params disk w job inside refl is_completed

-- ===== src/Jobs/Tests.antt =====
-- The job endpoints of src/api/routers/jobs.py on a concrete table.
use extube.Prelude.{String, ◌≡◌, ◌≤◌, true, none, some, List, [], ◌∷◌, arith, refl}
use extube.JobStore
use extube.JobStore.{JobStatus, pending, failed, Job, new_job}
use extube.Redis.{Redis}
use extube.Redis.Model.{redis_model, no_data}
use extube.QueueManager.{JobMeta}
use extube.Jobs.{Settings, World, is_foreign}
use extube.Downloader.{validate_youtube_url, VideoMetadata}
use extube.Paths.{validate_job_path}
use extube.Jobs.{
  JobCreate, default_params, active_count, create_job, check_video, create_unless, create_limited,
  cancel_job, get_user_job, delete_job, start_job, remove_dir,
}
use extube.Jobs.Requests.{Request, creating, deleting, retry, cancelling, handle}
use extube.Jobs.Limit.{handle_each, handle_each-active_count}
use extube.Jobs.Steps.{Step, handle-Step, handle_all, handle_all-is_foreign}

abbrev R : Redis JobMeta
R = redis_model JobMeta

abbrev s : Settings
s = record {
  max_video_duration_seconds = 600;
  max_video_filesize_mb = 500;
  max_jobs_per_user = 2;
  output_base_dir = [];
}

abbrev theirs : Job
theirs = new_job "0123456789ab" failed "u" (some "ann")

abbrev w : World R
w = record {
  table = record { job = theirs; created_at = 5 } ∷ [];
  redis = no_data JobMeta;
  job_dirs = "0123456789ab" ∷ [];
  queued = [];
  published = [];
}

handle-Step_example :
    Step "ann"
      (JobStore.get "0123456789ab" w.table)
      (JobStore.get "0123456789ab" (handle R s "ann" (retry "0123456789ab" 9) w).table)
handle-Step_example = handle-Step "ann" R s (retry "0123456789ab" 9) w "0123456789ab"

handle_all-is_foreign_example :
    JobStore.get "0123456789ab"
      (handle_all "bob" R s (deleting "0123456789ab" ∷ retry "0123456789ab" 9 ∷ []) w).table
    ≡ some theirs
unfolding JobStore.get new_job is_foreign
handle_all-is_foreign_example =
    handle_all-is_foreign "bob" R s (deleting "0123456789ab" ∷ retry "0123456789ab" 9 ∷ []) w
      "0123456789ab" theirs refl refl

-- Two users, one of whom asks for three jobs; the second is cancelled before the third.
abbrev body : JobCreate
body = record {
  url = "https://youtu.be/dQw4w9WgXcQ";
  params = default_params;
  force_reprocess = true;
}

abbrev meta : VideoMetadata
meta = record {
  duration = some 60000;
  title = some "Tour";
  video_id = "dQw4w9WgXcQ";
  height = none;
  filesize_approx = none;
}

abbrev requests : List (String × Request)
requests =
    ("bob", creating "aaaaaaaaaaaa" body (some meta) 1)
    ∷ ("bob", creating "bbbbbbbbbbbb" body (some meta) 2)
    ∷ ("ann", deleting "aaaaaaaaaaaa")
    ∷ ("bob", cancelling "bbbbbbbbbbbb")
    ∷ ("bob", creating "cccccccccccc" body (some meta) 3)
    ∷ ("bob", creating "dddddddddddd" body (some meta) 4)
    ∷ []

none_yet : active_count "bob" w.table ≡ 0
unfolding active_count JobStore.list_jobs new_job
none_yet = refl

handle_each-active_count_example : active_count "bob" (handle_each R s requests w).table ≤ 2
handle_each-active_count_example =
    handle_each-active_count R s requests w "bob" 2 refl (omega arith) (omega (arith, none_yet))

two_left : active_count "bob" (handle_each R s requests w).table ≡ 2
unfolding active_count handle_each JobStore.list_jobs create_job check_video validate_youtube_url
    create_unless create_limited cancel_job get_user_job JobStore.get delete_job new_job start_job
    JobStore.create JobStore.update remove_dir validate_job_path
two_left = refl

-- ===== src/Tasks/Tests.antt =====
-- `run_pipeline` of src/api/tasks.py on a job whose download fails with a network error.
use extube.Prelude.{◌≡◌, false, none, some, [], ◌∷◌, refl}
use extube.JobStore
use extube.JobStore.{JobStatus, processing, retrying, pending, Job, Table, new_job, Row}
use extube.Redis.{Redis}
use extube.Redis.Model.{redis_model, no_data}
use extube.QueueManager.{JobMeta}
use extube.QueueManager.Lifecycle.{phase}
use extube.Paths.{FilePath, validate_job_path}
use extube.Tasks.Errors.{Exception}
use extube.Tasks.{Settings, Stages, World, raised, retry_count_of, run_pipeline}
use extube.Tasks.Ends.{status_of, job_of}
use extube.Tasks.Ending.{error_of}
use extube.Tasks.Verdict.{verdict, is_retrying, run_pipeline-verdict}

abbrev R : Redis JobMeta
R = redis_model JobMeta

abbrev s : Settings
s = record { max_retries = 3; retry_base_delay = 30; retry_backoff_multiplier = 2 }

abbrev lost : Exception
lost = record { type_name = "RuntimeError"; message = "Connection refused" }

abbrev st : Stages
st = record {
  download_video = raised lost;
  extract_and_filter = raised lost;
  callbacks = [];
  reconstruct = raised lost;
}

abbrev job : Job
job = new_job "0123456789ab" pending "u" none

abbrev w : World R
w = record {
  table = record { job = job; created_at = 5 } ∷ [];
  redis = no_data JobMeta;
  published = [];
  queued = [];
}

abbrev base : FilePath
base = "srv" ∷ "out" ∷ []

inside : validate_job_path base "0123456789ab" ≡ some ("srv" ∷ "out" ∷ "0123456789ab" ∷ [])
unfolding validate_job_path
inside = refl

run_pipeline-verdict_example :
    (status_of (job_of R "0123456789ab" (run_pipeline R s base st "0123456789ab" 7 w))
      ≡ some (verdict s (error_of st) (retry_count_of (some job))))
    × (phase R "0123456789ab" (run_pipeline R s base st "0123456789ab" 7 w).redis ≡ record {
      waiting = is_retrying (verdict s (error_of st) (retry_count_of (some job)));
      active = false;
    })
unfolding JobStore.get new_job
run_pipeline-verdict_example =
    run_pipeline-verdict R s "0123456789ab" 7 base ("srv" ∷ "out" ∷ "0123456789ab" ∷ []) st w job
      inside refl

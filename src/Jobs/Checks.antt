-- ===== src/Jobs/Checks.antt =====
-- What the endpoints of src/api/routers/jobs.py test before they act, and `get_user_job` of
-- src/api/dependencies.py.
use extube.Prelude.{
  ℕ, ◌+◌, ◌*◌, String, Bool, true, false, ◌&&◌, Option, none, some, ltb, str_eq, if◌then◌else◌,
}
use extube.JobStore
use extube.JobStore.{
  JobStatus, pending, processing, completed, failed, retrying, cancelled, RunResult, Params, Job,
  Table, Field, status_eq,
}
use extube.Paths.{FilePath}
use extube.Downloader.{validate_youtube_url, VideoMetadata}
use extube.Http.{Reply, ok, raise_if, or_raise, ◌>>=◌, ◌>>◌}

pub record Settings : Type 0 where
  pub max_video_duration_seconds : ℕ
  pub max_video_filesize_mb : ℕ
  pub max_jobs_per_user : ℕ
  pub output_base_dir : FilePath

-- `get_user_job` of src/api/dependencies.py; a job without an owner is anyone's.
unfoldable pub is_foreign : String → Job → Bool
is_foreign user_id job = elim job.user_id [
  | none ↦ false
  | some owner ↦ if str_eq owner user_id then false else true
]

unfoldable pub get_user_job : String → String → Table → Reply Job
unfolding is_foreign
get_user_job job_id user_id t =
    or_raise (JobStore.get job_id t) 404 >>= λ job. raise_if (is_foreign user_id job) 403 >> ok job

-- Whether the size is known, not zero and above the limit.
unfoldable pub is_too_large : Option ℕ → ℕ → Bool
is_too_large none limit = false
is_too_large (some n) limit = ltb 0 n && ltb limit n

-- The tests of `create_job` on the URL and on the metadata, where `none` is the `RuntimeError`.
unfoldable pub check_video : Settings → String → Option VideoMetadata → Reply (Unit {0})
unfolding is_too_large
check_video s url meta =
    raise_if (if validate_youtube_url url then false else true) 400
    >> (or_raise meta 503 >>= λ m. or_raise m.duration 422 >>= λ duration.
        raise_if (ltb (s.max_video_duration_seconds * 1000) duration) 422
        >> raise_if (is_too_large m.filesize_approx (s.max_video_filesize_mb * 1024 * 1024)) 422)

unfoldable pub total_of : JobStatus → String → Table → ℕ
total_of status user_id t =
    (JobStore.list_jobs (some status) 0 0 (some user_id) "created_at" "desc" t).total

-- The three `store.list` calls with `limit=0`.
unfoldable pub active_count : String → Table → ℕ
unfolding total_of
active_count user_id t =
    total_of pending user_id t + total_of processing user_id t + total_of retrying user_id t

-- ===== src/Jobs.antt =====
-- The job endpoints of src/api/routers/jobs.py. `job_dirs` names the directories of jobs that
-- exist, `queued` logs the calls of `q.enqueue`, and `published` those of pub/sub. The commands to RQ
-- on a cancelled job have no effect on these, whether they raise or not.
mod Body
mod Checks
pub use Body.{camera_models, JobCreate, JobResponse, JobListResponse}
unfoldable pub use Body.{is_valid_body, default_params, is_text, priority_of, params_of}
pub use Checks.{Settings}
unfoldable pub use Checks.{is_foreign, get_user_job, is_too_large, check_video, active_count}
pub mod Requests
pub mod Steps
pub mod Active
pub mod Limit
mod Tests
use extube.Prelude.{
  ℕ, ◌+◌, ◌-◌, ◌*◌, String, Bool, true, false, ◌&&◌, ◌||◌, Option, none, some, List, [], ◌∷◌, ◌++◌,
  map, any, keep, ltb, leb, str_eq, if◌then◌else◌,
}
use extube.Prelude.Text.{concat}
use Prim.Native.Nat.{◌/◌}
use extube.JobStore
use extube.JobStore.{
  JobStatus, pending, processing, completed, failed, retrying, cancelled, RunResult, Params, Job,
  Table, Field, status_eq,
}
use extube.Redis.{Redis}
use extube.QueueManager.{
  QueueStatus, get_status, JobPriority, high, normal, JobMeta, enqueue, cancel, get_position,
}
use extube.Paths.{FilePath, validate_job_path}
use extube.Downloader.{validate_youtube_url, VideoMetadata}
use extube.Http.{Reply, ok, http, raise_if, or_raise, ◌>>=◌, ◌>>◌}
use extube.Tasks.{saved}

module _ (R : Redis JobMeta) where
  pub record World : Type 0 where
    pub table : Table
    pub redis : R.Db
    pub job_dirs : List String
    pub queued : List (String × Params)
    pub published : List (String × String)

  unfoldable pub build_response : Job → R.Db → JobResponse
  unfolding is_text status_eq
  build_response job db = record {
    id = job.id;
    status = job.status;
    url = job.url;
    error = job.error;
    result = job.result;
    gs_splat_url =
        if is_text job.gs_splat_path
        then some (concat ("/api/jobs/" ∷ job.id ∷ "/splat" ∷ []))
        else none;
    retry_count = elim job.retry_count [ none ↦ 0 | some n ↦ n ];
    queue_position = if status_eq job.status pending then get_position R job.id db else none;
  }

  unfoldable pub save : String → List Field → World → World
  unfolding saved
  save job_id fields w = record w { table = saved (JobStore.update job_id fields w.table) w.table }

  unfoldable pub enqueue_job : String → Params → JobPriority → ℕ → World → World
  enqueue_job job_id params priority now w = record w {
    redis = (enqueue R job_id priority now w.redis).0;
    queued = w.queued ++ (job_id, params) ∷ [];
  }

  -- What `create_job` does once the limit has passed.
  unfoldable pub start_job : String → String → JobCreate → ℕ → World → World × Reply JobResponse
  unfolding save enqueue_job priority_of
  start_job job_id user_id body now w =
      elim (JobStore.create job_id pending body.url (some user_id) now w.table) [
        | JobStore.err e ↦ (w, http 500)
        | JobStore.ok created ↦
            let w₁ =
              save job_id (Field.params (some body.params) ∷ []) (record w { table = created.0 }) in
            let w₂ = enqueue_job job_id body.params (priority_of body.params.priority) now w₁ in
            (
              w₂,
              ok (record {
                id = job_id;
                status = pending;
                url = body.url;
                error = none;
                result = none;
                gs_splat_url = none;
                retry_count = 0;
                queue_position = get_position R job_id w₂.redis;
              }),
            )
      ]

  -- The limit on the jobs of a user.
  unfoldable pub create_limited :
      Settings → String → String → JobCreate → ℕ → World → World × Reply JobResponse
  create_limited s job_id user_id body now w =
      if leb s.max_jobs_per_user (active_count user_id w.table)
      then (w, http 429)
      else start_job job_id user_id body now w

  -- What follows the search for a completed job with the same URL.
  unfoldable pub create_unless :
      Settings → String → String → JobCreate → ℕ → World → Option Job → World × Reply JobResponse
  create_unless s job_id user_id body now w none = create_limited s job_id user_id body now w
  create_unless s job_id user_id body now w (some existing) =
      (w, ok (build_response existing w.redis))

  unfoldable pub create_checked :
      Settings
      → String
      → String
      → JobCreate
      → ℕ
      → World
      → Reply (Unit {0})
      → World × Reply JobResponse
  create_checked s job_id user_id body now w (http code) = (w, http code)
  create_checked s job_id user_id body now w (ok _) = create_unless s job_id user_id body now w (
      if body.force_reprocess
      then none
      else JobStore.find_completed_by_url body.url user_id w.table)

  -- `job_id` is the one that `uuid4` gives; a body that is not valid never reaches the handler.
  unfoldable pub create_job :
      Settings
      → String
      → String
      → JobCreate
      → Option VideoMetadata
      → ℕ
      → World
      → World × Reply JobResponse
  unfolding create_checked
  create_job s job_id user_id body meta now w =
      create_checked s job_id user_id body now w (check_video s body.url meta)

  unfoldable pub list_jobs :
      Option JobStatus → ℕ → ℕ → String → String → String → World → Reply JobListResponse
  list_jobs status page per_page sort_by order user_id w =
      raise_if (if any (str_eq sort_by) ("created_at" ∷ "status" ∷ "url" ∷ []) then false else true)
        422
      >> raise_if (if str_eq order "asc" || str_eq order "desc" then false else true) 422
      >> (let found =
            JobStore.list_jobs status per_page ((page - 1) * per_page) (some user_id) sort_by order
              w.table in
          let pages = (found.total + (per_page - 1)) / per_page in
          ok (record {
            items = map (λ j. build_response j w.redis) found.items;
            total = found.total;
            page = page;
            per_page = per_page;
            total_pages = if ltb 1 pages then pages else 1;
          }))

  unfoldable pub get_job : String → String → World → Reply JobResponse
  get_job job_id user_id w =
      get_user_job job_id user_id w.table >>= λ job. ok (build_response job w.redis)

  -- `shutil.rmtree(job_dir)` where the id is valid.
  unfoldable pub remove_dir : Settings → String → World → World
  remove_dir s job_id w = elim (validate_job_path s.output_base_dir job_id) [
    | none ↦ w
    | some dir ↦ record w {
      job_dirs = keep (λ d. if str_eq d job_id then false else true) w.job_dirs;
    }
  ]

  unfoldable pub delete_found : Settings → String → World → Reply Job → World × Reply (Unit {0})
  unfolding status_eq
  delete_found s job_id w (http code) = (w, http code)
  delete_found s job_id w (ok job) =
      if status_eq job.status processing || status_eq job.status retrying
      then (w, http 409)
      else (let w₁ = remove_dir s job_id w in
          (record w₁ { table = (JobStore.delete job_id w₁.table).0 }, ok tt))

  unfoldable pub delete_job : Settings → String → String → World → World × Reply (Unit {0})
  unfolding delete_found
  delete_job s job_id user_id w = delete_found s job_id w (get_user_job job_id user_id w.table)

  -- The answer from the row that is read again.
  unfoldable pub respond : String → World → Reply JobResponse
  respond job_id w = elim (JobStore.get job_id w.table) [
    | none ↦ http 500
    | some job ↦ ok (build_response job w.redis)
  ]

  -- Stored parameters that are not valid raise after the update.
  unfoldable pub retry_found : String → ℕ → World → Reply Job → World × Reply JobResponse
  unfolding status_eq
  retry_found job_id now w (http code) = (w, http code)
  retry_found job_id now w (ok job) =
      let params = params_of job.params in
      let w₁ = save job_id (Field.status pending ∷ Field.error none ∷ Field.retry_count 0 ∷ []) w in
      let w₂ = enqueue_job job_id params normal now w₁ in
      if status_eq job.status failed
      then (if is_valid_body (record { url = job.url; params = params; force_reprocess = false })
          then (w₂, respond job_id w₂)
          else (w₁, http 500))
      else (w, http 409)

  unfoldable pub retry_job : String → String → ℕ → World → World × Reply JobResponse
  unfolding retry_found
  retry_job job_id user_id now w = retry_found job_id now w (get_user_job job_id user_id w.table)

  -- `QueueStatusResponse(**status)` has the fields of the status.
  unfoldable pub get_queue_status : ℕ → World → QueueStatus
  unfolding get_status
  get_queue_status max_concurrent w = get_status R max_concurrent w.redis

  abbrev pub cancel_message : String
  cancel_message = "사용자에 의해 취소됨"

  unfoldable pub cancel_found : Settings → String → World → Reply Job → World × Reply JobResponse
  unfolding status_eq
  cancel_found s job_id w (http code) = (w, http code)
  cancel_found s job_id w (ok job) =
      if status_eq job.status pending
        || status_eq job.status processing
        || status_eq job.status retrying
      then (let w₁ = record w { redis = (cancel R job_id w.redis).0 } in
          let w₂ =
            save job_id (Field.status cancelled ∷ Field.error (some cancel_message) ∷ []) w₁ in
          let w₃ = record w₂ { published = w₂.published ++ (job_id, cancel_message) ∷ [] } in
          let w₄ = remove_dir s job_id w₃ in (w₄, respond job_id w₄))
      else (w, http 409)

  unfoldable pub cancel_job : Settings → String → String → World → World × Reply JobResponse
  unfolding cancel_found
  cancel_job s job_id user_id w = cancel_found s job_id w (get_user_job job_id user_id w.table)

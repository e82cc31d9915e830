-- ===== src/Tasks.antt =====
-- src/api/tasks.py: the task that a worker runs for a job, and what becomes of its errors. The
-- stages (download, extraction, reconstruction) are a parameter: what each call returns or raises.
-- Redis is the parameter of QueueManager; `published` and `queued` log the calls of pub/sub and RQ.
pub mod Errors
pub mod Ends
pub mod Ending
pub mod Verdict
pub mod Worker
mod Tests
use extube.Prelude.{
  ℕ, ◌+◌, ◌-◌, ◌*◌, ◌^◌, String, Bool, true, false, ◌&&◌, Option, none, some, List, [], ◌∷◌, ◌++◌,
  ltb, if◌then◌else◌,
}
use extube.Prelude.Text.{concat, decimal}
use extube.Paths.{FilePath, validate_job_path}
use extube.JobStore
use extube.JobStore.{
  JobStatus, processing, completed, failed, retrying, Progress, RunResult, Params, Job, Table,
  Field, Result,
}
use extube.Redis.{Redis}
use extube.QueueManager.{JobMeta, normal, activate, enqueue, complete}
use Errors.{Exception, is_retryable_error}

pub record Settings : Type 0 where
  pub max_retries : ℕ
  pub retry_base_delay : ℕ
  pub retry_backoff_multiplier : ℕ

-- The messages on the channel of a job.
pub data Event : Type 0 where
  progressed : Progress → Event
  finished : RunResult → Event
  retried : ℕ → ℕ → ℕ → String → Event
  gave_up : String → Event

-- `q.enqueue_in(delay, run_pipeline, job_id, url, **params)`
pub record Delayed : Type 0 where
  pub delay : ℕ
  pub job_id : String
  pub url : String
  pub params : Option Params

pub data Outcome (A : Type 0) : Type 0 where
  returned : A → Outcome A
  raised : Exception → Outcome A

pub record DownloadResult : Type 0 where
  pub title : Option String

pub record ExtractionResult : Type 0 where
  pub total_extracted : ℕ
  pub total_filtered : ℕ

-- The paths are those that exist and lie under the output directory when they are resolved.
pub record ReconstructionResult : Type 0 where
  pub num_registered : ℕ
  pub num_points3d : ℕ
  pub steps_completed : List String
  pub num_dense_points : Option ℕ
  pub gs_num_iterations : Option ℕ
  pub ply_path : Option String
  pub dense_ply_path : Option String
  pub gs_splat_path : Option String
  pub potree_dir : Option String

-- `reconstruct` reports its progress and its retries by the two callbacks before it ends.
pub record Stages : Type 0 where
  pub download_video : Outcome DownloadResult
  pub extract_and_filter : Outcome ExtractionResult
  pub callbacks : List Progress
  pub reconstruct : Outcome ReconstructionResult

abbrev pub stage_progress : String → ℕ → String → Progress
stage_progress stage percent message = record {
  stage = stage;
  percent = percent;
  message = message;
  colmap_step = none;
  attempt = none;
  max_retries = none;
}

-- `job_store.update` with fields that are allowed, so that it raises nothing.
unfoldable pub saved : Result Table → Table → Table
saved (JobStore.ok t') t = t'
saved (JobStore.err e) t = t

unfoldable pub path_field : (Option String → Field) → Option String → List Field
path_field f none = []
path_field f (some p) = f (some p) ∷ []

unfoldable pub is_some {ℓ} : {A : Type ℓ} → Option A → Bool
is_some none = false
is_some (some a) = true

-- `result`, and `updates` with the paths that passed their tests.
unfoldable pub result_of : DownloadResult → ExtractionResult → ReconstructionResult → RunResult
unfolding is_some
result_of d e r = record {
  video_title = d.title;
  total_frames = e.total_extracted;
  filtered_frames = e.total_filtered;
  num_registered = r.num_registered;
  num_points3d = r.num_points3d;
  steps_completed = r.steps_completed;
  num_dense_points = r.num_dense_points;
  gs_num_iterations = r.gs_num_iterations;
  has_potree = is_some r.potree_dir;
}

unfoldable pub updates_of : RunResult → ReconstructionResult → List Field
unfolding path_field
updates_of result r =
    Field.status completed ∷ Field.result (some result) ∷ path_field Field.ply_path r.ply_path
    ++ path_field Field.dense_ply_path r.dense_ply_path
    ++ path_field Field.gs_splat_path r.gs_splat_path
    ++ path_field Field.potree_dir r.potree_dir

-- `job.get("retry_count", 0) or 0 if job else 0`
unfoldable pub retry_count_of : Option Job → ℕ
retry_count_of none = 0
retry_count_of (some job) = elim job.retry_count [ none ↦ 0 | some n ↦ n ]

unfoldable pub retry_delay : Settings → ℕ → ℕ
retry_delay s n = s.retry_base_delay * s.retry_backoff_multiplier ^ (n - 1)

unfoldable pub retry_message : Settings → ℕ → String → String
retry_message s n message =
    concat ("재시도 " ∷ decimal n ∷ "/" ∷ decimal s.max_retries ∷ ": " ∷ message ∷ [])

unfoldable pub too_few_frames : ℕ → Exception
too_few_frames n = record {
  type_name = "ValueError";
  message = concat (
      "블러 필터링 후 사용 가능한 프레임이 부족합니다 ("
      ∷ decimal n
      ∷ "장). 최소 2장이 필요합니다. blur_threshold 값을 낮추거나 frame_interval을 줄여 보세요."
      ∷ []);
}

module _ (R : Redis JobMeta) where
  pub record World : Type 0 where
    pub table : Table
    pub redis : R.Db
    pub published : List (String × Event)
    pub queued : List Delayed

  unfoldable pub save : String → List Field → World → World
  unfolding saved
  save job_id fields w = record w { table = saved (JobStore.update job_id fields w.table) w.table }

  unfoldable pub publish : String → Event → World → World
  publish job_id e w = record w { published = w.published ++ (job_id, e) ∷ [] }

  unfoldable pub update_progress : String → Progress → World → World
  unfolding save publish
  update_progress job_id p w =
      publish job_id (progressed p) (save job_id (Field.progress (some p) ∷ []) w)

  unfoldable pub report : String → List Progress → World → World
  unfolding update_progress
  report job_id [] w = w
  report job_id (p ∷ ps) w = report job_id ps (update_progress job_id p w)

  unfoldable pub requeue : Option Job → ℕ → String → World → World
  requeue none delay job_id w = w
  requeue (some job) delay job_id w = record w {
    queued =
        w.queued
        ++ record { delay = delay; job_id = job_id; url = job.url; params = job.params } ∷ [];
  }

  -- The first branch of `_handle_pipeline_error`; `qm.enqueue` takes its default priority.
  unfoldable pub schedule_retry : Settings → String → Exception → Option Job → ℕ → ℕ → World → World
  unfolding save publish retry_delay retry_message requeue
  schedule_retry s job_id error job n now w =
      let delay = retry_delay s n in
      let w₁ =
        save job_id
          (Field.status retrying
            ∷ Field.retry_count n
            ∷ Field.error (some (retry_message s n error.message))
            ∷ [])
          w in
      let w₂ = publish job_id (retried n s.max_retries delay error.message) w₁ in
      let w₃ = record w₂ { redis = (enqueue R job_id normal now w₂.redis).0 } in
      requeue job delay job_id w₃

  unfoldable pub handle_pipeline_error : Settings → String → Exception → ℕ → World → World
  unfolding save publish
  handle_pipeline_error s job_id error now w =
      let job = JobStore.get job_id w.table in
      let retry_count = retry_count_of job in
      if is_retryable_error error && ltb retry_count s.max_retries
      then schedule_retry s job_id error job (retry_count + 1) now w
      else publish job_id (gave_up error.message)
          (save job_id (Field.status failed ∷ Field.error (some error.message) ∷ []) w)

  -- The world when the `try` block ends, and the exception that ended it.
  abbrev pub Run : Type 0
  Run = World × Option Exception

  -- What follows the call of a stage, by what the call did.
  unfoldable pub after_reconstruct :
      String → DownloadResult → ExtractionResult → World → Outcome ReconstructionResult → Run
  unfolding save publish result_of updates_of
  after_reconstruct job_id d e w (raised error) = (w, some error)
  after_reconstruct job_id d e w (returned r) = (
    publish job_id (finished (result_of d e r)) (save job_id (updates_of (result_of d e r) r) w),
    none,
  )

  unfoldable pub after_extract :
      Stages → String → DownloadResult → World → Outcome ExtractionResult → Run
  unfolding update_progress report after_reconstruct too_few_frames
  after_extract st job_id d w (raised error) = (w, some error)
  after_extract st job_id d w (returned e) =
      let w₁ = update_progress job_id (stage_progress "extraction" 100 "프레임 추출 완료") w in
      let remaining = e.total_extracted - e.total_filtered in
      if ltb remaining 2
      then (w₁, some (too_few_frames remaining))
      else after_reconstruct job_id d e
          (report job_id st.callbacks
            (update_progress job_id (stage_progress "feature_matching" 0 "특징점 매칭 시작") w₁))
          st.reconstruct

  unfoldable pub after_download : Stages → String → World → Outcome DownloadResult → Run
  unfolding update_progress after_extract
  after_download st job_id w (raised error) = (w, some error)
  after_download st job_id w (returned d) =
      after_extract st job_id d
        (update_progress job_id (stage_progress "extraction" 0 "프레임 추출 시작")
          (update_progress job_id (stage_progress "download" 100 "영상 다운로드 완료") w))
        st.extract_and_filter

  unfoldable pub run_stages : Stages → String → World → Run
  unfolding update_progress after_download
  run_stages st job_id w =
      after_download st job_id (update_progress job_id (stage_progress "download" 0 "영상 다운로드 시작") w)
        st.download_video

  -- The `except` clause.
  unfoldable pub settle : Settings → String → ℕ → Run → World
  unfolding handle_pipeline_error
  settle s job_id now (w, none) = w
  settle s job_id now (w, some error) = handle_pipeline_error s job_id error now w

  -- `_validate_job_path` stands before the `try`: where it raises, nothing is handled or completed.
  unfoldable pub run_pipeline : Settings → FilePath → Stages → String → ℕ → World → World
  unfolding save run_stages settle
  run_pipeline s base st job_id now w =
      let w₁ =
        save job_id (Field.status processing ∷ [])
          (record w { redis = activate R job_id w.redis }) in
      elim (validate_job_path base job_id) [
        | none ↦ w₁
        | some job_dir ↦
            let w₂ = settle s job_id now (run_stages st job_id w₁) in
            record w₂ { redis = complete R job_id w₂.redis }
      ]

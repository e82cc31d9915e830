-- ===== src/Tasks/Verdict.antt =====
-- The status in which `run_pipeline` (src/api/tasks.py) leaves its job, for every way in which the
-- stages may end.
use extube.Prelude.{
  ℕ, ◌≡◌, String, Bool, true, false, ◌&&◌, Option, none, some, List, [], ◌∷◌, refl, ap, ◌∙◌, ltb,
  eq_refl, if◌then◌else◌, Bool-cases, inl, inr,
}
use extube.JobStore
use extube.JobStore.{JobStatus, processing, completed, failed, retrying, Job, Field, set_fields}
use extube.JobStore.Laws.{updates, move}
use extube.Redis.{Redis}
use extube.QueueManager.{JobMeta, normal, activate, enqueue, complete}
use extube.QueueManager.Lifecycle.{
  phase, perform, perform_all, perform_all-follow, enqueues, activates, completes,
}
use extube.Paths.{FilePath, validate_job_path}
use extube.Tasks.Errors.{Exception, is_retryable_error}
use extube.Tasks.{
  Settings, Stages, retry_count_of, World, save, publish, requeue, schedule_retry,
  handle_pipeline_error, Run, run_stages, settle, run_pipeline,
}
use extube.Tasks.Ends.{status_of, with_status, job_of, job_of-save, Ends, run_stages-Ends}
use extube.Tasks.Ending.{error_of, run_stages-error}

-- The contract of a run: what it makes of a job whose retry count is `n`.
abbrev pub verdict : Settings → Option Exception → ℕ → JobStatus
verdict s none n = completed
verdict s (some e) n = if is_retryable_error e && ltb n s.max_retries then retrying else failed

abbrev pub is_retrying : JobStatus → Bool
is_retrying retrying = true
is_retrying _ = false

retry_count_keeps :
    (job_id : String) (fields : List Field) (o : Option Job)
    → fields ≡ Field.status processing ∷ []
    → (retry_count_of (move (updates job_id fields) o) ≡ retry_count_of o)
      × (status_of (move (updates job_id fields) o) ≡ with_status processing (status_of o))
unfolding retry_count_of JobStore.any_refused set_fields
retry_count_keeps job_id fields none h = (refl, refl)
retry_count_keeps job_id fields (some job) h = rw h (refl, refl)

module _ (R : Redis JobMeta) (s : Settings) (job_id : String) (now : ℕ) where
  retried-status :
      (n : ℕ) (message : Option String) (o : Option Job)
      → status_of (
          move
            (updates job_id
              (Field.status retrying ∷ Field.retry_count n ∷ Field.error message ∷ []))
            o)
        ≡ with_status retrying (status_of o)
  unfolding JobStore.any_refused set_fields
  retried-status n message none = refl
  retried-status n message (some job) = refl

  failed-status :
      (message : Option String) (o : Option Job)
      → status_of (move (updates job_id (Field.status failed ∷ Field.error message ∷ [])) o)
        ≡ with_status failed (status_of o)
  unfolding JobStore.any_refused set_fields
  failed-status message none = refl
  failed-status message (some job) = refl

  requeue-table :
      (o : Option Job) (delay : ℕ) (w : World R) → (requeue R o delay job_id w).table ≡ w.table
  unfolding requeue
  requeue-table none delay w = refl
  requeue-table (some job) delay w = refl

  requeue-redis :
      (o : Option Job) (delay : ℕ) (w : World R) → (requeue R o delay job_id w).redis ≡ w.redis
  unfolding requeue
  requeue-redis none delay w = refl
  requeue-redis (some job) delay w = refl

  schedule_retry-status :
      (e : Exception) (o : Option Job) (n : ℕ) (w : World R)
      → status_of (job_of R job_id (schedule_retry R s job_id e o n now w))
        ≡ with_status retrying (status_of (job_of R job_id w))
  unfolding schedule_retry publish
  schedule_retry-status e o n w =
      ap (λ t. status_of (JobStore.get job_id t)) (requeue-table o _ _)
      ∙ ap status_of (job_of-save R job_id _ w)
      ∙ retried-status n _ (job_of R job_id w)

  schedule_retry-redis :
      (e : Exception) (o : Option Job) (n : ℕ) (w : World R)
      → (schedule_retry R s job_id e o n now w).redis ≡ (enqueue R job_id normal now w.redis).0
  unfolding schedule_retry publish save
  schedule_retry-redis e o n w = requeue-redis o _ _

  -- What `settle` makes of a run that ended with `e` on a job whose retry count is `n`.
  abbrev settled_status : Option Exception → World R → Option JobStatus
  settled_status none w = status_of (job_of R job_id w)
  settled_status (some e) w =
      with_status (verdict s (some e) (retry_count_of (job_of R job_id w)))
        (status_of (job_of R job_id w))

  abbrev settled_redis : JobStatus → World R → R.Db
  settled_redis v w = if is_retrying v then (enqueue R job_id normal now w.redis).0 else w.redis

  abbrev Settled : Option Exception → World R → World R → Type 0
  Settled e w w' =
      (status_of (job_of R job_id w') ≡ settled_status e w)
      × (w'.redis ≡ settled_redis (verdict s e (retry_count_of (job_of R job_id w))) w)

  handle-Settled :
      (w : World R) (e : Exception) → Settled (some e) w (handle_pipeline_error R s job_id e now w)
  unfolding handle_pipeline_error publish save
  handle-Settled w e =
      elim (Bool-cases
        (is_retryable_error e && ltb (retry_count_of (job_of R job_id w)) s.max_retries)) [
          | inl again ↦ rw again (schedule_retry-status e _ _ w, schedule_retry-redis e _ _ w)
          | inr over ↦
              rw over (
                ap status_of (job_of-save R job_id _ w) ∙ failed-status _ (job_of R job_id w),
                refl,
              )
        ]

  settle-Settled : (w : World R) (e : Option Exception) → Settled e w (settle R s job_id now (w, e))
  unfolding settle
  settle-Settled w none = (refl, refl)
  settle-Settled w (some e) = handle-Settled w e

  save-redis : (fields : List Field) (w : World R) → (save R job_id fields w).redis ≡ w.redis
  unfolding save
  save-redis fields w = refl

  start-status :
      (w : World R) (job : Job)
      → job_of R job_id w ≡ some job
      → (db : R.Db)
      → let w₁ = save R job_id (Field.status processing ∷ []) (record w { redis = db }) in
        (status_of (job_of R job_id w₁) ≡ some processing)
        × (retry_count_of (job_of R job_id w₁) ≡ retry_count_of (some job))
  start-status w job found db =
      let step = job_of-save R job_id (Field.status processing ∷ []) (record w { redis = db }) in
      let keeps = retry_count_keeps job_id _ (job_of R job_id w) refl in
      (
        ap status_of step ∙ keeps.1 ∙ ap (λ o. with_status processing (status_of o)) found,
        ap retry_count_of step ∙ keeps.0 ∙ ap retry_count_of found,
      )

  abbrev pub run_verdict : Option Exception → World R → JobStatus
  run_verdict e w₁ = verdict s e (retry_count_of (job_of R job_id w₁))

  after_run :
      (w₁ : World R) (run : Run R)
      → status_of (job_of R job_id w₁) ≡ some processing
      → Ends R job_id w₁ run
      → (status_of (job_of R job_id (settle R s job_id now run)) ≡ some (run_verdict run.1 w₁))
        × ((settle R s job_id now run).redis ≡ settled_redis (run_verdict run.1 w₁) w₁)
  unfolding settle
  after_run w₁ (w', none) start ends = (ends.status ∙ ap (with_status completed) start, ends.redis)
  after_run w₁ (w', some e) start ends =
      let done = handle-Settled w' e in
      (
        done.0
            ∙ ap (λ n. with_status (verdict s (some e) n) (status_of (job_of R job_id w')))
                ends.retries
            ∙ ap (with_status (run_verdict (some e) w₁)) (ends.status ∙ start),
        done.1
            ∙ ap (λ n. settled_redis (verdict s (some e) n) w') ends.retries
            ∙ ap
                (λ db.
                  if is_retrying (run_verdict (some e) w₁)
                  then (enqueue R job_id normal now db).0
                  else db)
                ends.redis,
      )

  -- What the Redis calls of a run leave of the job, where `again` says whether it is queued again.
  completed_phase :
      (again : Bool) (db : R.Db)
      → phase R job_id (
          complete R job_id (
            if again
            then (enqueue R job_id normal now (activate R job_id db)).0
            else activate R job_id db))
        ≡ record { waiting = again; active = false }
  unfolding perform_all perform
  completed_phase true db =
      perform_all-follow R job_id
        (activates job_id ∷ enqueues job_id normal now ∷ completes job_id ∷ []) db
      ∙ rw (eq_refl job_id) refl
  completed_phase false db =
      perform_all-follow R job_id (activates job_id ∷ completes job_id ∷ []) db
      ∙ rw (eq_refl job_id) refl

  -- Where the job exists and its directory passes `_validate_job_path`, a run of `run_pipeline`
  -- leaves the job `completed` where every stage returns and enough frames remain, `retrying` where
  -- it ends with a retryable exception and the retry count is below the limit, and `failed`
  -- otherwise; the job is then waiting for a worker exactly where it is retrying, and never active.
  pub run_pipeline-verdict :
      (base dir : FilePath) (st : Stages) (w : World R) (job : Job)
      → validate_job_path base job_id ≡ some dir
      → JobStore.get job_id w.table ≡ some job
      → let v = verdict s (error_of st) (retry_count_of (some job)) in
        let w' = run_pipeline R s base st job_id now w in
        (status_of (job_of R job_id w') ≡ some v)
        × (phase R job_id w'.redis ≡ record { waiting = is_retrying v; active = false })
  unfolding run_pipeline
  run_pipeline-verdict base dir st w job valid found =
      let w₁ =
        save R job_id (Field.status processing ∷ [])
          (record w { redis = activate R job_id w.redis }) in
      let start = start-status w job found (activate R job_id w.redis) in
      let same =
        ap (λ e. run_verdict e w₁) (run_stages-error R job_id st w₁)
        ∙ ap (verdict s (error_of st)) start.1 in
      let run = after_run w₁ (run_stages R st job_id w₁) start.0 (run_stages-Ends R job_id st w₁) in
      let v = verdict s (error_of st) (retry_count_of (some job)) in
      let kept =
        save-redis (Field.status processing ∷ [])
          (record w { redis = activate R job_id w.redis }) in
      rw (valid, run_pipeline)
        (
          run.0 ∙ ap some same,
          ap (λ db. phase R job_id (complete R job_id db))
                (run.1
                  ∙ ap (λ v. settled_redis v w₁) same
                  ∙ ap (λ db. if is_retrying v then (enqueue R job_id normal now db).0 else db)
                      kept)
              ∙ completed_phase (is_retrying v) w.redis,
        )

-- ===== src/Tasks/Ends.antt =====
-- How a run of `run_pipeline` (src/api/tasks.py) leaves its job.
use extube.Prelude.{
  ◌-◌, ◌≡◌, String, false, Option, none, some, List, [], ◌∷◌, arith, refl, ap, ◌∙◌, ltb, eq_refl,
  if◌then◌else◌, Bool-cases, inl, inr,
}
use extube.JobStore
use extube.JobStore.{
  JobStatus, processing, completed, failed, retrying, Progress, Params, RunResult, Job, Table,
  Field, Result, set_fields, set_field,
}
use extube.JobStore.Laws.{updates, move, get-update, updated}
use extube.Redis.{Redis}
use extube.QueueManager.{JobMeta}
use extube.Tasks.Errors.{Exception}
use extube.Tasks.{
  Event, Outcome, returned, raised, DownloadResult, ExtractionResult, ReconstructionResult, Stages,
  saved, result_of, updates_of, retry_count_of, World, save, publish, update_progress, report, Run,
  after_reconstruct, after_extract, after_download, run_stages,
}

abbrev pub status_of : Option Job → Option JobStatus
status_of none = none
status_of (some job) = some job.status

-- What an update makes of a status.
abbrev pub with_status : JobStatus → Option JobStatus → Option JobStatus
with_status s none = none
with_status s (some t) = some s

pub saved-updated : (r : Result Table) (t : Table) → saved r t ≡ updated r t
unfolding saved
saved-updated (JobStore.ok t') t = refl
saved-updated (JobStore.err e) t = refl

retry_count_cong :
    (a b : Job) → a.retry_count ≡ b.retry_count → retry_count_of (some a) ≡ retry_count_of (some b)
unfolding retry_count_of
retry_count_cong a b h = ground arith

module _ (R : Redis JobMeta) (job_id : String) where
  abbrev pub job_of : World R → Option Job
  job_of w = JobStore.get job_id w.table

  pub job_of-save :
      (fields : List Field) (w : World R)
      → job_of (save R job_id fields w) ≡ move (updates job_id fields) (job_of w)
  unfolding save
  job_of-save fields w =
      ap (JobStore.get job_id) (saved-updated (JobStore.update job_id fields w.table) w.table)
      ∙ get-update job_id job_id fields w.table
      ∙ ap (λ b. if b then move (updates job_id fields) (job_of w) else job_of w) (eq_refl job_id)

  -- From `w` to `w'` the job's status goes to `s`, and its retry count and Redis stay.
  pub record Tracks (s : Option JobStatus) (w w' : World R) : Type 0 where
    pub status : status_of (job_of w') ≡ s
    pub retries : retry_count_of (job_of w') ≡ retry_count_of (job_of w)
    pub redis : w'.redis ≡ w.redis

  Tracks-refl : (w : World R) → Tracks (status_of (job_of w)) w w
  Tracks-refl w = record { status = refl; retries = refl; redis = refl }

  Tracks-trans :
      {s t : Option JobStatus} {w w' w'' : World R}
      → Tracks s w w'
      → Tracks t w' w''
      → Tracks t w w''
  Tracks-trans p q = record {
    status = q.status;
    retries = q.retries ∙ p.retries;
    redis = q.redis ∙ p.redis;
  }

  Tracks-progress :
      (p : Progress) (w : World R) → Tracks (status_of (job_of w)) w (update_progress R job_id p w)
  unfolding update_progress JobStore.any_refused set_fields retry_count_of
  Tracks-progress p w = record {
    status = ap status_of (job_of-save (Field.progress (some p) ∷ []) w) ∙ same (job_of w);
    retries = ap retry_count_of (job_of-save (Field.progress (some p) ∷ []) w) ∙ count (job_of w);
    redis = refl;
  }
    where
      same :
          (o : Option Job)
          → status_of (move (updates job_id (Field.progress (some p) ∷ [])) o) ≡ status_of o
      same none = refl
      same (some job) = refl

      count :
          (o : Option Job)
          → retry_count_of (move (updates job_id (Field.progress (some p) ∷ [])) o)
            ≡ retry_count_of o
      count none = refl
      count (some job) = refl

  Tracks-report :
      (ps : List Progress) (w : World R) → Tracks (status_of (job_of w)) w (report R job_id ps w)
  unfolding report
  Tracks-report [] w = Tracks-refl w
  Tracks-report (p ∷ ps) w =
      let step = Tracks-progress p w in
      let rest = Tracks-report ps (update_progress R job_id p w) in
      record {
        status = rest.status ∙ step.status;
        retries = rest.retries ∙ step.retries;
        redis = rest.redis ∙ step.redis;
      }

  pub updates_allowed :
      (r : RunResult) (c : ReconstructionResult) → JobStore.any_refused (updates_of r c) ≡ false
  unfolding updates_of JobStore.any_refused
  updates_allowed r c = ground arith

  updates_status :
      (r : RunResult) (c : ReconstructionResult) (job : Job)
      → ((set_fields (updates_of r c) job).status ≡ completed)
        × ((set_fields (updates_of r c) job).retry_count ≡ job.retry_count)
  unfolding updates_of set_fields
  updates_status r c job = ground arith

  Tracks-finish :
      (r : RunResult) (c : ReconstructionResult) (e : Event) (w : World R)
      → Tracks
          (with_status completed (status_of (job_of w)))
          w
          (publish R job_id e (save R job_id (updates_of r c) w))
  unfolding publish save
  Tracks-finish r c e w = record {
    status = ap status_of (job_of-save (updates_of r c) w) ∙ finish (job_of w);
    retries = ap retry_count_of (job_of-save (updates_of r c) w) ∙ count (job_of w);
    redis = refl;
  }
    where
      finish :
          (o : Option Job)
          → status_of (move (updates job_id (updates_of r c)) o)
            ≡ with_status completed (status_of o)
      finish none = refl
      finish (some job) = rw (updates_allowed r c) (ap some (updates_status r c job).0)

      count :
          (o : Option Job)
          → retry_count_of (move (updates job_id (updates_of r c)) o) ≡ retry_count_of o
      count none = refl
      count (some job) =
          rw (updates_allowed r c)
            (retry_count_cong (set_fields (updates_of r c) job) job (updates_status r c job).1)

  -- The status in which the `try` block leaves the job.
  abbrev pub ended : Option Exception → Option JobStatus → Option JobStatus
  ended none s = with_status completed s
  ended (some e) s = s

  abbrev pub Ends : World R → Run R → Type 0
  Ends w run = Tracks (ended run.1 (status_of (job_of w))) w run.0

  Ends-before :
      (w w' : World R) (run : Run R) → Tracks (status_of (job_of w)) w w' → Ends w' run → Ends w run
  Ends-before w w' run p q = record {
    status = q.status ∙ ap (ended run.1) p.status;
    retries = q.retries ∙ p.retries;
    redis = q.redis ∙ p.redis;
  }

  after_reconstruct-Ends :
      (d : DownloadResult) (e : ExtractionResult) (w : World R) (o : Outcome ReconstructionResult)
      → Ends w (after_reconstruct R job_id d e w o)
  unfolding after_reconstruct
  after_reconstruct-Ends d e w (raised error) = Tracks-refl w
  after_reconstruct-Ends d e w (returned r) = Tracks-finish (result_of d e r) r _ w

  after_extract-Ends :
      (st : Stages) (d : DownloadResult) (w : World R) (o : Outcome ExtractionResult)
      → Ends w (after_extract R st job_id d w o)
  unfolding after_extract
  after_extract-Ends st d w (raised error) = Tracks-refl w
  after_extract-Ends st d w (returned e) =
      elim (Bool-cases (ltb (e.total_extracted - e.total_filtered) 2)) [
        | inl few ↦ rw few (Tracks-progress _ w)
        | inr enough ↦ rw enough (
            Ends-before w _ _ (Tracks-progress _ w) (
              Ends-before _ _ _ (Tracks-progress _ _) (
                Ends-before _ _ _ (Tracks-report st.callbacks _)
                  (after_reconstruct-Ends d e _ st.reconstruct))))
      ]

  after_download-Ends :
      (st : Stages) (w : World R) (o : Outcome DownloadResult)
      → Ends w (after_download R st job_id w o)
  unfolding after_download
  after_download-Ends st w (raised error) = Tracks-refl w
  after_download-Ends st w (returned d) =
      Ends-before w _ _ (Tracks-progress _ w)
        (Ends-before _ _ _ (Tracks-progress _ _) (after_extract-Ends st d _ st.extract_and_filter))

  pub run_stages-Ends : (st : Stages) (w : World R) → Ends w (run_stages R st job_id w)
  unfolding run_stages
  run_stages-Ends st w =
      Ends-before w _ _ (Tracks-progress _ w) (after_download-Ends st _ st.download_video)

-- ===== src/Jobs/Requests.antt =====
-- What each job endpoint of src/api/routers/jobs.py makes of the rows of the table.
use extube.Prelude.{
  ℕ, ◌≡◌, String, Bool, true, false, Option, none, some, List, [], ◌∷◌, ◌++◌, arith, refl, ap, ◌∙◌,
  sym, str_eq, eq_iff, if◌then◌else◌, any, keep, Bool-cases, inl, inr,
}
use extube.JobStore
use extube.JobStore.{
  JobStatus, pending, processing, failed, retrying, cancelled, Job, Table, Field, status_eq,
}
use extube.JobStore.Laws.{updates, move, get-perform, perform, any-first, any-none, first-append}
use extube.Redis.{Redis}
use extube.QueueManager.{JobMeta}
use extube.Downloader.{VideoMetadata}
use extube.Paths.{FilePath, validate_job_path}
use extube.Tasks.Ends.{saved-updated}
use extube.Jobs.{
  Settings, JobCreate, World, save, remove_dir, start_job, create_job, delete_job, retry_job,
  enqueue_job, cancel_job,
}

-- The requests that may change a table, with what they read besides it.
pub data Request : Type 0 where
  creating : String → JobCreate → Option VideoMetadata → ℕ → Request
  deleting : String → Request
  retry : String → ℕ → Request
  cancelling : String → Request

abbrev pub target : Request → String
target (creating k body meta now) = k
target (deleting k) = k
target (retry k now) = k
target (cancelling k) = k

module _ (R : Redis JobMeta) (s : Settings) (user_id : String) where
  unfoldable pub handle : Request → World R → World R
  handle (creating k body meta now) w = (create_job R s k user_id body meta now w).0
  handle (deleting k) w = (delete_job R s k user_id w).0
  handle (retry k now) w = (retry_job R k user_id now w).0
  handle (cancelling k) w = (cancel_job R s k user_id w).0

  -- What a request makes of the job `j`.
  abbrev Moved : String → String → (Option Job → Option Job) → World R → World R → Type 0
  Moved j k f w w' =
      JobStore.get j w'.table
      ≡ (if str_eq k j then f (JobStore.get j w.table) else JobStore.get j w.table)

  pub remove_dir-table : (k : String) (w : World R) → (remove_dir R s k w).table ≡ w.table
  unfolding remove_dir
  remove_dir-table k w = split (validate_job_path s.output_base_dir k)
    where
      split :
          (o : Option FilePath)
          → (elim o as (λ x. World R) [
            | none ↦ w
            | some dir ↦ record w {
              job_dirs = keep (λ d. if str_eq d k then false else true) w.job_dirs;
            }
          ]).table
            ≡ w.table
      split none = refl
      split (some dir) = refl

  pub save-Moved :
      (j k : String) (fields : List Field) (w : World R)
      → Moved j k (move (updates k fields)) w (save R k fields w)
  unfolding save perform
  save-Moved j k fields w =
      ap (JobStore.get j) (saved-updated (JobStore.update k fields w.table) w.table)
      ∙ get-perform j (updates k fields) w.table

  -- A row that `create_job` adds.
  abbrev pub started : String → JobCreate → Option Job → Option Job
  started k body none =
      move (updates k (Field.params (some body.params) ∷ []))
        (some (JobStore.new_job k pending body.url (some user_id)))
  started k body (some job) = some job

  held :
      (j k : String) (t : Table)
      → any (JobStore.has_id k) t ≡ true
      → (body : JobCreate)
      → JobStore.get j t
        ≡ (if str_eq k j then started k body (JobStore.get j t) else JobStore.get j t)
  unfolding JobStore.get
  held j k t found body = ground (arith, eq_iff k j, any-first k t, found)

  free : (k : String) (t : Table) → any (JobStore.has_id k) t ≡ false → JobStore.get k t ≡ none
  unfolding JobStore.get
  free k t absent = rw (any-none k t absent, JobStore.get) refl

  get-append :
      (j k : String) (t : Table) (body : JobCreate) (now : ℕ)
      → any (JobStore.has_id k) t ≡ false
      → JobStore.get j (
          t
          ++ record { job = JobStore.new_job k pending body.url (some user_id); created_at = now }
            ∷ [])
        ≡ (if str_eq k j
            then some (JobStore.new_job k pending body.url (some user_id))
            else JobStore.get j t)
  unfolding JobStore.get JobStore.has_id JobStore.new_job
  get-append j k t body now absent = ground (
    arith,
    eq_iff k j,
    any-first j t,
    any-none k t absent,
    first-append j t
        (record { job = JobStore.new_job k pending body.url (some user_id); created_at = now }),
  )

  save_started :
      (b : Bool) (k : String) (body : JobCreate) (o o' : Option Job)
      → o' ≡ (if b then some (JobStore.new_job k pending body.url (some user_id)) else o)
      → (b ≡ true → o ≡ none)
      → (if b then move (updates k (Field.params (some body.params) ∷ [])) o' else o')
        ≡ (if b then started k body o else o)
  save_started true k body o o' h absent = rw (absent refl) (ap (move (updates k _)) h)
  save_started false k body o o' h absent = h

  pub start_job-Moved :
      (j k : String) (body : JobCreate) (now : ℕ) (w : World R)
      → Moved j k (started k body) w (start_job R k user_id body now w).0
  unfolding start_job enqueue_job JobStore.create
  start_job-Moved j k body now w = elim (Bool-cases (any (JobStore.has_id k) w.table)) [
    | inl found ↦ rw (found, start_job) (held j k w.table found body)
    | inr absent ↦
        rw (absent, start_job)
          (save-Moved j k _ (record w {
            table =
                w.table
                ++ record {
                  job = JobStore.new_job k pending body.url (some user_id);
                  created_at = now;
                }
                  ∷ [];
          })
            ∙ save_started (str_eq k j) k body (JobStore.get j w.table) _
                (get-append j k w.table body now absent)
                (λ same.
                  ap (λ i. JobStore.get i w.table) (sym ((eq_iff k j).0 same))
                  ∙ free k w.table absent))
  ]

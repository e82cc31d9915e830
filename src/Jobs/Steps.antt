-- ===== src/Jobs/Steps.antt =====
-- The state machine of a job under the requests of one user (src/api/routers/jobs.py), and that
-- no request touches the job of another user.
use extube.Prelude.{
  ℕ, ◌≡◌, String, Bool, true, false, ◌||◌, Option, none, some, List, [], ◌∷◌, arith, refl, ap, ◌∙◌,
  sym, str_eq, eq_iff, if◌then◌else◌, Bool-cases, inl, inr, false≢true, leb,
}
use mathlib.Core.Path.{subst}
use extube.JobStore
use extube.JobStore.{
  JobStatus, pending, processing, failed, retrying, cancelled, Job, Table, Field, status_eq,
  set_fields,
}
use extube.JobStore.Laws.{updates, deletes, move, get-perform, perform}
use extube.Redis.{Redis}
use extube.QueueManager.{JobMeta, cancel}
use extube.Http.{Reply, ok, http, raise_if, or_raise, ◌>>=◌, ◌>>◌}
use extube.Jobs.{
  Settings, JobCreate, World, save, get_user_job, is_foreign, delete_found, delete_job, retry_found,
  retry_job, enqueue_job, cancel_found, cancel_job, is_valid_body, params_of, cancel_message,
  create_job, create_limited, create_unless, create_checked, start_job, check_video, active_count,
}
use extube.Jobs.Requests.{
  Request, creating, deleting, retry, cancelling, handle, started, start_job-Moved, save-Moved,
  remove_dir-table,
}

abbrev is_busy : JobStatus → Bool
is_busy s = status_eq s processing || status_eq s retrying

abbrev is_cancellable : JobStatus → Bool
is_cancellable s = status_eq s pending || status_eq s processing || status_eq s retrying

-- What a request of `user_id` may do to a job.
pub data Step (user_id : String) : Option Job → Option Job → Type 0 where
  stays : {o : Option Job} → Step user_id o o
  starts :
      {job : Job} → job.status ≡ pending → job.user_id ≡ some user_id → Step user_id none (some job)
  removes :
      {job : Job}
      → is_foreign user_id job ≡ false
      → is_busy job.status ≡ false
      → Step user_id (some job) none
  cancels :
      {job job' : Job}
      → is_foreign user_id job ≡ false
      → is_cancellable job.status ≡ true
      → job'.status ≡ cancelled
      → job'.user_id ≡ job.user_id
      → Step user_id (some job) (some job')
  retries :
      {job job' : Job}
      → is_foreign user_id job ≡ false
      → status_eq job.status failed ≡ true
      → job'.status ≡ pending
      → job'.retry_count ≡ some 0
      → job'.user_id ≡ job.user_id
      → Step user_id (some job) (some job')

module _ (user_id : String) where
  -- A change of the job `k` alone, seen at `j`.
  Step-Moved :
      (b : Bool) (f : Option Job → Option Job) (o o' : Option Job)
      → o' ≡ (if b then f o else o)
      → (b ≡ true → Step user_id o (f o))
      → Step user_id o o'
  Step-Moved true f o o' h step = subst (Step user_id o) (sym h) (step refl)
  Step-Moved false f o o' h step = subst (Step user_id o) (sym h) stays

  pub Step-foreign :
      (job : Job) (o : Option Job)
      → is_foreign user_id job ≡ true
      → Step user_id (some job) o
      → o ≡ some job
  Step-foreign job o foreign stays = refl
  Step-foreign job o foreign (removes mine idle) = absurd (false≢true (sym mine ∙ foreign))
  Step-foreign job o foreign (cancels mine busy a b) = absurd (false≢true (sym mine ∙ foreign))
  Step-foreign job o foreign (retries mine was a b c) = absurd (false≢true (sym mine ∙ foreign))

  found_job :
      (o : Option Job) (job : Job)
      → (or_raise o 404 >>= λ j. raise_if (is_foreign user_id j) 403 >> ok j) ≡ ok job
      → (o ≡ some job) × (is_foreign user_id job ≡ false)
  found_job none job h = ground arith
  found_job (some j) job h = ground arith

  pub owned_job :
      (k : String) (t : Table) (job : Job)
      → get_user_job k user_id t ≡ ok job
      → (JobStore.get k t ≡ some job) × (is_foreign user_id job ≡ false)
  unfolding get_user_job
  owned_job k t job h = found_job (JobStore.get k t) job h

  there :
      (j k : String) (t : Table) (o : Option Job)
      → JobStore.get k t ≡ o
      → str_eq k j ≡ true
      → JobStore.get j t ≡ o
  there j k t o h same = ap (λ i. JobStore.get i t) (sym ((eq_iff k j).0 same)) ∙ h

  -- A step of the job `k` that the request has found, seen at `j`.
  Step-found :
      (j k : String) (t t' : Table) (f : Option Job → Option Job) (job : Job)
      → JobStore.get k t ≡ some job
      → JobStore.get j t' ≡ (if str_eq k j then f (JobStore.get j t) else JobStore.get j t)
      → Step user_id (some job) (f (some job))
      → Step user_id (JobStore.get j t) (JobStore.get j t')
  Step-found j k t t' f job found h step =
      Step-Moved (str_eq k j) f (JobStore.get j t) (JobStore.get j t') h
        (λ same. subst (λ o. Step user_id o (f o)) (sym (there j k t (some job) found same)) step)

  module _ (R : Redis JobMeta) (s : Settings) where
    -- From `w` to `w'` each job takes a step.
    abbrev pub Steps : World R → World R → Type 0
    Steps w w' = (j : String) → Step user_id (JobStore.get j w.table) (JobStore.get j w'.table)

    delete-Steps :
        (k : String) (w : World R) (r : Reply Job)
        → get_user_job k user_id w.table ≡ r
        → Steps w (delete_found R s k w r).0
    unfolding delete_found perform
    delete-Steps k w (http code) h j = stays
    delete-Steps k w (ok job) h j = elim (Bool-cases (is_busy job.status)) [
      | inl busy ↦ rw busy stays
      | inr idle ↦ rw idle (
          Step-found j k w.table _ (λ o. none) job (owned_job k w.table job h).0
            (ap (λ t. JobStore.get j (perform (deletes k) t)) (remove_dir-table R s user_id k w)
              ∙ get-perform j (deletes k) w.table)
            (removes (owned_job k w.table job h).1 idle))
    ]

    abbrev reset : List Field
    reset = Field.status pending ∷ Field.error none ∷ Field.retry_count 0 ∷ []

    saved-Step :
        (j k : String) (w : World R) (job : Job)
        → get_user_job k user_id w.table ≡ ok job
        → status_eq job.status failed ≡ true
        → Step user_id (JobStore.get j w.table) (JobStore.get j (save R k reset w).table)
    unfolding JobStore.any_refused set_fields
    saved-Step j k w job h was =
        Step-found j k w.table _ (move (updates k reset)) job (owned_job k w.table job h).0
          (save-Moved R s user_id j k reset w)
          (retries (owned_job k w.table job h).1 was refl refl refl)

    retry-Steps :
        (k : String) (now : ℕ) (w : World R) (r : Reply Job)
        → get_user_job k user_id w.table ≡ r
        → Steps w (retry_found R k now w r).0
    unfolding retry_found enqueue_job
    retry-Steps k now w (http code) h j = stays
    retry-Steps k now w (ok job) h j = elim (Bool-cases (status_eq job.status failed)) [
      | inr other ↦ rw other stays
      | inl was ↦
          rw was
            (elim (Bool-cases (
              is_valid_body (record {
                url = job.url;
                params = params_of job.params;
                force_reprocess = false;
              }))) [
                | inl valid ↦ rw valid (saved-Step j k w job h was)
                | inr invalid ↦ rw invalid (saved-Step j k w job h was)
              ])
    ]

    abbrev stopped : List Field
    stopped = Field.status cancelled ∷ Field.error (some (cancel_message R)) ∷ []

    cancelled-Step :
        (j k : String) (w w' : World R) (job : Job)
        → get_user_job k user_id w.table ≡ ok job
        → is_cancellable job.status ≡ true
        → w'.table ≡ w.table
        → Step user_id (JobStore.get j w.table) (JobStore.get j (save R k stopped w').table)
    unfolding JobStore.any_refused set_fields
    cancelled-Step j k w w' job h busy same =
        Step-found j k w.table _ (move (updates k stopped)) job (owned_job k w.table job h).0
          (save-Moved R s user_id j k stopped w'
            ∙ ap
                (λ t.
                  if str_eq k j
                  then move (updates k stopped) (JobStore.get j t)
                  else JobStore.get j t)
                same)
          (cancels (owned_job k w.table job h).1 busy refl refl)

    cancel-Steps :
        (k : String) (w : World R) (r : Reply Job)
        → get_user_job k user_id w.table ≡ r
        → Steps w (cancel_found R s k w r).0
    unfolding cancel_found
    cancel-Steps k w (http code) h j = stays
    cancel-Steps k w (ok job) h j = elim (Bool-cases (is_cancellable job.status)) [
      | inr other ↦ rw other stays
      | inl busy ↦ rw busy (
          subst (λ t. Step user_id (JobStore.get j w.table) (JobStore.get j t))
            (sym (remove_dir-table R s user_id k _))
            (cancelled-Step j k w (record w { redis = (cancel R k w.redis).0 }) job h busy refl))
    ]

    start-Steps :
        (k : String) (body : JobCreate) (now : ℕ) (w : World R)
        → Steps w (start_job R k user_id body now w).0
    unfolding JobStore.any_refused set_fields JobStore.new_job
    start-Steps k body now w j =
        Step-Moved (str_eq k j) (started R s user_id k body) _ _
          (start_job-Moved R s user_id j k body now w) (λ same. fresh (JobStore.get j w.table))
      where
        fresh : (o : Option Job) → Step user_id o (started R s user_id k body o)
        fresh none = starts refl refl
        fresh (some job) = stays

    limited-Steps :
        (k : String) (body : JobCreate) (now : ℕ) (w : World R)
        → Steps w (create_limited R s k user_id body now w).0
    unfolding create_limited
    limited-Steps k body now w j =
        elim (Bool-cases (leb s.max_jobs_per_user (active_count user_id w.table))) [
          | inl full ↦ rw full stays
          | inr room ↦ rw room (start-Steps k body now w j)
        ]

    unless-Steps :
        (k : String) (body : JobCreate) (now : ℕ) (w : World R) (o : Option Job)
        → Steps w (create_unless R s k user_id body now w o).0
    unfolding create_unless
    unless-Steps k body now w none j = limited-Steps k body now w j
    unless-Steps k body now w (some existing) j = stays

    checked-Steps :
        (k : String) (body : JobCreate) (now : ℕ) (w : World R) (r : Reply (Unit {0}))
        → Steps w (create_checked R s k user_id body now w r).0
    unfolding create_checked
    checked-Steps k body now w (http code) j = stays
    checked-Steps k body now w (ok _) j = unless-Steps k body now w _ j

    -- Whatever one user asks for, each job of the table takes a step of the state machine of `Step`.
    pub handle-Step :
        (r : Request) (w : World R) (j : String)
        → Step user_id (JobStore.get j w.table) (JobStore.get j (handle R s user_id r w).table)
    unfolding handle create_job delete_job retry_job cancel_job
    handle-Step (creating k body meta now) w j =
        checked-Steps k body now w (check_video s body.url meta) j
    handle-Step (deleting k) w j = delete-Steps k w (get_user_job k user_id w.table) refl j
    handle-Step (retry k now) w j = retry-Steps k now w (get_user_job k user_id w.table) refl j
    handle-Step (cancelling k) w j = cancel-Steps k w (get_user_job k user_id w.table) refl j

    unfoldable pub handle_all : List Request → World R → World R
    handle_all [] w = w
    handle_all (r ∷ rs) w = handle_all rs (handle R s user_id r w)

    -- Whatever a user asks for, in any number of requests, the job of another user stays in the
    -- table as it is.
    pub handle_all-is_foreign :
        (rs : List Request) (w : World R) (j : String) (job : Job)
        → JobStore.get j w.table ≡ some job
        → is_foreign user_id job ≡ true
        → JobStore.get j (handle_all rs w).table ≡ some job
    unfolding handle_all
    handle_all-is_foreign [] w j job found foreign = found
    handle_all-is_foreign (r ∷ rs) w j job found foreign =
        handle_all-is_foreign rs (handle R s user_id r w) j job
          (Step-foreign job _ foreign (
            subst (λ o. Step user_id o (JobStore.get j (handle R s user_id r w).table)) found
              (handle-Step r w j)))
          foreign

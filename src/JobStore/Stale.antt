-- ===== src/JobStore/Stale.antt =====
-- `fail_stale_jobs` of src/api/db.py.
use extube.Prelude.{
  ◌≡◌, String, false, Option, none, some, List, [], ◌∷◌, arith, refl, any, count, if◌then◌else◌,
}
use extube.JobStore.{
  JobStatus, failed, Job, Table, status_eq, has_id, get, is_stale, fail_stale_jobs,
}

-- What becomes of a job.
abbrev pub after_failing : List JobStatus → String → Option Job → Option Job
after_failing statuses error none = none
after_failing statuses error (some job) =
    if is_stale statuses job
    then some (record job { status = failed; error = some error })
    else some job

module _ (statuses : List JobStatus) (error : String) where
  get-fail_stale_jobs :
      (job_id : String) (t : Table)
      → get job_id (fail_stale_jobs statuses error t).0
        ≡ after_failing statuses error (get job_id t)
  unfolding get fail_stale_jobs has_id
  get-fail_stale_jobs job_id [] = refl
  get-fail_stale_jobs job_id (r ∷ t) = ground (arith, get-fail_stale_jobs job_id t)

  none_stale :
      (t : Table)
      → any (status_eq failed) statuses ≡ false
      → count (λ r. is_stale statuses r.job) (fail_stale_jobs statuses error t).0 ≡ 0
  unfolding fail_stale_jobs
  none_stale [] h = refl
  none_stale (r ∷ t) h = ground (arith, none_stale t h)

  -- Every job in one of the statuses fails with the error, all other jobs stay as they are, the
  -- answer is the number of rows that were in one of the statuses, and no row is left in one,
  -- provided that `failed` is not among them.
  pub fail_stale_jobs-is_stale :
      (t : Table)
      → any (status_eq failed) statuses ≡ false
      → ((job_id : String)
          → get job_id (fail_stale_jobs statuses error t).0
            ≡ after_failing statuses error (get job_id t))
        × ((fail_stale_jobs statuses error t).1 ≡ count (λ r. is_stale statuses r.job) t)
        × (count (λ r. is_stale statuses r.job) (fail_stale_jobs statuses error t).0 ≡ 0)
  unfolding fail_stale_jobs
  fail_stale_jobs-is_stale t h = (λ job_id. get-fail_stale_jobs job_id t, refl, none_stale t h)

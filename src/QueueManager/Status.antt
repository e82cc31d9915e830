-- ===== src/QueueManager/Status.antt =====
-- The queue status and the position of a job of src/api/queue_manager.py agree.
use extube.Prelude.{
  ℕ, suc, ◌+◌, ◌≡◌, String, Option, none, some, List, [], ◌∷◌, arith, refl, ap, ◌∙◌, sym, str_eq,
  length, if◌then◌else◌,
}
use extube.Redis.{Redis, ZSet, index}
use extube.QueueManager.{JobMeta, WaitingJob, queue_key, number_jobs, get_position, get_status}

-- The position under which a list of waiting jobs shows a job.
abbrev pub shown : String → List WaitingJob → Option ℕ
shown job_id [] = none
shown job_id (w ∷ ws) =
    let rest = shown job_id ws in if str_eq w.job_id job_id then some w.position else rest

abbrev after : ℕ → Option ℕ → Option ℕ
after n none = none
after n (some i) = some (n + i + 1)

shown-number_jobs :
    (job_id : String) (n : ℕ) (z : ZSet) → shown job_id (number_jobs n z) ≡ after n (index job_id z)
unfolding number_jobs index
shown-number_jobs job_id n [] = refl
shown-number_jobs job_id n ((m, s) ∷ z) = ground (arith, shown-number_jobs job_id (n + 1) z)

length-number_jobs : (n : ℕ) (z : ZSet) → length (number_jobs n z) ≡ length z
unfolding number_jobs
length-number_jobs n [] = refl
length-number_jobs n ((m, s) ∷ z) = ap suc (length-number_jobs (n + 1) z)

module _ (R : Redis JobMeta) where
  -- The status lists a job exactly if `get_position` finds it, at the same position, and its
  -- `pending_count` is the number of jobs that it lists.
  pub get_status-get_position :
      (max_concurrent : ℕ) (db : R.Db)
      → ((job_id : String)
          → get_position R job_id db ≡ shown job_id (get_status R max_concurrent db).waiting_jobs)
        × ((get_status R max_concurrent db).pending_count
            ≡ length (get_status R max_concurrent db).waiting_jobs)
  unfolding get_position get_status
  get_status-get_position max_concurrent db = (
    λ job_id. ground (
      arith,
      R.zrank_lem queue_key job_id db,
      shown-number_jobs job_id 0 (R.zrange queue_key db),
    ),
    R.zcard_lem queue_key db ∙ sym (length-number_jobs 0 (R.zrange queue_key db)),
  )

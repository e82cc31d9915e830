-- ===== src/Startup/Recovery.antt =====
-- What becomes of the jobs when the server of src/api/main.py starts.
use extube.Prelude.{
  ℕ, ◌+◌, ◌*◌, ◌≡◌, String, Bool, true, false, ◌&&◌, ◌||◌, Option, none, List, [], ◌∷◌, any, keep,
  count, length, length-keep, Bool-cases, inl, inr, arith, eq_iff, refl, sym, ap, ◌∙◌,
  if◌then◌else◌,
}
use extube.RateLimit.{second}
use extube.JobStore.{
  JobStatus, pending, processing, completed, failed, retrying, cancelled, Job, Row, Table,
  status_eq, matches, has_id, get, is_older, is_stale, fail_stale_jobs, list_jobs,
}
use extube.JobStore.Keys.{IsKeyed}
use extube.JobStore.Stale.{after_failing, fail_stale_jobs-is_stale}
use extube.Cleanup.{Disk, Rmtree, cleanup_expired, remove_dir, remove_dirs}
use extube.Cleanup.Expiry.{has_dir, after_rmtree, any-keep, has_dir-remove_dir}
use extube.Config.{Settings}
use extube.Health.{update_job_gauges, total_in}
use extube.Startup.{Server, stale_statuses, restart_error, start_up}

-- The rows that do not pass, as `DELETE` leaves them.
abbrev without : (Row → Bool) → Table → Table
without p t = keep (λ r. if p r then false else true) t

get-absent :
    (p : Row → Bool) (j : String) (t : Table)
    → any (has_id j) t ≡ false
    → get j (without p t) ≡ none
unfolding get
get-absent p j [] h = refl
get-absent p j (r ∷ t) h = ground (arith, h, get-absent p j t)

any-and :
    (p : Row → Bool) (j : String) (t : Table)
    → any (has_id j) t ≡ false
    → any (λ r. p r && has_id j r) t ≡ false
any-and p j [] h = refl
any-and p j (r ∷ t) h = ground (arith, h, any-and p j t)

no_other :
    (j : String) (r : Row) (t : Table)
    → IsKeyed (r ∷ t)
    → has_id j r ≡ true
    → any (has_id j) t ≡ false
unfolding has_id
no_other j r t u same =
    let e : r.id ≡ j = (eq_iff r.id j).0 same in ap (λ i. any (has_id i) t) (sym e) ∙ u.0

get-without :
    (p : Row → Bool) (j : String) (t : Table)
    → IsKeyed t
    → get j (without p t) ≡ (if any (λ r. p r && has_id j r) t then none else get j t)
unfolding get
get-without p j [] u = refl
get-without p j (r ∷ t) u = elim (Bool-cases (has_id j r)) [
  | inl same ↦
      let absent = no_other j r t u same in
      elim (Bool-cases (p r)) [
        | inl old ↦ rw (old, same) (get-absent p j t absent)
        | inr kept ↦ rw (kept, get, same, any-and p j t absent) refl
      ]
  | inr other ↦ elim (Bool-cases (p r)) [
    | inl old ↦ rw (old, get, other) (get-without p j t u.1)
    | inr kept ↦ rw (kept, get, other) (get-without p j t u.1)
  ]
]

has_dir-remove_dirs :
    (rmtree : Rmtree) (j : String) (rows : List Row) (disk : Disk)
    → has_dir j (remove_dirs rmtree rows disk) ≡ after_rmtree rmtree j disk (any (has_id j) rows)
unfolding remove_dirs has_id
has_dir-remove_dirs rmtree j [] disk = refl
has_dir-remove_dirs rmtree j (r ∷ rows) disk = ground (
  arith,
  has_dir-remove_dir rmtree j r.id disk,
  has_dir-remove_dirs rmtree j rows (remove_dir rmtree r.id disk),
)

three :
    (s : JobStatus)
    → 0
        + (if status_eq s pending && true then 1 else 0)
        + (if status_eq s processing && true then 1 else 0)
        + (if status_eq s retrying && true then 1 else 0)
      ≡ (if any (status_eq s) stale_statuses then 1 else 0)
unfolding status_eq
three pending = refl
three processing = refl
three completed = refl
three failed = refl
three retrying = refl
three cancelled = refl

-- The gauge counts the rows in one of the three statuses.
active_jobs-is_stale :
    (t : Table) (n : Option ℕ)
    → (update_job_gauges t n).active_jobs ≡ count (λ r. is_stale stale_statuses r.job) t
unfolding update_job_gauges total_in list_jobs matches is_stale
active_jobs-is_stale [] n = omega arith
active_jobs-is_stale (r ∷ t) n = ground (arith, three r.status, active_jobs-is_stale t n)

-- What becomes of a job, where `old` says whether it is past its time to live.
abbrev pub after_start : Bool → Option Job → Option Job
after_start old job = if old then none else after_failing stale_statuses restart_error job

after_start_lem :
    (old : Bool) (job : Option Job)
    → after_failing stale_statuses restart_error (if old then none else job) ≡ after_start old job
after_start_lem true job = refl
after_start_lem false job = refl

count_split :
    (p q : Row → Bool) (t : Table)
    → length (keep p t) + count q (without p t) ≡ count (λ r. p r || q r) t
count_split p q [] = omega arith
count_split p q (r ∷ t) = ground (arith, count_split p q t)

module _ (rmtree : Rmtree) (settings : Settings) (now : ℕ) where
  abbrev pub is_past : Row → Bool
  is_past r = is_older now (settings.job_ttl_seconds * second) r

  abbrev pub has_past : String → Table → Bool
  has_past j t = any (λ r. is_past r && has_id j r) t

  -- After the start: each job past its time to live, of whatever status, is gone, and its directory
  -- too unless `rmtree` fails on it; the others that were pending, processing or retrying have
  -- failed, and the rest is as it was.
  pub record Recovers (before : Server) (after : Server × (ℕ × ℕ)) : Type 0 where
    pub jobs :
        (j : String)
        → get j after.0.table ≡ after_start (has_past j before.table) (get j before.table)
    pub directories :
        (j : String)
        → has_dir j after.0.disk ≡ after_rmtree rmtree j before.disk (has_past j before.table)
    pub deleted : after.1.0 ≡ count is_past before.table
    pub recovered :
        after.1.0 + after.1.1 ≡ count (λ r. is_past r || is_stale stale_statuses r.job) before.table
    pub none_active : (n : Option ℕ) → (update_job_gauges after.0.table n).active_jobs ≡ 0

  -- On a table in which no two rows have one id, start-up deletes each job past its time to live,
  -- whatever its status, and its directory unless `rmtree` fails on it, in which case the directory
  -- stays without its job; of the other jobs, those that were pending, processing or retrying have
  -- failed with the error of a restart and the rest is as it was; the two numbers that it logs count
  -- the former, and both together the jobs that changed; the gauge of active jobs then stands at
  -- zero.
  pub start_up-Recovers :
      (server : Server)
      → IsKeyed server.table
      → Recovers server (start_up rmtree settings now server)
  unfolding start_up cleanup_expired
  start_up-Recovers server u =
      let kept = without is_past server.table in
      let failing = fail_stale_jobs-is_stale stale_statuses restart_error kept refl in
      record {
        jobs = λ j.
            failing.0 j
            ∙ ap (after_failing stale_statuses restart_error) (get-without is_past j server.table u)
            ∙ after_start_lem (has_past j server.table) (get j server.table);
        directories = λ j.
            has_dir-remove_dirs rmtree j (keep is_past server.table) server.disk
            ∙ ap (after_rmtree rmtree j server.disk) (any-keep is_past (has_id j) server.table);
        deleted = length-keep is_past server.table;
        recovered = count_split is_past (λ r. is_stale stale_statuses r.job) server.table;
        none_active = λ n.
            active_jobs-is_stale (fail_stale_jobs stale_statuses restart_error kept).0 n
            ∙ failing.2;
      }

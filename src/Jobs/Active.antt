-- ===== src/Jobs/Active.antt =====
-- How many jobs of a user `create_job` of src/api/routers/jobs.py counts, and how changes of the
-- table change that.
use extube.Prelude.{
  ◌+◌, ◌≤◌, ◌≡◌, String, Bool, true, false, ◌&&◌, List, [], ◌∷◌, arith, refl, any, keep, count,
  Bool-cases, inl, inr, if◌then◌else◌,
}
use extube.JobStore.{
  JobStatus, pending, processing, completed, failed, retrying, cancelled, Job, Row, Table,
  status_eq, matches, owned_by, is_stale, update_rows, list_jobs,
}
use extube.Jobs.{active_count}
use extube.Jobs.Checks.{total_of}

abbrev active : List JobStatus
active = pending ∷ processing ∷ retrying ∷ []

-- A row that the limit counts.
abbrev pub is_counted : String → Row → Bool
is_counted u r = is_stale active r.job && owned_by u r

counted_once :
    (s : JobStatus) (owned : Bool)
    → (if status_eq s pending && owned then 1 else 0)
        + (if status_eq s processing && owned then 1 else 0)
        + (if status_eq s retrying && owned then 1 else 0)
      ≡ (if any (status_eq s) active && owned then 1 else 0)
unfolding status_eq
counted_once pending true = refl
counted_once pending false = refl
counted_once processing true = refl
counted_once processing false = refl
counted_once completed true = refl
counted_once completed false = refl
counted_once failed true = refl
counted_once failed false = refl
counted_once retrying true = refl
counted_once retrying false = refl
counted_once cancelled true = refl
counted_once cancelled false = refl

pub active_count-count : (u : String) (t : Table) → active_count u t ≡ count (is_counted u) t
unfolding active_count total_of list_jobs matches is_stale
active_count-count u [] = omega arith
active_count-count u (r ∷ t) =
    ground (arith, counted_once r.status (owned_by u r), active_count-count u t)

pub count-keep-le : (p q : Row → Bool) (t : Table) → count p (keep q t) ≤ count p t
count-keep-le p q [] = omega arith
count-keep-le p q (r ∷ t) = ground (arith, count-keep-le p q t)

-- An update after which no row counts that did not count before.
pub count-update_rows-le :
    (p q : Row → Bool) (f : Job → Job) (t : Table)
    → ((r : Row) → p (record r { job = f r.job }) ≡ true → p r ≡ true)
    → count p (update_rows q f t) ≤ count p t
unfolding update_rows
count-update_rows-le p q f [] h = omega arith
count-update_rows-le p q f (r ∷ t) h = elim (Bool-cases (q r)) [
  | inl hit ↦ rw hit (ground (arith, h r, count-update_rows-le p q f t h))
  | inr miss ↦ rw miss (ground (arith, count-update_rows-le p q f t h))
]

-- ===== src/JobStore.antt =====
-- src/api/db.py, `JobStore`: the table of jobs, as the list of its rows in the order of insertion.
-- Each method is its SQL statements, one after another under `_lock`. JSON columns stand as what
-- their text encodes, and times are whole ticks.
mod Rows
mod Query
pub use Rows.{
  JobStatus, pending, processing, completed, failed, retrying, cancelled, Progress, RunResult,
}
pub use Rows.{Params, Job, Row, Table, Field, StoreError, value_error, integrity_error}
pub use Rows.{operational_error, Result, ok, err}
unfoldable pub use Rows.{status_eq, status_text, set_field, set_fields}
unfoldable pub use Query.{matches, owned_by, insert_row, order_rows, is_sort_column, before_by}
pub mod Laws
pub mod Keys
pub mod Sorting
pub mod Latest
pub mod Stale
pub mod Migration
mod Tests
use extube.Prelude.{
  ℕ, ◌+◌, ◌≤◌, String, Bool, true, false, ◌&&◌, Option, none, some, List, [], ◌∷◌, ◌++◌, map, ltb,
  keep, count, first, any, take, drop, length, str_eq, if◌then◌else◌,
}

-- `_ALLOWED_UPDATE_FIELDS`
unfoldable pub is_allowed : Field → Bool
is_allowed (Field.other column) = false
is_allowed _ = true

unfoldable pub has_id : String → Row → Bool
has_id job_id r = str_eq r.id job_id

unfoldable pub new_job : String → JobStatus → String → Option String → Job
new_job job_id status url user_id = record {
  id = job_id;
  status = status;
  url = url;
  error = none;
  result = none;
  ply_path = none;
  dense_ply_path = none;
  gs_splat_path = none;
  potree_dir = none;
  progress = none;
  user_id = user_id;
  retry_count = none;
  params = none;
}

unfoldable pub create :
    String → JobStatus → String → Option String → ℕ → Table → Result (Table × Job)
unfolding new_job has_id
create job_id status url user_id now t =
    let job = new_job job_id status url user_id in
    if any (has_id job_id) t
    then err integrity_error
    else ok (t ++ record { job = job; created_at = now } ∷ [], job)

-- `_row_to_dict` drops `created_at`.
unfoldable pub row_to_dict : Row → Job
row_to_dict r = r.job

unfoldable pub get : String → Table → Option Job
unfolding has_id row_to_dict
get job_id t = elim (first (has_id job_id) t) [ none ↦ none | some r ↦ some (row_to_dict r) ]

unfoldable pub update_rows : (Row → Bool) → (Job → Job) → Table → Table
update_rows p f [] = []
update_rows p f (r ∷ t) =
    let rest = update_rows p f t in (if p r then record r { job = f r.job } else r) ∷ rest

-- `set(fields) - _ALLOWED_UPDATE_FIELDS`; with no field the statement is `SET WHERE`, which SQLite
-- refuses.
unfoldable pub any_refused : List Field → Bool
unfolding is_allowed
any_refused [] = false
any_refused (f ∷ fs) = let rest = any_refused fs in if is_allowed f then rest else true

unfoldable pub update : String → List Field → Table → Result Table
unfolding any_refused update_rows set_fields has_id
update job_id [] t = err operational_error
update job_id (f ∷ fs) t =
    if any_refused (f ∷ fs)
    then err value_error
    else ok (update_rows (has_id job_id) (set_fields (f ∷ fs)) t)

unfoldable pub delete : String → Table → Table × Bool
unfolding has_id
delete job_id t = (keep (λ r. if has_id job_id r then false else true) t, any (has_id job_id) t)

pub record Page : Type 0 where
  pub items : List Job
  pub total : ℕ

-- The rows that a listing shows, all pages together.
unfoldable pub select : Option JobStatus → Option String → String → String → Table → Table
unfolding matches order_rows is_sort_column before_by
select status user_id sort_by order t =
    let column = if is_sort_column sort_by then sort_by else "created_at" in
    let before = before_by column in
    let found = keep (matches status user_id) t in
    if str_eq order "asc" then order_rows before found else order_rows (λ a b. before b a) found

-- `list`; the count is of the same rows, whatever the limit.
unfoldable pub list_jobs : Option JobStatus → ℕ → ℕ → Option String → String → String → Table → Page
unfolding select row_to_dict
list_jobs status limit offset user_id sort_by order t = record {
  items = map row_to_dict (take limit (drop offset (select status user_id sort_by order t)));
  total = count (matches status user_id) t;
}

-- `created_at < cutoff`, where `cutoff` is `time.time() - ttl`.
unfoldable pub is_older : ℕ → ℕ → Row → Bool
is_older now ttl r = ltb (r.created_at + ttl) now

unfoldable pub get_completed_jobs_older_than : ℕ → ℕ → Table → List Row
unfolding status_eq is_older
get_completed_jobs_older_than now ttl t =
    keep (λ r. status_eq r.status completed && is_older now ttl r) t

unfoldable pub is_completed_for : String → String → Row → Bool
unfolding owned_by status_eq
is_completed_for url user_id r =
    str_eq r.url url && (owned_by user_id r && status_eq r.status completed)

unfoldable pub newer : Row → Row → Bool
newer a b = ltb b.created_at a.created_at

-- `ORDER BY created_at DESC LIMIT 1`
unfoldable pub find_completed_by_url : String → String → Table → Option Job
unfolding is_completed_for newer order_rows row_to_dict
find_completed_by_url url user_id t =
    elim (order_rows newer (keep (is_completed_for url user_id) t)) [
      | [] ↦ none
      | r ∷ rest ↦ some (row_to_dict r)
    ]

unfoldable pub is_stale : List JobStatus → Job → Bool
unfolding status_eq
is_stale statuses j = any (status_eq j.status) statuses

unfoldable pub fail_stale_jobs : List JobStatus → String → Table → Table × ℕ
unfolding update_rows is_stale
fail_stale_jobs statuses error t = (
  update_rows (λ r. is_stale statuses r.job) (λ j. record j { status = failed; error = some error })
      t,
  count (λ r. is_stale statuses r.job) t,
)

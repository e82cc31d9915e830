-- ===== src/Cleanup.antt =====
-- src/api/cleanup.py, and `cleanup_expired` of src/api/db.py. The disk lists the directory of each
-- job that has one, with the paths in it that `INTERMEDIATE_DIRS` may name; times are whole ticks.
pub mod Expiry
mod Tests
use extube.Prelude.{
  ℕ, ◌+◌, String, Bool, true, false, Option, none, some, List, [], ◌∷◌, any, keep, count, length,
  str_eq, if◌then◌else◌,
}
use extube.JobStore
use extube.JobStore.{Row, Table, get_completed_jobs_older_than, delete, is_older}

abbrev pub Disk : Type 0
Disk = List (String × List String)

abbrev pub intermediate_dirs : List String
intermediate_dirs =
    "reconstruction/dense" ∷ "reconstruction/sparse" ∷ "reconstruction/database.db" ∷ "extraction"
    ∷ "download" ∷ []

unfoldable is_intermediate : String → Bool
is_intermediate path = any (str_eq path) intermediate_dirs

-- The loop over the patterns in the directory of one job, where it exists, and `removed_any`;
-- `stuck` says which paths of a job `rmtree` with `ignore_errors` does not remove.
unfoldable clean_dir : (String → String → Bool) → String → Disk → Disk × Bool
unfolding is_intermediate
clean_dir stuck job_id [] = ([], false)
clean_dir stuck job_id ((id, paths) ∷ disk) =
    let rest = clean_dir stuck job_id disk in
    if str_eq id job_id
    then (
      (id, keep (λ p. if is_intermediate p then stuck id p else true) paths) ∷ rest.0,
      any is_intermediate paths,
    )
    else ((id, paths) ∷ rest.0, rest.1)

unfoldable clean_rows : (String → String → Bool) → List Row → Disk → Disk × ℕ
unfolding clean_dir
clean_rows stuck [] disk = (disk, 0)
clean_rows stuck (r ∷ rows) disk =
    let step = clean_dir stuck r.id disk in
    let rest = clean_rows stuck rows step.0 in (rest.0, if step.1 then rest.1 + 1 else rest.1)

unfoldable pub cleanup_intermediate_files :
    (String → String → Bool) → ℕ → ℕ → Table → Disk → Disk × ℕ
unfolding clean_rows
cleanup_intermediate_files stuck now ttl t disk =
    clean_rows stuck (get_completed_jobs_older_than now ttl t) disk

-- What `rmtree` with `ignore_errors` leaves of the directory of a job: nothing, or the directory with
-- those of the paths that could not be removed.
abbrev pub Rmtree : Type 0
Rmtree = String → Option (List String)

unfoldable pub remove_dir : Rmtree → String → Disk → Disk
remove_dir rmtree job_id [] = []
remove_dir rmtree job_id ((id, paths) ∷ disk) =
    let rest = remove_dir rmtree job_id disk in
    if str_eq id job_id
    then elim (rmtree id) [ none ↦ rest | some left ↦ (id, left) ∷ rest ]
    else (id, paths) ∷ rest

-- The loop of `cleanup_expired_results`: each directory and each row by its id.
unfoldable pub expire_rows : Rmtree → List Row → Table → Disk → (Table × Disk) × ℕ
unfolding remove_dir
expire_rows rmtree [] t disk = ((t, disk), 0)
expire_rows rmtree (r ∷ rows) t disk =
    let rest = expire_rows rmtree rows (delete r.id t).0 (remove_dir rmtree r.id disk) in
    (rest.0, rest.1 + 1)

unfoldable pub cleanup_expired_results : Rmtree → ℕ → ℕ → Table → Disk → (Table × Disk) × ℕ
unfolding expire_rows
cleanup_expired_results rmtree now ttl t disk =
    expire_rows rmtree (get_completed_jobs_older_than now ttl t) t disk

-- Both stages with the same clock.
unfoldable pub run_storage_cleanup :
    (String → String → Bool) → Rmtree → ℕ → ℕ → ℕ → Table → Disk → (Table × Disk) × (ℕ × ℕ)
unfolding cleanup_intermediate_files cleanup_expired_results
run_storage_cleanup stuck rmtree now intermediate_ttl result_ttl t disk =
    let cleaned = cleanup_intermediate_files stuck now intermediate_ttl t disk in
    let deleted = cleanup_expired_results rmtree now result_ttl t cleaned.0 in
    (deleted.0, (cleaned.1, deleted.1))

unfoldable pub remove_dirs : Rmtree → List Row → Disk → Disk
unfolding remove_dir
remove_dirs rmtree [] disk = disk
remove_dirs rmtree (r ∷ rows) disk = remove_dirs rmtree rows (remove_dir rmtree r.id disk)

-- `JobStore.cleanup_expired`: jobs of any status.
unfoldable pub cleanup_expired : Rmtree → ℕ → ℕ → Table → Disk → (Table × Disk) × ℕ
unfolding is_older remove_dirs
cleanup_expired rmtree now ttl t disk =
    let rows = keep (is_older now ttl) t in
    (
      (keep (λ r. if is_older now ttl r then false else true) t, remove_dirs rmtree rows disk),
      length rows,
    )

-- ===== src/Storage.antt =====
-- `get_user_storage_usage` of src/api/db.py, which src/api/routers/storage.py answers. The disk
-- lists the directories of jobs, each with the sizes of the files anywhere below it.
pub mod Usage
mod Tests
use extube.Prelude.{
  ℕ, ◌+◌, ◌*◌, ◌/◌, ◌%◌, ◌==◌, String, Bool, Option, none, some, List, [], ◌∷◌, keep, str_eq, ltb,
  if◌then◌else◌,
}
use extube.JobStore.{Row, Table, owned_by}

abbrev pub Disk : Type 0
Disk = List (String × List ℕ)

-- `total_mb` stands in hundredths.
pub record StorageUsageResponse : Type 0 where
  pub user_id : String
  pub total_bytes : ℕ
  pub total_mb : ℕ
  pub job_count : ℕ

unfoldable pub directory : String → Disk → Option (List ℕ)
directory job_id [] = none
directory job_id ((id, sizes) ∷ disk) =
    let rest = directory job_id disk in if str_eq id job_id then some sizes else rest

abbrev pub sum : List ℕ → ℕ
sum [] = 0
sum (n ∷ ns) = n + sum ns

-- A directory that exists counts, and so do the sizes of its files.
unfoldable pub add_directory : Option (List ℕ) → ℕ × ℕ → ℕ × ℕ
add_directory none rest = rest
add_directory (some sizes) (total_bytes, job_count) = (sum sizes + total_bytes, 1 + job_count)

-- `total_bytes` and `job_count`, the loop over the rows.
unfoldable pub measure : List Row → Disk → ℕ × ℕ
unfolding directory add_directory
measure [] disk = (0, 0)
measure (r ∷ rows) disk = add_directory (directory r.id disk) (measure rows disk)

-- `round(n / 1048576, 2)`, in hundredths: to the nearest, and to the even one of two that are as near.
unfoldable pub hundredths : ℕ → ℕ
hundredths n =
    let q = n * 100 / 1048576 in
    let r = n * 100 % 1048576 in
    if ltb (r * 2) 1048576 then q else if r * 2 == 1048576 then q + q % 2 else q + 1

unfoldable pub get_user_storage_usage : String → Table → Disk → StorageUsageResponse
unfolding owned_by measure hundredths
get_user_storage_usage user_id t disk =
    let measured = measure (keep (owned_by user_id) t) disk in
    record {
      user_id = user_id;
      total_bytes = measured.0;
      total_mb = hundredths measured.0;
      job_count = measured.1;
    }

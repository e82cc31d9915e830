-- ===== src/Cleanup/Tests.antt =====
-- The clean-up of src/api/cleanup.py on a table of two expired jobs.
use extube.Prelude.{◌≡◌, String, ◌&&◌, str_eq, none, some, [], ◌∷◌, any, count, if◌then◌else◌}
use extube.JobStore
use extube.JobStore.{completed, Table, Row, new_job, has_id}
use extube.Cleanup.{Disk, Rmtree, cleanup_expired_results}
use extube.Cleanup.Expiry.{has_dir, after_rmtree, is_expired, cleanup_expired_results-is_expired}

abbrev t : Table
t =
    record { job = new_job "a" completed "u" none; created_at = 5 }
    ∷ record { job = new_job "b" completed "u" none; created_at = 6 }
    ∷ []

-- The directory of `b` would stay, without its files.
abbrev rmtree : Rmtree
rmtree id = if str_eq id "b" then some [] else none

abbrev disk : Disk
disk = ("a", "download" ∷ []) ∷ ("b", "download" ∷ []) ∷ []

cleanup_expired_results-is_expired_example :
    ((j : String)
      → (JobStore.get j (cleanup_expired_results rmtree 100 50 t disk).0.0
          ≡ (if any (λ r. is_expired 100 50 r && has_id j r) t then none else JobStore.get j t))
        × (has_dir j (cleanup_expired_results rmtree 100 50 t disk).0.1
            ≡ after_rmtree rmtree j disk (any (λ r. is_expired 100 50 r && has_id j r) t)))
    × ((cleanup_expired_results rmtree 100 50 t disk).1 ≡ count (is_expired 100 50) t)
cleanup_expired_results-is_expired_example = cleanup_expired_results-is_expired rmtree 100 50 t disk

-- ===== src/Storage/Tests.antt =====
-- The storage of a user with two jobs, one of them without a directory, beside a job of another.
use extube.Prelude.{◌≡◌, ◌+◌, some, [], ◌∷◌, refl}
use extube.JobStore.{completed, failed, Table, new_job, has_id, delete}
use extube.JobStore.Keys.{IsKeyed}
use extube.Storage.{Disk, directory, get_user_storage_usage}
use extube.Storage.Usage.{remove_dir, owns, share, IsNearest, get_user_storage_usage-delete}

abbrev t : Table
t =
    record { job = new_job "a" completed "u" (some "ann"); created_at = 1 }
    ∷ record { job = new_job "b" failed "u" (some "ann"); created_at = 2 }
    ∷ record { job = new_job "c" completed "u" (some "bob"); created_at = 3 }
    ∷ []

abbrev disk : Disk
disk = ("c", 900 ∷ []) ∷ ("a", 3000000 ∷ 145728 ∷ []) ∷ []

keyed : IsKeyed t
unfolding new_job has_id
keyed = (refl, (refl, (refl, tt)))

get_user_storage_usage-delete_example :
    ((get_user_storage_usage "ann" t disk).total_bytes
      ≡ (get_user_storage_usage "ann" (delete "a" t).0 (remove_dir "a" disk)).total_bytes
        + (share (owns "ann" "a" t) (directory "a" disk)).0)
    × ((get_user_storage_usage "ann" t disk).job_count
        ≡ (get_user_storage_usage "ann" (delete "a" t).0 (remove_dir "a" disk)).job_count
          + (share (owns "ann" "a" t) (directory "a" disk)).1)
    × IsNearest
        (get_user_storage_usage "ann" t disk).total_bytes
        (get_user_storage_usage "ann" t disk).total_mb
get_user_storage_usage-delete_example = get_user_storage_usage-delete "ann" "a" t disk keyed

three_megabytes :
    get_user_storage_usage "ann" t disk
    ≡ record { user_id = "ann"; total_bytes = 3145728; total_mb = 300; job_count = 1 }
unfolding get_user_storage_usage new_job
three_megabytes = refl

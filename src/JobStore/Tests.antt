-- ===== src/JobStore/Tests.antt =====
-- The job table of src/api/db.py on concrete rows.
use extube.Prelude.{◌≡◌, String, Bool, ◌&&◌, some, none, List, [], ◌∷◌, refl, count}
use extube.JobStore.{
  pending, processing, completed, failed, Row, Table, Field, status_eq, matches, select, get,
  fail_stale_jobs, is_stale, find_completed_by_url,
}
use extube.JobStore.Laws.{Op, creates, updates, deletes, perform_all, follow, get-perform_all}
use extube.JobStore.Sorting.{IsOrdered, direction, select-IsOrdered}
use extube.JobStore.Latest.{IsLatest, find_completed_by_url-IsLatest}
use extube.JobStore.Stale.{after_failing, fail_stale_jobs-is_stale}

abbrev script : List Op
script =
    creates "a" pending "u" (some "me") 10
    ∷ creates "b" pending "v" none 20
    ∷ creates "a" failed "w" none 30
    ∷ updates "a" (Field.status completed ∷ [])
    ∷ updates "b" (Field.other "id" ∷ [])
    ∷ deletes "b"
    ∷ []

abbrev table : Table
table = perform_all script []

get-perform_all_example : get "a" (perform_all script []) ≡ follow "a" script (get "a" [])
get-perform_all_example = get-perform_all "a" script []

select-IsOrdered_example :
    IsOrdered (direction "url" "asc") (select none none "url" "asc" table)
    × ((p : Row → Bool)
        → count p (select none none "url" "asc" table)
          ≡ count (λ r. matches none none r && p r) table)
select-IsOrdered_example = select-IsOrdered none none "url" "asc" table

find_completed_by_url-IsLatest_example :
    IsLatest "u" "me" table (find_completed_by_url "u" "me" table)
find_completed_by_url-IsLatest_example = find_completed_by_url-IsLatest "u" "me" table

fail_stale_jobs-is_stale_example :
    ((job_id : String)
      → get job_id (fail_stale_jobs (processing ∷ []) "stale" table).0
        ≡ after_failing (processing ∷ []) "stale" (get job_id table))
    × ((fail_stale_jobs (processing ∷ []) "stale" table).1
        ≡ count (λ r. is_stale (processing ∷ []) r.job) table)
    × (count
          (λ r. is_stale (processing ∷ []) r.job)
          (fail_stale_jobs (processing ∷ []) "stale" table).0
        ≡ 0)
unfolding status_eq
fail_stale_jobs-is_stale_example = fail_stale_jobs-is_stale (processing ∷ []) "stale" table refl

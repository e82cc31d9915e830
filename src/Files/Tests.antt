-- ===== src/Files/Tests.antt =====
-- The downloads of src/api/routers/files.py on a disk with one result.
use extube.Prelude.{◌≡◌, true, some, [], ◌∷◌, refl}
use extube.Prelude.Split.{split_on}
use extube.JobStore
use extube.JobStore.{completed, Job, Table, new_job, status_eq}
use extube.Paths.{validate_job_path, join}
use extube.Http.{ok, http, ◌>>=◌}
use extube.Jobs.{get_user_job}
use extube.Files.{
  Settings, Disk, Entry, FileResponse, completed_job, download_job_file, list_job_files,
  download_job_zip,
}
use extube.Files.Inside.{file, serve, Serves, serve-Serves}
use extube.Files.Bundle.{zip_of, download_job_zip-list_job_files}

abbrev s : Settings
s = record { output_base_dir = "srv" ∷ "out" ∷ []; working_dir = "srv" ∷ [] }

abbrev points : Entry
points = record {
  name = "points.ply";
  is_file = true;
  resolved = "srv" ∷ "out" ∷ "0123456789ab" ∷ "reconstruction" ∷ "points.ply" ∷ [];
  size = 1000;
}

abbrev disk : Disk
disk = record {
  exists = λ p. true;
  is_file = λ p. true;
  is_dir = λ p. true;
  rglob = λ p. points ∷ [];
}

abbrev t : Table
t = record { job = new_job "0123456789ab" completed "u" (some "ann"); created_at = 5 } ∷ []

abbrev response : FileResponse
response = record {
  path = "srv" ∷ "out" ∷ "0123456789ab" ∷ "reconstruction" ∷ "points.ply" ∷ [];
  media_type = "application/octet-stream";
  filename = some "points.ply";
}

served : serve s disk (file "points.ply") "0123456789ab" "ann" t ≡ ok response
unfolding serve download_job_file completed_job get_user_job JobStore.get new_job status_eq
    validate_job_path split_on join
served = refl

-- A path that leaves the result directory is refused.
escaping : serve s disk (file "../../secret") "0123456789ab" "ann" t ≡ http 400
unfolding serve download_job_file completed_job get_user_job JobStore.get new_job status_eq
    validate_job_path split_on join
escaping = refl

serve-Serves_example :
    Serves s disk
      (file "points.ply")
      "0123456789ab"
      "ann"
      t
      ("srv" ∷ "out" ∷ "0123456789ab" ∷ "reconstruction" ∷ "points.ply" ∷ [])
serve-Serves_example =
    serve-Serves s disk (file "points.ply") "0123456789ab" "ann" t response served

download_job_zip-list_job_files_example :
    download_job_zip s disk "0123456789ab" "ann" t
    ≡ (list_job_files s disk "0123456789ab" "ann" t >>= zip_of)
download_job_zip-list_job_files_example =
    download_job_zip-list_job_files s disk "0123456789ab" "ann" t

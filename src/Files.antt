-- ===== src/Files.antt =====
-- The downloads of src/api/routers/files.py. The disk is the parameter `Disk`; symbolic links are
-- not followed in `join`, but the entries that `rglob` lists carry what they resolve to.
pub mod Inside
pub mod Bundle
mod Tests
use extube.Prelude.{
  ℕ, ◌+◌, ◌*◌, String, Bool, true, false, ◌&&◌, ◌||◌, Option, none, some, List, [], ◌∷◌, ◌++◌, ltb,
  str_eq, if◌then◌else◌,
}
use extube.Prelude.Split.{split_on}
use extube.Prelude.Text.{upper_eq, concat}
use extube.JobStore
use extube.JobStore.{completed, Job, Table, status_eq}
use extube.Paths.{FilePath, is_relative_to, join, validate_job_path}
use extube.Http.{Reply, ok, http, raise_if, or_raise, ◌>>=◌, ◌>>◌}
use extube.Jobs.{get_user_job, is_text}

-- What `rglob` lists: the name relative to the directory, and what the entry is.
pub record Entry : Type 0 where
  pub name : String
  pub is_file : Bool
  pub resolved : FilePath
  pub size : ℕ

-- `rglob` in the order of `sorted`.
pub record Disk : Type 0 where
  pub exists : FilePath → Bool
  pub is_file : FilePath → Bool
  pub is_dir : FilePath → Bool
  pub rglob : FilePath → List Entry

pub record Settings : Type 0 where
  pub output_base_dir : FilePath
  pub working_dir : FilePath

pub record FileResponse : Type 0 where
  pub path : FilePath
  pub media_type : String
  pub filename : Option String

pub record FileInfo : Type 0 where
  pub name : String
  pub size : ℕ

unfoldable pub unless : Bool → ℕ → Reply (Unit {0})
unless test code = raise_if (if test then false else true) code

-- `get_user_job`, and the test of its status that each endpoint begins with.
unfoldable pub completed_job : String → String → Table → Reply Job
unfolding status_eq
completed_job job_id user_id t =
    get_user_job job_id user_id t >>= λ job. unless (status_eq job.status completed) 400 >> ok job

unfoldable pub last_or : String → FilePath → String
last_or name [] = name
last_or name (part ∷ path) = last_or part path

-- The text of a path column; an empty one is false.
unfoldable pub path_text : Option String → Option String
unfolding is_text
path_text none = none
path_text (some p) = if is_text (some p) then some p else none

-- `name.suffix`, by the parts of the name between its dots; the dot at the front of a hidden file
-- begins no suffix.
suffix_of : List String → String
suffix_of [] = ""
suffix_of (name ∷ []) = ""
suffix_of (stem ∷ extension ∷ []) =
    if str_eq stem "" || str_eq extension "" then "" else concat ("." ∷ extension ∷ [])
suffix_of (stem ∷ part ∷ extension ∷ parts) =
    let last = last_or extension parts in if str_eq last "" then "" else concat ("." ∷ last ∷ [])

abbrev pub content_types : List (String × String)
content_types =
    (".json", "application/json")
    ∷ (".bin", "application/octet-stream")
    ∷ (".las", "application/octet-stream")
    ∷ (".laz", "application/octet-stream")
    ∷ []

-- `content_types.get(suffix.lower(), "application/octet-stream")`; the keys are in lower case.
lookup_type : String → List (String × String) → String
lookup_type suffix [] = "application/octet-stream"
lookup_type suffix ((key, type) ∷ types) =
    let rest = lookup_type suffix types in if upper_eq suffix key then type else rest

unfoldable pub media_type_of : String → String
unfolding lookup_type suffix_of
media_type_of name = lookup_type (suffix_of (split_on b'.' name)) content_types

abbrev pub max_zip_bytes : ℕ
max_zip_bytes = 2 * 1024 * 1024 * 1024

module _ (s : Settings) (disk : Disk) where
  -- `Path(text).resolve()`, tested to lie under the output directory.
  unfoldable pub resolve_stored : Option String → Reply FilePath
  unfolding path_text unless
  resolve_stored stored = or_raise (path_text stored) 404 >>= λ text.
      unless (is_relative_to (join s.working_dir (split_on b'/' text)) s.output_base_dir) 400
      >> ok (join s.working_dir (split_on b'/' text))

  unfoldable pub existing : FilePath → Reply FilePath
  unfolding unless
  existing path = unless (disk.exists path) 404 >> ok path

  unfoldable pub get_job_result : String → String → Table → Reply FileResponse
  unfolding resolve_stored existing
  get_job_result job_id user_id t = do
    job ← completed_job job_id user_id t
    resolved ← resolve_stored job.ply_path
    path ← existing resolved
    ok (record { path = path; media_type = "application/x-ply"; filename = some "points.ply" })

  unfoldable pub get_splat_file : String → String → Table → Reply FileResponse
  unfolding resolve_stored existing last_or
  get_splat_file job_id user_id t = do
    job ← completed_job job_id user_id t
    resolved ← resolve_stored job.gs_splat_path
    path ← existing resolved
    ok (record {
      path = path;
      media_type = "application/octet-stream";
      filename = some (last_or "" path);
    })

  -- A path of the request below a directory.
  unfoldable pub join_below : FilePath → String → Reply FilePath
  unfolding unless
  join_below dir file_path =
      unless (is_relative_to (join dir (split_on b'/' file_path)) dir) 400
      >> ok (join dir (split_on b'/' file_path))

  unfoldable pub get_potree_file : String → String → String → Table → Reply FileResponse
  unfolding resolve_stored join_below existing media_type_of last_or
  get_potree_file job_id file_path user_id t = do
    job ← completed_job job_id user_id t
    potree_dir ← resolve_stored job.potree_dir
    target ← join_below potree_dir file_path
    path ← existing target
    ok (record { path = path; media_type = media_type_of (last_or "" path); filename = none })

  unfoldable pub result_dir_of : String → Reply FilePath
  result_dir_of job_id = or_raise (validate_job_path s.output_base_dir job_id) 404 >>= λ dir.
      ok (dir ++ "reconstruction" ∷ [])

  unfoldable pub list_entries : FilePath → List Entry → List FileInfo
  list_entries base [] = []
  list_entries base (e ∷ es) =
      let rest = list_entries base es in
      if e.is_file && is_relative_to e.resolved base
      then record { name = e.name; size = e.size } ∷ rest
      else rest

  unfoldable pub list_job_files : String → String → Table → Reply (List FileInfo)
  unfolding result_dir_of list_entries
  list_job_files job_id user_id t = do
    job ← completed_job job_id user_id t
    dir ← result_dir_of job_id
    ok (if disk.is_dir dir then list_entries dir (disk.rglob dir) else [])

  unfoldable pub download_job_file : String → String → String → Table → Reply FileResponse
  unfolding result_dir_of join_below unless last_or
  download_job_file job_id file_path user_id t = do
    job ← completed_job job_id user_id t
    dir ← result_dir_of job_id
    target ← join_below dir file_path
    unless (disk.is_file target) 404
    ok (record {
      path = target;
      media_type = "application/octet-stream";
      filename = some (last_or "" target);
    })

  -- The loop over the entries, with `total_size`; it stops at the entry that passes the limit.
  unfoldable pub bundle : FilePath → ℕ → List Entry → Reply (List FileInfo)
  bundle base total [] = ok []
  bundle base total (e ∷ es) =
      let taken = bundle base (total + e.size) es in
      let skipped = bundle base total es in
      if e.is_file && is_relative_to e.resolved base
      then (if ltb max_zip_bytes (total + e.size)
          then http 413
          else (taken >>= λ rest. ok (record { name = e.name; size = e.size } ∷ rest)))
      else skipped

  unfoldable pub not_empty : List FileInfo → Bool
  not_empty [] = false
  not_empty (f ∷ fs) = true

  unfoldable pub download_job_zip : String → String → Table → Reply (List FileInfo)
  unfolding result_dir_of bundle unless not_empty
  download_job_zip job_id user_id t = do
    job ← completed_job job_id user_id t
    dir ← result_dir_of job_id
    unless (disk.is_dir dir) 404
    files ← bundle dir 0 (disk.rglob dir)
    unless (not_empty files) 404
    ok files

-- ===== src/Files/Bundle.antt =====
-- The ZIP download of src/api/routers/files.py against the listing of the same job.
use extube.Prelude.{
  ℕ, ◌+◌, ◌≤◌, ◌≡◌, String, ◌&&◌, List, [], ◌∷◌, arith, refl, ap, ◌∙◌, ltb, leb, if◌then◌else◌,
  Bool-cases, inl, inr,
}
use extube.JobStore.{Table}
use extube.Paths.{FilePath, is_relative_to}
use extube.Http.{Reply, ok, http, ◌>>=◌, ◌>>◌}
use extube.Files.{
  Settings, Disk, Entry, FileInfo, completed_job, unless, result_dir_of, list_entries,
  list_job_files, max_zip_bytes, bundle, not_empty, download_job_zip,
}

abbrev pub total_size : List FileInfo → ℕ
total_size [] = 0
total_size (f ∷ fs) = f.size + total_size fs

-- What the ZIP makes of the files that the listing shows.
abbrev pub zip_of : List FileInfo → Reply (List FileInfo)
zip_of [] = http 404
zip_of (f ∷ fs) = if leb (total_size (f ∷ fs)) max_zip_bytes then ok (f ∷ fs) else http 413

module _ (s : Settings) (disk : Disk) where
  bundle_lem :
      (base : FilePath) (total : ℕ) (es : List Entry)
      → total ≤ max_zip_bytes
      → bundle s disk base total es ≡ (
          if leb (total + total_size (list_entries s disk base es)) max_zip_bytes
          then ok (list_entries s disk base es)
          else http 413)
  unfolding bundle list_entries
  bundle_lem base total [] h = ground arith
  bundle_lem base total (e ∷ es) h =
      elim (Bool-cases (e.is_file && is_relative_to e.resolved base)) [
        | inl taken ↦ rw taken (elim (Bool-cases (ltb max_zip_bytes (total + e.size))) [
          | inl full ↦ rw full (ground (arith, full))
          | inr room ↦
              rw room
                (rw (bundle_lem base (total + e.size) es (ground (arith, room))) (ground arith))
        ])
        | inr skipped ↦ rw skipped (bundle_lem base total es h)
      ]

  zip_of_sum :
      (fs : List FileInfo)
      → ((if leb (total_size fs) max_zip_bytes then ok fs else http 413) >>= λ (gs : List FileInfo).
          unless (not_empty s disk gs) 404 >> ok gs)
        ≡ zip_of fs
  unfolding unless not_empty
  zip_of_sum [] = refl
  zip_of_sum (f ∷ fs) = ground arith

  zero_plus : (n : ℕ) → 0 + n ≡ n
  zero_plus n = omega arith

  zip_dir :
      (dir : FilePath)
      → (unless (disk.is_dir dir) 404
          >> (bundle s disk dir 0 (disk.rglob dir) >>= λ (fs : List FileInfo).
              unless (not_empty s disk fs) 404 >> ok fs))
        ≡ zip_of (if disk.is_dir dir then list_entries s disk dir (disk.rglob dir) else [])
  unfolding unless
  zip_dir dir = elim (Bool-cases (disk.is_dir dir)) [
    | inl there ↦ rw there (
        ap (λ m. m >>= λ (fs : List FileInfo). unless (not_empty s disk fs) 404 >> ok fs)
          (bundle_lem dir 0 (disk.rglob dir) (omega arith)
            ∙ ap
                (λ n.
                  if leb n max_zip_bytes
                  then ok (list_entries s disk dir (disk.rglob dir))
                  else http 413)
                (zero_plus (total_size (list_entries s disk dir (disk.rglob dir)))))
        ∙ zip_of_sum (list_entries s disk dir (disk.rglob dir)))
    | inr absent ↦ rw absent refl
  ]

  both :
      {A : Type 0} (f g : FilePath → Reply (List FileInfo)) (m : Reply A) (d : Reply FilePath)
      → ((dir : FilePath) → f dir ≡ (g dir >>= zip_of))
      → (m >>= λ a. d >>= f) ≡ ((m >>= λ a. d >>= g) >>= zip_of)
  both f g (ok a) (ok dir) h = h dir
  both f g (ok a) (http code) h = refl
  both f g (http code) d h = refl

  -- The ZIP of a job is refused with the code of its listing where that is refused, with 404 where
  -- the listing is empty and with 413 where its sizes sum to more than 2 GB; otherwise it holds
  -- exactly the files of the listing.
  pub download_job_zip-list_job_files :
      (job_id user_id : String) (t : Table)
      → download_job_zip s disk job_id user_id t
        ≡ (list_job_files s disk job_id user_id t >>= zip_of)
  unfolding download_job_zip list_job_files
  download_job_zip-list_job_files job_id user_id t =
      both _ _ (completed_job job_id user_id t) (result_dir_of s disk job_id) zip_dir

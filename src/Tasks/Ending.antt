-- ===== src/Tasks/Ending.antt =====
-- Which exception ends the `try` block of `run_pipeline` (src/api/tasks.py).
use extube.Prelude.{
  ◌-◌, ◌≡◌, String, Option, none, some, refl, ltb, if◌then◌else◌, Bool-cases, inl, inr,
}
use extube.Redis.{Redis}
use extube.QueueManager.{JobMeta}
use extube.Tasks.Errors.{Exception}
use extube.Tasks.{
  returned, raised, Outcome, Stages, ExtractionResult, DownloadResult, ReconstructionResult, World,
  too_few_frames, after_reconstruct, after_extract, after_download, run_stages,
}

-- The exception that ends a run: that of the first stage that raises, or too few frames.
reconstruct_error : Outcome ReconstructionResult → Option Exception
reconstruct_error (raised e) = some e
reconstruct_error (returned r) = none

extract_error : Stages → Outcome ExtractionResult → Option Exception
extract_error st (raised e) = some e
extract_error st (returned x) =
    let remaining = x.total_extracted - x.total_filtered in
    if ltb remaining 2 then some (too_few_frames remaining) else reconstruct_error st.reconstruct

download_error : Stages → Outcome DownloadResult → Option Exception
download_error st (raised e) = some e
download_error st (returned d) = extract_error st st.extract_and_filter

unfoldable pub error_of : Stages → Option Exception
unfolding download_error extract_error reconstruct_error
error_of st = download_error st st.download_video

module _ (R : Redis JobMeta) where
  module _ (job_id : String) (st : Stages) where
    reconstruct-error :
        (d : DownloadResult) (e : ExtractionResult) (w : World R) (o : Outcome ReconstructionResult)
        → (after_reconstruct R job_id d e w o).1 ≡ reconstruct_error o
    unfolding after_reconstruct reconstruct_error
    reconstruct-error d e w (raised x) = refl
    reconstruct-error d e w (returned r) = refl

    extract-error :
        (d : DownloadResult) (w : World R) (o : Outcome ExtractionResult)
        → (after_extract R st job_id d w o).1 ≡ extract_error st o
    unfolding after_extract extract_error
    extract-error d w (raised x) = refl
    extract-error d w (returned e) =
        elim (Bool-cases (ltb (e.total_extracted - e.total_filtered) 2)) [
          | inl few ↦ rw few refl
          | inr enough ↦ rw enough (reconstruct-error d e _ st.reconstruct)
        ]

    download-error :
        (w : World R) (o : Outcome DownloadResult)
        → (after_download R st job_id w o).1 ≡ download_error st o
    unfolding after_download download_error
    download-error w (raised x) = refl
    download-error w (returned d) = extract-error d _ st.extract_and_filter

    pub run_stages-error : (w : World R) → (run_stages R st job_id w).1 ≡ error_of st
    unfolding run_stages error_of
    run_stages-error w = download-error _ st.download_video

-- ===== src/Pipeline/Ends.antt =====
-- How `main` of src/__main__.py ends, and what holds where src/pipeline.py returns a result.
use extube.Prelude.{ℕ, zero, suc, ◌+◌, ◌≤◌, String, true, false, not, ◌≡◌, List, [], keep}
use extube.Downloader.{validate_youtube_url}
use extube.Downloader.Download.{DownloadResult, download_video}
use extube.Extractor.{is_frame, ExtractionResult}
use extube.Reconstruct.{timeout_expired, os_error, Failure, State, Io, ◌>>=◌, pure, child, mkdir}
use extube.Reconstruct.Stats.{image_extensions, count_images}
use extube.Reconstruct.Pipeline.{reconstruct}
use extube.Pipeline.{Pipeline, PipelineResult, Tools, options_of, extract}
use extube.Pipeline.Cli.{summary, Outcome, exit_code, escaped}
use extube.Pipeline.Rebuilt.{Rebuilt}

-- The images that are not frames.
abbrev pub other_images : List String → ℕ
other_images names = count_images image_extensions (keep (λ name. not (is_frame name)) names)

module _ (tools : Tools) (p : Pipeline) (url : String) (s : State) where
  -- The state when the video has been downloaded.
  abbrev pub downloaded : State
  downloaded =
      (download_video tools.yt_dlp url (child p.output_dir "download") p.max_height
        (mkdir p.output_dir s).1).1

  -- What the directory of the frames holds after ffmpeg, before any are moved.
  abbrev pub after_ffmpeg : String → List String
  after_ffmpeg video_path = (tools.video downloaded.files video_path).frame_files

  -- The images from which the scene was built are the frames that were not moved, and the images
  -- that ffmpeg did not extract.
  pub record Finished (r : PipelineResult) (t : State) : Type 0 where
    pub images :
        r.reconstruction.num_images + r.extraction.total_filtered
        ≡ r.extraction.total_extracted + other_images (after_ffmpeg r.video_path)
    pub two_images : 2 ≤ r.reconstruction.num_images
    pub some_points : 1 ≤ r.reconstruction.num_points3d

  abbrev rebuilding : DownloadResult → ExtractionResult → Io PipelineResult
  rebuilding download extraction = reconstruct tools.machine (options_of p) >>= λ r. pure (record {
    video_path = download.video_path;
    video_title = download.title;
    extraction = extraction;
    reconstruction = r;
    output_dir = p.output_dir;
  })

  abbrev downloading : Io PipelineResult
  downloading =
      download_video tools.yt_dlp url (child p.output_dir "download") p.max_height >>= λ download.
      extract tools p download.video_path (child p.output_dir "extraction") >>= rebuilding download

  -- The errors that `main` lets pass: of a time limit, and of a directory that cannot be made.
  abbrev pub IsUncaught : Failure → Type 0
  IsUncaught timeout_expired = Unit
  IsUncaught (os_error type_name) = Unit
  IsUncaught _ = ⊥

  -- A code of zero comes with the lines on a result as `Finished` says, any other code is one, comes
  -- without output, and leaves the state as it was where the URL is refused; the only exceptions that
  -- are not caught are those of a time limit and of a directory that cannot be made.
  abbrev pub EndsAs : Outcome × State → Type 0
  EndsAs (exit_code zero lines, t) =
      (r : PipelineResult) × (lines ≡ summary r t.files) × Finished r t
  EndsAs (exit_code (suc n) lines, t) =
      (n ≡ 0) × (lines ≡ []) × (validate_youtube_url url ≡ false → t ≡ s)
  EndsAs (escaped f, t) = IsUncaught f × (validate_youtube_url url ≡ true)

-- ===== src/Pipeline.antt =====
-- src/pipeline.py: `Pipeline.run`, the three stages on a video in turn, over the file system and the
-- monad of the reconstruction. The programs that the stages call are `Tools`.
pub mod Cli
pub mod Images
pub mod Frames
pub mod Rebuilt
pub mod Ends
mod Tests
use extube.Prelude.{
  ℕ, String, Bool, true, false, ◌&&◌, ◌||◌, not, Option, none, List, str_eq, any, if◌then◌else◌,
}
use extube.Downloader.{validate_youtube_url}
use extube.Downloader.Download.{YtDlp, DownloadResult, download_video}
use extube.Extractor.{Video, Folders, ExtractionResult, extract_and_filter}
use extube.Reconstruct.{
  value_error, Files, State, Machine, Exit, done, thrown, Io, ◌>>=◌, ◌>>◌, pure, child, require,
  exists, mkdir,
}
use extube.Reconstruct.Pipeline.{Options, ReconstructionResult, reconstruct}

-- What `__init__` keeps.
pub record Pipeline : Type 0 where
  pub output_dir : String
  pub max_height : ℕ
  pub frame_interval : ℕ
  pub blur_threshold : ℕ
  pub camera_model : String
  pub export_ply : Bool
  pub dense : Bool
  pub max_image_size : ℕ
  pub gaussian_splatting : Bool
  pub gs_max_iterations : Option ℕ

pub record PipelineResult : Type 0 where
  pub video_path : String
  pub video_title : Option String
  pub extraction : ExtractionResult
  pub reconstruction : ReconstructionResult
  pub output_dir : String

-- `video` is what ffmpeg makes of the file at a path, by the files that there are.
pub record Tools : Type 0 where
  pub yt_dlp : YtDlp
  pub video : Files → String → Video
  pub machine : Machine

-- The file at a path, as the extraction meets it.
abbrev pub video_at : Tools → Files → String → Video
video_at tools files path = record (tools.video files path) { exists = exists files path }

abbrev pub frames_dir : String → String
frames_dir dir = child dir "frames"

abbrev pub filtered_dir : String → String
filtered_dir dir = child dir "filtered"

unfoldable pub is_in : String → List String → String → Bool
is_in dir names path = any (λ name. str_eq path (child dir name)) names

-- The files after the extraction: what the two directories hold, and where a frame moved from.
unfoldable pub place_frames : String → Bool → Folders → Files → Files
unfolding is_in
place_frames dir filtered_made folders files = record files {
  is_dir = λ path.
      str_eq path dir
      || str_eq path (frames_dir dir)
      || (filtered_made && str_eq path (filtered_dir dir))
      || files.is_dir path;
  is_file = λ path.
      is_in (frames_dir dir) folders.frames path
      || is_in (filtered_dir dir) folders.filtered path
      || (files.is_file path && not (is_in (frames_dir dir) folders.filtered path));
  names = λ path.
      if str_eq path (frames_dir dir)
      then folders.frames
      else if str_eq path (filtered_dir dir)
      then folders.filtered
      else files.names path;
}

-- Nothing is made where the video is not found.
unfoldable pub placed : String → Bool → Exit ExtractionResult × Folders → Io ExtractionResult
unfolding place_frames
placed dir found (done r, folders) s =
    (done r, record s { files = place_frames dir true folders s.files })
placed dir found (thrown e, folders) s = (
  thrown e,
  record s { files = if found then place_frames dir false folders s.files else s.files },
)

unfoldable pub extract : Tools → Pipeline → String → String → Io ExtractionResult
unfolding placed extract_and_filter
extract tools p path dir s =
    let video = video_at tools s.files path in
    placed dir video.exists
      (extract_and_filter video p.frame_interval p.blur_threshold
        (s.files.names (filtered_dir dir)))
      s

-- The arguments of `reconstruct`, with its defaults.
abbrev pub options_of : Pipeline → Options
options_of p = record {
  image_dir = frames_dir (child p.output_dir "extraction");
  workspace_dir = child p.output_dir "reconstruction";
  camera_model = p.camera_model;
  export_ply = p.export_ply;
  timeout = 3600;
  dense = p.dense;
  max_image_size = p.max_image_size;
  gaussian_splatting = p.gaussian_splatting;
  gs_max_iterations = p.gs_max_iterations;
  retry_config = none;
}

unfoldable pub run : Tools → Pipeline → String → Io PipelineResult
unfolding require mkdir download_video extract reconstruct
run tools p url = do
  require (λ _. validate_youtube_url url) value_error
  mkdir p.output_dir
  download ← download_video tools.yt_dlp url (child p.output_dir "download") p.max_height
  extraction ← extract tools p download.video_path (child p.output_dir "extraction")
  reconstruction ← reconstruct tools.machine (options_of p)
  pure (record {
    video_path = download.video_path;
    video_title = download.title;
    extraction = extraction;
    reconstruction = reconstruction;
    output_dir = p.output_dir;
  })

-- ===== src/Downloader/Download.antt =====
-- `fetch_video_metadata` and `download_video` of src/downloader/downloader.py. What yt_dlp answers,
-- and what it leaves among the files, is a parameter.
use extube.Prelude.{ℕ, ◌==◌, String, Option, none, some, [], ◌∷◌, if◌then◌else◌}
use extube.Prelude.Text.{concat, decimal}
use extube.Reconstruct.{
  value_error, runtime_error, Files, Exit, done, thrown, Io, ◌>>◌, child, require, change_files,
  mkdir,
}
use extube.Downloader.{validate_youtube_url, VideoMetadata}

-- An entry of the dictionary that yt_dlp returns: absent, `None`, or a value.
pub data Entry (A : Type 0) : Type 0 where
  missing null : Entry A
  value : A → Entry A

-- `info.get(key)`
unfoldable pub entry : {A : Type 0} → Entry A → Option A
entry missing = none
entry null = none
entry (value a) = some a

-- `info.get(key, default)`
unfoldable pub entry_or : {A : Type 0} → A → Entry A → Option A
entry_or default missing = some default
entry_or default null = none
entry_or default (value a) = some a

-- The entries that are read. `id` is one that yt_dlp promises.
pub record Info : Type 0 where
  pub id : String
  pub title : Entry String
  pub ext : Entry String
  pub height : Entry ℕ
  pub duration : Entry ℕ
  pub filesize_approx : Entry ℕ
  pub filesize : Entry ℕ

-- `extract_info` returns the dictionary or raises a `DownloadError`.
pub data Answer : Type 0 where
  info : Info → Answer
  download_error : String → Answer

pub record DownloadOptions : Type 0 where
  pub format : String
  pub outtmpl : String

pub record YtDlp : Type 0 where
  pub lookup : String → Answer
  pub download : DownloadOptions → String → Answer
  pub download_effect : DownloadOptions → String → Files → Files

-- `x or y` on numbers: zero counts as nothing.
unfoldable pub or_nonzero : Option ℕ → Option ℕ → Option ℕ
or_nonzero none o = o
or_nonzero (some n) o = if n == 0 then o else some n

unfoldable pub metadata_from : Answer → Exit VideoMetadata
unfolding entry entry_or or_nonzero
metadata_from (info i) = done (record {
  duration = entry i.duration;
  title = entry_or "" i.title;
  video_id = i.id;
  height = entry i.height;
  filesize_approx = or_nonzero (entry i.filesize_approx) (entry i.filesize);
})
metadata_from (download_error e) = thrown (runtime_error (concat ("메타데이터 조회 실패: " ∷ e ∷ [])))

unfoldable pub fetch_video_metadata : YtDlp → String → Exit VideoMetadata
unfolding metadata_from
fetch_video_metadata yt_dlp url =
    if validate_youtube_url url then metadata_from (yt_dlp.lookup url) else thrown value_error

pub record DownloadResult : Type 0 where
  pub video_path : String
  pub title : Option String
  pub video_id : String
  pub resolution : String

-- A value in an f-string.
unfoldable pub text_or_none : Option String → String
text_or_none none = "None"
text_or_none (some text) = text

unfoldable pub height_text : Entry ℕ → String
height_text missing = "unknown"
height_text null = "None"
height_text (value n) = decimal n

unfoldable pub ydl_opts : String → ℕ → DownloadOptions
unfolding decimal
ydl_opts output_dir max_height =
    let height = decimal max_height in
    record {
      format =
          concat ("bestvideo[height<=" ∷ height ∷ "]+bestaudio/best[height<=" ∷ height ∷ "]" ∷ []);
      outtmpl = child output_dir "%(id)s.%(ext)s";
    }

unfoldable pub result_from : String → Answer → Io DownloadResult
unfolding entry_or text_or_none height_text
result_from output_dir (info i) s = (
  done (record {
    video_path = child output_dir (concat (i.id ∷ "." ∷ text_or_none (entry_or "mp4" i.ext) ∷ []));
    title = entry_or "" i.title;
    video_id = i.id;
    resolution = concat (height_text i.height ∷ "p" ∷ []);
  }),
  s,
)
result_from output_dir (download_error e) s =
    (thrown (runtime_error (concat ("다운로드 실패: " ∷ e ∷ []))), s)

unfoldable pub download_video : YtDlp → String → String → ℕ → Io DownloadResult
unfolding require mkdir change_files ydl_opts result_from
download_video yt_dlp url output_dir max_height = do
  require (λ _. validate_youtube_url url) value_error
  mkdir output_dir
  change_files (yt_dlp.download_effect (ydl_opts output_dir max_height) url)
  result_from output_dir (yt_dlp.download (ydl_opts output_dir max_height) url)

-- ===== src/Extractor.antt =====
-- src/extractor/extractor.py: frames of a video, their blur scores, and the filter on them. What
-- ffmpeg does is an argument; scores and times are exact numbers in one unit, as `float` reads them.
pub mod Filter
mod Tests
use extube.Prelude.{
  ℕ, ◌+◌, ◌*◌, ◌==◌, String, Bool, ◌&&◌, not, Option, none, some, List, [], ◌∷◌, str_eq, leb, any,
  keep, length, if◌then◌else◌,
}
use extube.Prelude.Dict
use extube.Prelude.Dict.{Dict}
use extube.Prelude.Text.{concat, strip, sorted}
use extube.Prelude.Split.{split_on}
use extube.Tasks.Errors.{contains_lower}
use extube.Colmap.{Process, timed_out, exited, signalled}
use extube.Gaussian.{starts, contains}
use extube.Reconstruct.{Exit, done, thrown, file_not_found, timeout_expired, runtime_error}
use extube.Reconstruct.Stats.{last_part, ends_with}

pub record FrameMetadata : Type 0 where
  pub frame_index : ℕ
  pub timestamp : ℕ
  pub file_path : String
  pub blur_score : ℕ
  pub is_filtered : Bool

pub record ExtractionResult : Type 0 where
  pub total_extracted : ℕ
  pub total_filtered : ℕ
  pub frames : List FrameMetadata

-- A video: whether it exists, how ffmpeg ends on it and the names that the directory of frames holds
-- then, how ffmpeg ends on a frame, what `float` reads, and the order in which the worker processes
-- end (`as_completed`).
pub record Video : Type 0 where
  pub exists : Bool
  pub ffmpeg : Process
  pub frame_files : List String
  pub laplacian : String → Process
  pub float : String → Option ℕ
  pub as_completed : List String → List String

-- `frame_*.jpg`
unfoldable pub is_frame : String → Bool
unfolding starts ends_with
is_frame name = starts "frame_" name && ends_with ".jpg" name

unfoldable pub listed : Process → List String → Exit (List String)
unfolding is_frame sorted
listed timed_out files = thrown timeout_expired
listed (exited status stderr) files =
    if status == 0
    then done (sorted (keep is_frame files))
    else thrown (runtime_error (concat ("ffmpeg 프레임 추출 실패: " ∷ stderr ∷ [])))
listed (signalled signal stderr) files =
    thrown (runtime_error (concat ("ffmpeg 프레임 추출 실패: " ∷ stderr ∷ [])))

unfoldable pub extract_frames : Video → Exit (List String)
unfolding listed
extract_frames video =
    if video.exists then listed video.ffmpeg video.frame_files else thrown file_not_found

-- The first line with a variance that can be read.
unfoldable pub read_variance : (String → Option ℕ) → List String → Option ℕ
unfolding contains contains_lower last_part strip
read_variance float [] = none
read_variance float (line ∷ lines) =
    let rest = read_variance float lines in
    if contains "lavfi.laplacian" line && contains_lower "variance" line
    then elim (float (strip (last_part (λ c. c == b'=') line))) [
      | none ↦ rest
      | some score ↦ some score
    ]
    else rest

unfoldable pub score_or_error : String → Option ℕ → Exit ℕ
score_or_error name none =
    thrown (runtime_error (concat ("블러 점수 계산 실패 (laplacian 파싱 불가): " ∷ name ∷ [])))
score_or_error name (some score) = done score

-- The code of the process is not looked at.
unfoldable pub blur_score_of : (String → Option ℕ) → String → Process → Exit ℕ
unfolding score_or_error read_variance
blur_score_of float name timed_out = thrown timeout_expired
blur_score_of float name (exited status stderr) =
    score_or_error name (read_variance float (split_on 10 stderr))
blur_score_of float name (signalled signal stderr) =
    score_or_error name (read_variance float (split_on 10 stderr))

unfoldable pub compute_blur_score : Video → String → Exit ℕ
unfolding blur_score_of
compute_blur_score video name = blur_score_of video.float name (video.laplacian name)

pub record Filtered : Type 0 where
  pub passed : List String
  pub filtered : List String
  pub scores : Dict ℕ

-- The directories of the frames and of the filtered frames.
pub record Folders : Type 0 where
  pub frames : List String
  pub filtered : List String

module _ (video : Video) where
  -- The calls of `progress_callback`, and the scores.
  unfoldable pub collect : ℕ → ℕ → List String → Dict ℕ → List (ℕ × ℕ) × Exit (Dict ℕ)
  unfolding compute_blur_score Dict.put
  collect total completed [] scores = ([], done scores)
  collect total completed (name ∷ names) scores = elim (compute_blur_score video name) [
    | thrown e ↦ ([], thrown e)
    | done score ↦
        let rest = collect total (completed + 1) names (Dict.put name score scores) in
        ((completed + 1, total) ∷ rest.0, rest.1)
  ]

  unfoldable pub passes : ℕ → Dict ℕ → String → Bool
  unfolding Dict.get_or
  passes blur_threshold scores name = leb blur_threshold (Dict.get_or 0 name scores)

  unfoldable pub split_frames : ℕ → List String → Exit (Dict ℕ) → Exit Filtered
  unfolding passes
  split_frames blur_threshold names (thrown e) = thrown e
  split_frames blur_threshold names (done scores) = done (record {
    passed = keep (passes blur_threshold scores) names;
    filtered = keep (λ name. not (passes blur_threshold scores name)) names;
    scores = scores;
  })

  unfoldable pub filter_blurry_frames : List String → ℕ → List (ℕ × ℕ) × Exit Filtered
  unfolding collect split_frames
  filter_blurry_frames [] blur_threshold =
      ([], done (record { passed = []; filtered = []; scores = [] }))
  filter_blurry_frames (name ∷ names) blur_threshold =
      let paths = name ∷ names in
      let collected = collect (length paths) 0 (video.as_completed paths) [] in
      (collected.0, split_frames blur_threshold paths collected.1)

-- `f.rename(dest)`
unfoldable pub move : String → Folders → Folders
move name folders = record {
  frames = keep (λ other. not (str_eq other name)) folders.frames;
  filtered = name ∷ keep (λ other. not (str_eq other name)) folders.filtered;
}

unfoldable pub move_all : List String → Folders → Folders
unfolding move
move_all [] folders = folders
move_all (name ∷ names) folders = move_all names (move name folders)

unfoldable pub metadata_of : ℕ → Filtered → ℕ → List String → List FrameMetadata
unfolding Dict.get_or
metadata_of interval split index [] = []
metadata_of interval split index (name ∷ names) =
    record {
      frame_index = index;
      timestamp = index * interval;
      file_path = name;
      blur_score = Dict.get_or 0 name split.scores;
      is_filtered = any (str_eq name) split.filtered;
    }
    ∷ metadata_of interval split (index + 1) names

unfoldable pub arrange : ℕ → List String → Exit Filtered → Folders → Exit ExtractionResult × Folders
unfolding move_all metadata_of
arrange interval names (thrown e) folders = (thrown e, folders)
arrange interval names (done split) folders = (
  done (record {
    total_extracted = length names;
    total_filtered = length split.filtered;
    frames = metadata_of interval split 0 names;
  }),
  move_all split.filtered folders,
)

-- `filtered` are the files that the directory of filtered frames holds before; the file of the
-- metadata repeats the frames of the result.
unfoldable pub extract_and_filter : Video → ℕ → ℕ → List String → Exit ExtractionResult × Folders
unfolding extract_frames filter_blurry_frames arrange
extract_and_filter video interval blur_threshold filtered =
    let folders : Folders = record { frames = video.frame_files; filtered = filtered } in
    elim (extract_frames video) [
      | thrown e ↦ (thrown e, folders)
      | done names ↦
          arrange interval names (filter_blurry_frames video names blur_threshold).1 folders
    ]

-- ===== src/Extractor/Tests.antt =====
-- A video of three frames, the second of which is blurry.
use extube.Prelude.{
  ℕ, String, Bool, true, false, ◌≡◌, none, some, List, [], ◌∷◌, str_eq, refl, arith, if◌then◌else◌,
}
use extube.Prelude.Text.{strip}
use extube.Prelude.Split.{split_on}
use extube.Colmap.{exited}
use extube.Gaussian.{or_else}
use extube.Reconstruct.{Exit, done}
use extube.Extractor.{
  Video, blur_score_of, read_variance, compute_blur_score, extract_frames, filter_blurry_frames,
  extract_and_filter,
}
use extube.Extractor.Filter.{Extracts, extract_and_filter-Extracts}

abbrev video : Video
video = record {
  exists = true;
  ffmpeg = exited 0 "";
  frame_files = "frame_000002.jpg" ∷ "frame_000001.jpg" ∷ "cover.jpg" ∷ [];
  laplacian = λ name. exited 0 (
      if str_eq name "frame_000002.jpg"
      then "lavfi.laplacian.variance=low"
      else "size=0\nlavfi.laplacian.variance=high\n");
  float =
      λ text. if str_eq text "low" then some 40 else if str_eq text "high" then some 180 else none;
  as_completed = λ names. "frame_000002.jpg" ∷ "frame_000001.jpg" ∷ [];
}

abbrev names : List String
names = "frame_000001.jpg" ∷ "frame_000002.jpg" ∷ []

abbrev score : String → ℕ
score name = if str_eq name "frame_000002.jpg" then 40 else 180

lists : extract_frames video ≡ done names
unfolding extract_frames
lists = refl

scored_as : (blurry : Bool) (name : String) → Exit ℕ
scored_as blurry name = blur_score_of video.float name (
    exited 0 (
      if blurry then "lavfi.laplacian.variance=low" else "size=0\nlavfi.laplacian.variance=high\n"))

scored_lem :
    (blurry : Bool) (name : String) → scored_as blurry name ≡ done (if blurry then 40 else 180)
unfolding scored_as blur_score_of read_variance split_on strip or_else
scored_lem true name = refl
scored_lem false name = refl

scored : (name : String) → compute_blur_score video name ≡ done (score name)
unfolding compute_blur_score scored_as
scored name = scored_lem (str_eq name "frame_000002.jpg") name

extract_and_filter-Extracts_example :
    Extracts video 2 100 score names [] (extract_and_filter video 2 100 [])
extract_and_filter-Extracts_example =
    extract_and_filter-Extracts video 2 100 score names [] lists (λ name h. scored name)
      (λ name. ground arith)

callbacks : (filter_blurry_frames video names 100).0 ≡ (1, 2) ∷ (2, 2) ∷ []
unfolding filter_blurry_frames blur_score_of read_variance split_on strip or_else
callbacks = refl

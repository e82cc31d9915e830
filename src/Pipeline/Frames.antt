-- ===== src/Pipeline/Frames.antt =====
-- How many images the frames of src/pipeline.py are: what the extraction leaves in its directory is
-- what `reconstruct` counts.
use extube.Prelude.{
  ℕ, ◌+◌, ◌==◌, String, Bool, true, ◌&&◌, not, ◌≡◌, List, [], ◌∷◌, keep, count, length, length-keep,
  Bool-cases, inl, inr, arith, refl, ap, ◌∙◌,
}
use extube.Prelude.Text.{sorted}
use extube.Prelude.Dict.{Dict}
use extube.Colmap.{Process, timed_out, exited, signalled}
use extube.Reconstruct.{Exit, done, thrown}
use extube.Reconstruct.Stats.{image_extensions, count_images}
use extube.Extractor.{
  Video, is_frame, listed, extract_frames, Folders, ExtractionResult, Filtered, passes, move_all,
  split_frames, filter_blurry_frames, arrange, extract_and_filter,
}
use extube.Extractor.Filter.{mem, keep_same, mem-keep, move_all-frames}
use extube.Pipeline.Images.{count_images-kept, count-keep, count-sorted, length-sorted, mem-sorted}

-- The images in the directory of the frames are the frames that were not moved and what was not
-- extracted.
unfoldable pub Counted : List String → Exit ExtractionResult × Folders → Type 0
unfolding count_images is_frame
Counted files (done r, folders) =
    count_images image_extensions folders.frames + r.total_filtered
    ≡ r.total_extracted + count_images image_extensions (keep (λ name. not (is_frame name)) files)
Counted files (thrown e, folders) = Unit

module _ (interval : ℕ) (names files filtered : List String)
    (are_listed : names ≡ sorted (keep is_frame files)) where
  mem-frames : (name : String) → mem name names ≡ (is_frame name && mem name files)
  mem-frames name =
      ap (mem name) are_listed
      ∙ mem-sorted name (keep is_frame files)
      ∙ mem-keep is_frame name files

  module _ (passing : String → Bool) (moved : List String)
      (are_moved : moved ≡ keep (λ name. not (passing name)) names) where
    frames-left :
        (move_all moved (record { frames = files; filtered = filtered })).frames
        ≡ keep (λ name. not (is_frame name && not (passing name))) files
    frames-left =
        move_all-frames moved (record { frames = files; filtered = filtered })
        ∙ keep_same _ _ files λ name here. ap not (
            ap (mem name) are_moved
            ∙ mem-keep (λ n. not (passing n)) name names
            ∙ ap (λ b. not (passing name) && b) (mem-frames name)
            ∙ ground (arith, here))

    moved-counted : length moved ≡ count (λ name. is_frame name && not (passing name)) files
    moved-counted =
        ap length are_moved
        ∙ length-keep (λ name. not (passing name)) names
        ∙ ap (count (λ name. not (passing name))) are_listed
        ∙ count-sorted _ (keep is_frame files)
        ∙ count-keep (λ name. not (passing name)) is_frame files

  names-counted : length names ≡ count is_frame files
  names-counted =
      ap length are_listed ∙ length-sorted (keep is_frame files) ∙ length-keep is_frame files

  arrange-Counted :
      (passing : String → Bool) (split : Filtered)
      → split.filtered ≡ keep (λ name. not (passing name)) names
      → Counted files
          (arrange interval names (done split) (record { frames = files; filtered = filtered }))
  unfolding Counted arrange
  arrange-Counted passing split are_moved =
      rw
        (
          frames-left passing split.filtered are_moved,
          moved-counted passing split.filtered are_moved,
          names-counted,
        )
        (count_images-kept passing files)

module _ (video : Video) (interval blur_threshold : ℕ) (filtered : List String) where
  abbrev folders : Folders
  folders = record { frames = video.frame_files; filtered = filtered }

  split-Counted :
      (names : List String)
      → names ≡ sorted (keep is_frame video.frame_files)
      → (scores : Exit (Dict ℕ))
      → Counted video.frame_files
          (arrange interval names (split_frames video blur_threshold names scores) folders)
  unfolding split_frames arrange Counted
  split-Counted names are_listed (done scores) =
      arrange-Counted interval names video.frame_files filtered are_listed
        (passes video blur_threshold scores)
        (record {
          passed = keep (passes video blur_threshold scores) names;
          filtered = keep (λ name. not (passes video blur_threshold scores name)) names;
          scores = scores;
        })
        refl
  split-Counted names are_listed (thrown e) = tt

  filter-Counted :
      (names : List String)
      → names ≡ sorted (keep is_frame video.frame_files)
      → Counted video.frame_files
          (arrange interval names (filter_blurry_frames video names blur_threshold).1 folders)
  unfolding filter_blurry_frames
  filter-Counted [] are_listed =
      arrange-Counted interval [] video.frame_files filtered are_listed (λ name. true)
        (record { passed = []; filtered = []; scores = [] }) refl
  filter-Counted (n ∷ names) are_listed = split-Counted (n ∷ names) are_listed _

  abbrev Listed : Exit (List String) → Type 0
  Listed (done names) = names ≡ sorted (keep is_frame video.frame_files)
  Listed (thrown e) = Unit

  listed-Listed : (ffmpeg : Process) → Listed (listed ffmpeg video.frame_files)
  unfolding listed
  listed-Listed timed_out = tt
  listed-Listed (exited status stderr) = elim (Bool-cases (status == 0)) [
    | inl ends ↦ rw ends refl
    | inr fails ↦ rw fails tt
  ]
  listed-Listed (signalled signal stderr) = tt

  extract_frames-Listed : Listed (extract_frames video)
  unfolding extract_frames
  extract_frames-Listed = elim (Bool-cases video.exists) [
    | inl found ↦ rw found (listed-Listed video.ffmpeg)
    | inr lacks ↦ rw lacks tt
  ]

  pub extract_and_filter-Counted :
      Counted video.frame_files (extract_and_filter video interval blur_threshold filtered)
  unfolding extract_and_filter Counted
  extract_and_filter-Counted = of_frames (extract_frames video) extract_frames-Listed
    where
      of_frames :
          (r : Exit (List String))
          → Listed r
          → Counted video.frame_files (elim r [
            | thrown e ↦ (thrown e, folders)
            | done names ↦
                arrange interval names (filter_blurry_frames video names blur_threshold).1 folders
          ])
      of_frames (done names) h = filter-Counted names h
      of_frames (thrown e) h = tt

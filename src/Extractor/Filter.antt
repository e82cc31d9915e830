-- ===== src/Extractor/Filter.antt =====
-- What `extract_and_filter` of src/extractor/extractor.py keeps and moves.
use extube.Prelude.{
  ℕ, ◌+◌, ◌*◌, ◌≡◌, String, Bool, true, ◌&&◌, ◌||◌, not, Option, none, some, List, [], ◌∷◌, str_eq,
  eq_iff, eq_refl, ltb, leb, any, keep, count, length, length-keep, arith, refl, sym, ap, ◌∙◌,
  if◌then◌else◌,
}
use extube.Prelude.Dict
use extube.Prelude.Dict.{Dict, dict_laws, get-put}
use extube.Reconstruct.{Exit, done}
use extube.Extractor.{
  FrameMetadata, ExtractionResult, Video, extract_frames, compute_blur_score, Filtered, Folders,
  collect, passes, split_frames, filter_blurry_frames, move, move_all, metadata_of, arrange,
  extract_and_filter,
}

abbrev pub mem : String → List String → Bool
mem name names = any (str_eq name) names

pub keep_same :
    (p q : String → Bool) (names : List String)
    → ((name : String) → mem name names ≡ true → p name ≡ q name)
    → keep p names ≡ keep q names
keep_same p q [] h = refl
keep_same p q (n ∷ names) h = rw (h n (ground (arith, eq_refl n))) (
    ap (λ rest. if q n then n ∷ rest else rest)
      (keep_same p q names (λ m k. h m (ground (arith, k)))))

pub mem-keep :
    (q : String → Bool) (name : String) (names : List String)
    → mem name (keep q names) ≡ (q name && mem name names)
mem-keep q name [] = ground arith
mem-keep q name (n ∷ names) = ground (arith, mem-keep q name names, eq_iff name n)

keep-keep :
    (p q : String → Bool) (names : List String)
    → keep p (keep q names) ≡ keep (λ name. q name && p name) names
keep-keep p q [] = refl
keep-keep p q (n ∷ names) = ground (arith, keep-keep p q names)

keep_all : (names : List String) → names ≡ keep (λ name. true) names
keep_all [] = refl
keep_all (n ∷ names) = ap (n ∷◌) (keep_all names)

-- Moving files leaves those that are not moved, in order.
pub move_all-frames :
    (names : List String) (folders : Folders)
    → (move_all names folders).frames ≡ keep (λ other. not (mem other names)) folders.frames
unfolding move_all move
move_all-frames [] folders = keep_all folders.frames
move_all-frames (n ∷ names) folders =
    move_all-frames names (move n folders)
    ∙ keep-keep (λ other. not (mem other names)) (λ other. not (str_eq other n)) folders.frames
    ∙ keep_same _ _ folders.frames (λ m k. ground arith)

move_all-filtered :
    (names : List String) (folders : Folders) (name : String)
    → mem name (move_all names folders).filtered ≡ (mem name names || mem name folders.filtered)
unfolding move_all move
move_all-filtered [] folders name = refl
move_all-filtered (n ∷ names) folders name =
    move_all-filtered names (move n folders) name
    ∙ ground (arith, mem-keep (λ other. not (str_eq other n)) name folders.filtered)

module _ (video : Video) (score : String → ℕ) where
  collect-scores :
      (total completed : ℕ) (order : List String) (scores : Dict ℕ)
      → ((name : String)
          → mem name order ≡ true
          → compute_blur_score video name ≡ done (score name))
      → (d : Dict ℕ) × ((collect video total completed order scores).1 ≡ done d)
        × ((name : String)
            → Dict.get name d
              ≡ (if mem name order then some (score name) else Dict.get name scores))
  unfolding collect
  collect-scores total completed [] scores h = (scores, refl, λ name. refl)
  collect-scores total completed (n ∷ order) scores h =
      let (d, e, g) =
        collect-scores total (completed + 1) order (Dict.put n (score n) scores)
          (λ m k. h m (ground (arith, k))) in
      (d, rw (h n (ground (arith, eq_refl n)), collect) e, λ name. g name ∙ put_first name)
    where
      put_first :
          (name : String)
          → (if mem name order
              then some (score name)
              else Dict.get name (Dict.put n (score n) scores))
            ≡ (if mem name (n ∷ order) then some (score name) else Dict.get name scores)
      put_first name = ground (arith, get-put n name (score n) scores, eq_iff name n, eq_iff n name)

module _ (video : Video) (interval blur_threshold : ℕ) (score : String → ℕ) where
  abbrev pub is_blurry : String → Bool
  is_blurry name = ltb (score name) blur_threshold

  -- The metadata of the frames, from an index on.
  abbrev pub described : ℕ → List String → List FrameMetadata
  described index [] = []
  described index (name ∷ names) =
      record {
        frame_index = index;
        timestamp = index * interval;
        file_path = name;
        blur_score = score name;
        is_filtered = is_blurry name;
      }
      ∷ described (index + 1) names

  metadata_of-described :
      (split : Filtered) (names : List String) (index : ℕ)
      → ((name : String) → mem name names ≡ true → Dict.get_or 0 name split.scores ≡ score name)
      → ((name : String) → mem name names ≡ true → mem name split.filtered ≡ is_blurry name)
      → metadata_of interval split index names ≡ described index names
  unfolding metadata_of
  metadata_of-described split [] index h k = refl
  metadata_of-described split (n ∷ names) index h k =
      rw
        (
          h n (ground (arith, eq_refl n)),
          k n (ground (arith, eq_refl n)),
          metadata_of-described split names (index + 1) (λ m e. h m (ground (arith, e)))
              (λ m e. k m (ground (arith, e))),
        )
        refl

  module _ (names : List String) (d : Dict ℕ)
      (agrees : (name : String) → mem name names ≡ true → Dict.get_or 0 name d ≡ score name) where
    blurry_ones :
        keep (λ name. not (passes video blur_threshold d name)) names ≡ keep is_blurry names
    unfolding passes
    blurry_ones = keep_same _ _ names (λ m k. rw (agrees m k) (below (score m)))
      where
        below : (n : ℕ) → not (leb blur_threshold n) ≡ ltb n blur_threshold
        below n = ground arith

  abbrev pub result_of : List String → ExtractionResult
  result_of names = record {
    total_extracted = length names;
    total_filtered = count is_blurry names;
    frames = described 0 names;
  }

  -- The result describes the frames; the blurry ones leave the one directory, and stand in the other.
  pub record Extracts (names filtered : List String) (r : Exit ExtractionResult × Folders)
      : Type 0 where
    pub outcome : r.0 ≡ done (result_of names)
    pub kept : r.1.frames ≡ keep (λ name. not (is_blurry name && mem name names)) video.frame_files
    pub moved :
        (name : String)
        → mem name r.1.filtered ≡ (is_blurry name && mem name names || mem name filtered)

  arrange-Extracts :
      (names filtered : List String) (d : Dict ℕ)
      → ((name : String) → mem name names ≡ true → Dict.get_or 0 name d ≡ score name)
      → Extracts names filtered (
          arrange interval names
            (split_frames video blur_threshold names (done d))
            (record { frames = video.frame_files; filtered = filtered }))
  unfolding arrange split_frames
  arrange-Extracts names filtered d agrees =
      let split : Filtered = record {
        passed = keep (passes video blur_threshold d) names;
        filtered = keep is_blurry names;
        scores = d;
      } in
      let folders : Folders = record { frames = video.frame_files; filtered = filtered } in
      rw (blurry_ones names d agrees) (record {
        outcome =
            rw
              (
                length-keep is_blurry names,
                metadata_of-described split names 0 agrees
                    (λ m k. mem-keep is_blurry m names ∙ rw k (and_true (is_blurry m))),
              )
              refl;
        kept =
            move_all-frames (keep is_blurry names) folders
            ∙ keep_same _ _ video.frame_files (λ m k. ap not (mem-keep is_blurry m names));
        moved = λ name.
            move_all-filtered (keep is_blurry names) folders name
            ∙ ap (λ (b : Bool). b || mem name filtered) (mem-keep is_blurry name names);
      })
    where
      and_true : (b : Bool) → (b && true) ≡ b
      and_true b = ground arith

  looked_up :
      (names : List String) (d : Dict ℕ)
      → ((name : String)
          → Dict.get name d
            ≡ (if mem name (video.as_completed names) then some (score name) else Dict.get name []))
      → ((name : String) → mem name (video.as_completed names) ≡ mem name names)
      → (name : String) → mem name names ≡ true
      → Dict.get_or 0 name d ≡ score name
  unfolding Dict.get_or
  looked_up names d g once name k = found (Dict.get name d) (g name ∙ rw (once name, k) refl)
    where
      found :
          (o : Option ℕ) → o ≡ some (score name) → (elim o [ none ↦ 0 | some v ↦ v ]) ≡ score name
      found o h = rw h refl

  filtered-Extracts :
      (names filtered : List String)
      → ((name : String)
          → mem name names ≡ true
          → compute_blur_score video name ≡ done (score name))
      → ((name : String) → mem name (video.as_completed names) ≡ mem name names)
      → Extracts names filtered (
          arrange interval names
            (filter_blurry_frames video names blur_threshold).1
            (record { frames = video.frame_files; filtered = filtered }))
  unfolding filter_blurry_frames split_frames
  filtered-Extracts [] filtered scored once = arrange-Extracts [] filtered [] (λ m k. cc)
  filtered-Extracts (n ∷ names) filtered scored once =
      let paths = n ∷ names in
      let (d, e, g) =
        collect-scores video score (length paths) 0 (video.as_completed paths) []
          (λ m k. scored m (sym (once m) ∙ k)) in
      rw (e, split_frames) (arrange-Extracts paths filtered d (looked_up paths d g once))

  -- Where ffmpeg extracts the frames `names` of a video and gives each of them a score, then in
  -- whatever order the workers end, the result describes the frames in order with their scores,
  -- exactly those with a score below the threshold are marked, counted and moved to the other
  -- directory, and the other files stay where they were.
  pub extract_and_filter-Extracts :
      (names filtered : List String)
      → extract_frames video ≡ done names
      → ((name : String)
          → mem name names ≡ true
          → compute_blur_score video name ≡ done (score name))
      → ((name : String) → mem name (video.as_completed names) ≡ mem name names)
      → Extracts names filtered (extract_and_filter video interval blur_threshold filtered)
  unfolding extract_and_filter
  extract_and_filter-Extracts names filtered extracted scored once =
      rw (extracted, extract_and_filter) (filtered-Extracts names filtered scored once)

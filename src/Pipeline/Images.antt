-- ===== src/Pipeline/Images.antt =====
-- Images and frames among the names of a directory, counted, and `sorted` on names.
use extube.Prelude.{
  suc, ◌+◌, String, Bool, true, false, ◌&&◌, not, ◌≡◌, List, [], ◌∷◌, str_eq, eq_iff, keep, count,
  length, Bool-cases, inl, inr, arith, refl, sym, ap, ◌∙◌, false≢true,
}
use extube.Prelude.Text.{insert_sorted, sorted}
use extube.Reconstruct.Stats.{ends_with, image_extensions, count_images}
use extube.Extractor.{is_frame}
use extube.Extractor.Filter.{mem}

-- A name ends with ".jpg" or with an extension that neither ends the other, not both.
one_extension :
    (extension name : String)
    → ends_with ".jpg" extension ≡ false
    → ends_with extension ".jpg" ≡ false
    → ends_with ".jpg" name ≡ true
    → ends_with extension name ≡ false
unfolding ends_with
one_extension extension String.[] h k e = cc
one_extension extension (String.◌∷◌ c s) h k e =
    let name = String.◌∷◌ c s in
    elim (Bool-cases (str_eq extension name)) [
      | inl same ↦
          let p : extension ≡ name = (eq_iff extension name).0 same in
          absurd (false≢true (sym h ∙ ap (ends_with ".jpg") p ∙ e))
      | inr differs ↦ elim (Bool-cases (str_eq ".jpg" name)) [
        | inl same ↦
            let p : ".jpg" ≡ name = (eq_iff ".jpg" name).0 same in
            ap (ends_with extension) (sym p) ∙ k
        | inr longer ↦ rw differs (one_extension extension s h k (rw longer at e))
      ]
    ]

count_images-cons :
    (extensions : List String) (name : String) (names : List String)
    → count_images extensions (name ∷ names)
      ≡ count_images extensions (name ∷ []) + count_images extensions names
unfolding count_images
count_images-cons [] name names = refl
count_images-cons (e ∷ extensions) name names =
    ground (arith, count_images-cons extensions name names)

frame-counts_once :
    (name : String) → is_frame name ≡ true → count_images image_extensions (name ∷ []) ≡ 1
unfolding is_frame count_images
frame-counts_once name h =
    let jpg : ends_with ".jpg" name ≡ true = ground (arith, h) in
    rw
      (
        jpg,
        one_extension ".jpeg" name refl refl jpg,
        one_extension ".png" name refl refl jpg,
        one_extension ".JPG" name refl refl jpg,
        one_extension ".JPEG" name refl refl jpg,
        one_extension ".PNG" name refl refl jpg,
      )
      refl

-- A directory whose names are frames or not, without the frames that fail a test.
pub count_images-kept :
    (passing : String → Bool) (names : List String)
    → count_images image_extensions (keep (λ name. not (is_frame name && not (passing name))) names)
        + count (λ name. is_frame name && not (passing name)) names
      ≡ count is_frame names
        + count_images image_extensions (keep (λ name. not (is_frame name)) names)
count_images-kept passing [] = omega arith
count_images-kept passing (n ∷ names) =
    let one = count_images-cons image_extensions n in
    let rest = count_images-kept passing names in
    elim (Bool-cases (is_frame n)) [
      | inl frame ↦ rw frame (
          ground (
            arith,
            rest,
            frame-counts_once n frame,
            one (keep (λ name. not (is_frame name && not (passing name))) names),
          ))
      | inr other ↦ rw other (
          ground (
            arith,
            rest,
            one (keep (λ name. not (is_frame name && not (passing name))) names),
            one (keep (λ name. not (is_frame name)) names),
          ))
    ]

pub count-keep :
    (p q : String → Bool) (names : List String)
    → count p (keep q names) ≡ count (λ name. q name && p name) names
count-keep p q [] = refl
count-keep p q (n ∷ names) = ground (arith, count-keep p q names)

-- `sorted` keeps how many pass.
count-insert :
    (p : String → Bool) (a : String) (l : List String)
    → count p (insert_sorted a l) ≡ count p (a ∷ l)
unfolding insert_sorted
count-insert p a [] = refl
count-insert p a (b ∷ l) = ground (arith, count-insert p a l)

pub count-sorted : (p : String → Bool) (l : List String) → count p (sorted l) ≡ count p l
unfolding sorted
count-sorted p [] = refl
count-sorted p (a ∷ l) = ground (arith, count-insert p a (sorted l), count-sorted p l)

length-insert : (a : String) (l : List String) → length (insert_sorted a l) ≡ suc (length l)
unfolding insert_sorted
length-insert a [] = refl
length-insert a (b ∷ l) = ground (arith, length-insert a l)

pub length-sorted : (l : List String) → length (sorted l) ≡ length l
unfolding sorted
length-sorted [] = refl
length-sorted (a ∷ l) = ground (arith, length-insert a (sorted l), length-sorted l)

mem-insert : (name a : String) (l : List String) → mem name (insert_sorted a l) ≡ mem name (a ∷ l)
unfolding insert_sorted
mem-insert name a [] = refl
mem-insert name a (b ∷ l) = ground (arith, mem-insert name a l)

pub mem-sorted : (name : String) (l : List String) → mem name (sorted l) ≡ mem name l
unfolding sorted
mem-sorted name [] = refl
mem-sorted name (a ∷ l) = ground (arith, mem-insert name a (sorted l), mem-sorted name l)

-- ===== src/Prelude/Split.antt =====
-- Python's `str.split(sep)` for a separator of one character.
use Prim.Native.Char.{Char, code}
use Prim.Native.Nat.{ℕ}
use Prim.Native.String.{String}
use Prim.Native.String
use mathlib.Core.Bool.{Bool, true, false}
use mathlib.Core.Logic.{inl, inr}
use mathlib.Core.List.{List, [], ◌∷◌}
use mathlib.Core.Path.{◌≡◌, refl, ap, ◌∙◌}
use native.Mathlib.Omega.{arith}
use text.Mathlib.TextLemmas.{cons-append, nil-append}
use extube.Prelude.Tests.{◌==◌, if◌then◌else◌, Bool-cases}

-- A character before the first part.
onto_first : Char → List String → List String
onto_first c [] = String.◌∷◌ c String.[] ∷ []
onto_first c (part ∷ parts) = String.◌∷◌ c part ∷ parts

unfoldable pub split_on : ℕ → String → List String
unfolding onto_first
split_on sep String.[] = "" ∷ []
split_on sep (String.◌∷◌ c s) =
    let rest = split_on sep s in if code c == sep then "" ∷ rest else onto_first c rest

-- No character is the separator.
abbrev pub lacks : ℕ → String → Bool
lacks sep String.[] = true
lacks sep (String.◌∷◌ c s) = let rest = lacks sep s in if code c == sep then false else rest

-- A part and what stands behind its separator.
pub split_on-append :
    (sep : Char) (s t : String)
    → lacks (code sep) s ≡ true
    → split_on (code sep) (String.◌++◌ s (String.◌∷◌ sep t)) ≡ s ∷ split_on (code sep) t
unfolding split_on
split_on-append sep String.[] t h =
    ap (split_on (code sep)) (nil-append _) ∙ rw (same (code sep), split_on) refl
  where
    same : (n : ℕ) → (n == n) ≡ true
    same n = ground arith
split_on-append sep (String.◌∷◌ c s) t h = elim (Bool-cases (code c == code sep)) [
  | inl here ↦ cc (rw here at h)
  | inr other ↦
      ap (split_on (code sep)) (cons-append c s (String.◌∷◌ sep t))
      ∙ rw (other, split_on) (ap (onto_first c) (split_on-append sep s t (rw other at h)))
]

-- Whether some text has the character.
abbrev pub some_has : ℕ → List String → Bool
some_has k [] = false
some_has k (s ∷ parts) = let rest = some_has k parts in if lacks k s then rest else true

some_has-onto_first :
    (k : ℕ) (c : Char) (parts : List String)
    → (code c == k) ≡ false
    → some_has k parts ≡ false
    → some_has k (onto_first c parts) ≡ false
unfolding onto_first
some_has-onto_first k c [] h g = rw h refl
some_has-onto_first k c (s ∷ parts) h g = rw h g

-- The parts of a text have no character that the text lacks.
pub some_has-split_on :
    (k sep : ℕ) (s : String) → lacks k s ≡ true → some_has k (split_on sep s) ≡ false
unfolding split_on
some_has-split_on k sep String.[] h = refl
some_has-split_on k sep (String.◌∷◌ c s) h = elim (Bool-cases (code c == k)) [
  | inl same ↦ cc (rw same at h)
  | inr other ↦
      let rest = some_has-split_on k sep s (rw other at h) in
      elim (Bool-cases (code c == sep)) [
        | inl here ↦ rw (here, split_on) rest
        | inr away ↦ rw (away, split_on) (some_has-onto_first k c (split_on sep s) other rest)
      ]
]

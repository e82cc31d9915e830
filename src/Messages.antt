-- ===== src/Messages.antt =====
-- `sanitize_for_message` of src/api/dependencies.py: what a user wrote, as an error message repeats it.
use Prim.Native.Char.{code}
use extube.Prelude.{
  ℕ, zero, suc, ◌≡◌, ◌≤◌, ◌==◌, String, Bool, true, false, ◌||◌, arith, refl, Bool-cases, inl, inr,
  if◌then◌else◌,
}

-- `[<>&"']`
unfoldable pub is_markup : ℕ → Bool
is_markup c = c == b'<' || c == b'>' || c == b'&' || c == b'"' || c == 39

unfoldable pub without_markup : String → String
unfolding is_markup
without_markup String.[] = String.[]
without_markup (String.◌∷◌ c s) =
    let rest = without_markup s in if is_markup (code c) then rest else String.◌∷◌ c rest

-- `text[:n]`
unfoldable pub cut : ℕ → String → String
cut zero s = String.[]
cut (suc n) String.[] = String.[]
cut (suc n) (String.◌∷◌ c s) = String.◌∷◌ c (cut n s)

unfoldable pub sanitize_for_message : String → String
unfolding without_markup cut
sanitize_for_message value = cut 200 (without_markup value)

abbrev pub size : String → ℕ
size String.[] = 0
size (String.◌∷◌ c s) = suc (size s)

-- No character is markup.
abbrev pub is_clean : String → Bool
is_clean String.[] = true
is_clean (String.◌∷◌ c s) = let rest = is_clean s in if is_markup (code c) then false else rest

without_markup-is_clean : (s : String) → is_clean (without_markup s) ≡ true
unfolding without_markup
without_markup-is_clean String.[] = refl
without_markup-is_clean (String.◌∷◌ c s) = elim (Bool-cases (is_markup (code c))) [
  | inl bad ↦ rw bad (without_markup-is_clean s)
  | inr fine ↦ rw (fine, without_markup) (rw fine (without_markup-is_clean s))
]

cut-is_clean : (n : ℕ) (s : String) → is_clean s ≡ true → is_clean (cut n s) ≡ true
unfolding cut
cut-is_clean zero s h = refl
cut-is_clean (suc n) String.[] h = refl
cut-is_clean (suc n) (String.◌∷◌ c s) h = ground (arith, h, cut-is_clean n s)

size-cut : (n : ℕ) (s : String) → size (cut n s) ≤ n
unfolding cut
size-cut zero s = omega arith
size-cut (suc n) String.[] = omega arith
size-cut (suc n) (String.◌∷◌ c s) = omega (arith, size-cut n s)

-- What is repeated has no markup and at most 200 characters.
pub sanitize_for_message-is_clean :
    (value : String)
    → (is_clean (sanitize_for_message value) ≡ true) × (size (sanitize_for_message value) ≤ 200)
unfolding sanitize_for_message
sanitize_for_message-is_clean value = (
  cut-is_clean 200 (without_markup value) (without_markup-is_clean value),
  size-cut 200 (without_markup value),
)

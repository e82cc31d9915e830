-- ===== src/Prelude/Text.antt =====
-- What the code does with `str`: f-strings, `split(sep)[0]`, `strip()`, and comparison without case.
use Prim.Native.Char.{code}
use Prim.Native.Nat.{ℕ, zero, suc, ◌/◌, ◌%◌, ◌+◌, ◌-◌}
use Prim.Native.String.{String, [], ◌∷◌}
use Prim.Native.String
use mathlib.Core.Bool.{Bool, true, false, ◌&&◌, ◌||◌}
use mathlib.Core.Path.{◌≡◌, refl}
use native.Mathlib.Omega.{arith}
use mathlib.Core.List.{List}
use extube.Prelude.Split.{lacks}
use extube.Prelude.Tests.{leb, ltb, ◌==◌, if◌then◌else◌}

-- An f-string is the concatenation of its pieces.
unfoldable pub concat : List String → String
concat List.[] = ""
concat (List.◌∷◌ s ss) = String.◌++◌ s (concat ss)

unfoldable pub before : ℕ → String → String
before sep [] = []
before sep (c ∷ s) = let rest = before sep s in if code c == sep then [] else c ∷ rest

-- The white space of Latin-1, the encoding of HTTP headers.
unfoldable pub is_space : ℕ → Bool
is_space c = (leb 9 c && leb c 13) || (leb 28 c && leb c 32) || c == 133 || c == 160

is_empty : String → Bool
is_empty [] = true
is_empty (c ∷ s) = false

lstrip : String → String
unfolding is_space
lstrip [] = []
lstrip (c ∷ s) = let rest = lstrip s in if is_space (code c) then rest else c ∷ s

rstrip : String → String
unfolding is_space is_empty
rstrip [] = []
rstrip (c ∷ s) = let rest = rstrip s in if is_space (code c) && is_empty rest then [] else c ∷ rest

unfoldable pub strip : String → String
unfolding lstrip rstrip
strip s = rstrip (lstrip s)

unfoldable pub upper : ℕ → ℕ
upper c = if leb b'a' c && leb c b'z' then c - 32 else c

unfoldable pub lower : ℕ → ℕ
lower c = if leb b'A' c && leb c b'Z' then c + 32 else c

-- `a.upper() == b.upper()` on ASCII text.
unfoldable pub upper_eq : String → String → Bool
unfolding upper
upper_eq [] [] = true
upper_eq [] (d ∷ t) = false
upper_eq (c ∷ s) [] = false
upper_eq (c ∷ s) (d ∷ t) = let rest = upper_eq s t in upper (code c) == upper (code d) && rest

-- Lexicographic by the code points, which is the order of the bytes of UTF-8.
unfoldable pub str_ltb : String → String → Bool
str_ltb [] [] = false
str_ltb [] (d ∷ t) = true
str_ltb (c ∷ s) [] = false
str_ltb (c ∷ s) (d ∷ t) =
    let rest = str_ltb s t in ltb (code c) (code d) || (code c == code d && rest)

pub str_ltb_asymm : (a b : String) → str_ltb a b ≡ true → str_ltb b a ≡ false
unfolding str_ltb
str_ltb_asymm [] [] h = refl
str_ltb_asymm [] (d ∷ t) h = refl
str_ltb_asymm (c ∷ s) [] h = cc
str_ltb_asymm (c ∷ s) (d ∷ t) h = ground (arith, str_ltb_asymm s t)

pub str_ltb_negtrans :
    (a b c : String) → str_ltb b a ≡ false → str_ltb c b ≡ false → str_ltb c a ≡ false
unfolding str_ltb
str_ltb_negtrans [] [] c h k = k
str_ltb_negtrans [] (d ∷ t) [] h k = cc
str_ltb_negtrans [] (d ∷ t) (e ∷ u) h k = refl
str_ltb_negtrans (d ∷ t) [] c h k = cc
str_ltb_negtrans (d ∷ t) (e ∷ u) [] h k = cc
str_ltb_negtrans (d ∷ t) (e ∷ u) (f ∷ v) h k = ground (arith, str_ltb_negtrans t u v)

-- `sorted(texts)`
unfoldable pub insert_sorted : String → List String → List String
insert_sorted a List.[] = List.◌∷◌ a List.[]
insert_sorted a (List.◌∷◌ b l) =
    let rest = insert_sorted a l in
    if str_ltb b a then List.◌∷◌ b rest else List.◌∷◌ a (List.◌∷◌ b l)

unfoldable pub sorted : List String → List String
unfolding insert_sorted str_ltb
sorted List.[] = List.[]
sorted (List.◌∷◌ a l) = insert_sorted a (sorted l)

-- `str(n)`. Each round takes a digit off, so `n + 1` rounds are enough.
digit : ℕ → String
digit n =
    if n == 0
    then "0"
    else if n == 1
    then "1"
    else if n == 2
    then "2"
    else if n == 3
    then "3"
    else if n == 4
    then "4"
    else if n == 5
    then "5"
    else if n == 6
    then "6"
    else if n == 7
    then "7"
    else if n == 8
    then "8"
    else "9"

decimal_within : ℕ → ℕ → String
unfolding digit
decimal_within zero n = ""
decimal_within (suc fuel) n =
    let rest = decimal_within fuel (n / 10) in
    if ltb n 10 then digit n else String.◌++◌ rest (digit (n % 10))

unfoldable pub decimal : ℕ → String
unfolding decimal_within
decimal n = decimal_within (n + 1) n

lacks-lstrip : (k : ℕ) (s : String) → lacks k s ≡ true → lacks k (lstrip s) ≡ true
unfolding lstrip
lacks-lstrip k [] h = refl
lacks-lstrip k (c ∷ s) h = ground (arith, lacks-lstrip k s)

lacks-rstrip : (k : ℕ) (s : String) → lacks k s ≡ true → lacks k (rstrip s) ≡ true
unfolding rstrip
lacks-rstrip k [] h = refl
lacks-rstrip k (c ∷ s) h = ground (arith, lacks-rstrip k s)

pub lacks-strip : (k : ℕ) (s : String) → lacks k s ≡ true → lacks k (strip s) ≡ true
unfolding strip
lacks-strip k s h = lacks-rstrip k (lstrip s) (lacks-lstrip k s h)

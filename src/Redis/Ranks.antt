-- ===== src/Redis/Ranks.antt =====
-- A sorted set as Redis documents it: members with scores, each member once, ordered by score and,
-- for one score, by the bytes of the member.
use extube.Prelude.Text.{str_ltb, str_ltb_asymm, str_ltb_negtrans}
use extube.Prelude.{
  ℕ, suc, ◌≤◌, ◌≡◌, String, Bool, true, false, ◌&&◌, ◌||◌, Option, none, some, List, [], ◌∷◌, any,
  count, str_eq, eq_iff, eq_refl, if◌then◌else◌, ltb, ◌==◌, arith, refl, Bool-cases, inl, inr,
}

abbrev pub ZSet : Type 0
ZSet = List (String × ℕ)

-- The entry `e` stands before an entry of `member` with `score`.
unfoldable pub is_before : String → ℕ → String × ℕ → Bool
is_before member score (m, s) = ltb s score || (s == score && str_ltb m member)

unfoldable pub erase : String → ZSet → ZSet
erase member [] = []
erase member ((m, s) ∷ z) =
    let rest = erase member z in if str_eq m member then rest else (m, s) ∷ rest

unfoldable pub rank_insert : String → ℕ → ZSet → ZSet
rank_insert member score [] = (member, score) ∷ []
rank_insert member score (e ∷ z) =
    let rest = rank_insert member score z in
    if is_before member score e then e ∷ rest else (member, score) ∷ e ∷ z

unfoldable pub index : String → ZSet → Option ℕ
index member [] = none
index member ((m, s) ∷ z) =
    let rest = index member z in
    if str_eq m member then some 0 else elim rest [ none ↦ none | some i ↦ some (suc i) ]

abbrev pub contains : String → ZSet → Bool
contains member = any (λ e. str_eq e.0 member)

-- No entry stands before one that stands in front of it.
abbrev pub Sorted : ZSet → Type 0
Sorted [] = Unit
Sorted (e ∷ z) = (count (is_before e.0 e.1) z ≡ 0) × Sorted z

is_before_asymm :
    (m n : String) (s t : ℕ) → is_before m s (n, t) ≡ true → is_before n t (m, s) ≡ false
unfolding is_before
is_before_asymm m n s t h = ground (arith, str_ltb_asymm n m)

is_before_negtrans :
    (m n o : String) (s t u : ℕ)
    → is_before m s (n, t) ≡ false
    → is_before n t (o, u) ≡ false
    → is_before m s (o, u) ≡ false
unfolding is_before
is_before_negtrans m n o s t u h k = ground (arith, str_ltb_negtrans m n o)

-- What stands behind an entry that is not before `member` is not before it either.
none_before :
    (m n : String) (s t : ℕ) (z : ZSet)
    → is_before m s (n, t) ≡ false
    → count (is_before n t) z ≡ 0
    → count (is_before m s) z ≡ 0
none_before m n s t [] h k = refl
none_before m n s t ((o, u) ∷ z) h k =
    ground (arith, is_before_negtrans m n o s t u, none_before m n s t z)

pub contains-erase : (member : String) (z : ZSet) → contains member (erase member z) ≡ false
unfolding erase
contains-erase member [] = refl
contains-erase member ((m, s) ∷ z) = ground (arith, contains-erase member z)

-- A new member goes behind the entries that stand before it, and before all others.
pub index-rank_insert :
    (member : String) (score : ℕ) (z : ZSet)
    → contains member z ≡ false
    → Sorted z
    → index member (rank_insert member score z) ≡ some (count (is_before member score) z)
unfolding index rank_insert
index-rank_insert member score [] c h = rw (eq_refl member)
index-rank_insert member score ((m, s) ∷ z) c h =
    ground (arith, index-rank_insert member score z, eq_refl member, none_before member m score s z)

count-rank_insert :
    (p : String × ℕ → Bool) (member : String) (score : ℕ) (z : ZSet)
    → count p (rank_insert member score z) ≡ count p ((member, score) ∷ z)
unfolding rank_insert
count-rank_insert p member score [] = refl
count-rank_insert p member score (e ∷ z) = ground (arith, count-rank_insert p member score z)

count-erase-le :
    (p : String × ℕ → Bool) (member : String) (z : ZSet) → count p (erase member z) ≤ count p z
unfolding erase
count-erase-le p member [] = omega arith
count-erase-le p member ((m, s) ∷ z) = ground (arith, count-erase-le p member z)

pub Sorted-erase : (member : String) (z : ZSet) → Sorted z → Sorted (erase member z)
unfolding erase
Sorted-erase member [] h = tt
Sorted-erase member ((m, s) ∷ z) h = elim (Bool-cases (str_eq m member)) [
  | inl e ↦ rw e (Sorted-erase member z h.1)
  | inr e ↦
      rw e (omega (arith, h.0, count-erase-le (is_before m s) member z), Sorted-erase member z h.1)
]

pub Sorted-rank_insert :
    (member : String) (score : ℕ) (z : ZSet) → Sorted z → Sorted (rank_insert member score z)
unfolding rank_insert
Sorted-rank_insert member score [] h = (refl, tt)
Sorted-rank_insert member score ((m, s) ∷ z) h = elim (Bool-cases (is_before member score (m, s))) [
  | inl e ↦ rw e (
    ground (
      arith,
      h.0,
      count-rank_insert (is_before m s) member score z,
      is_before_asymm member m score s,
    ),
    Sorted-rank_insert member score z h.1,
  )
  | inr e ↦ rw e (ground (arith, none_before member m score s z), h)
]

-- Each member stands in a sorted set once.
abbrev pub Distinct : ZSet → Type 0
Distinct [] = Unit
Distinct (e ∷ z) = (contains e.0 z ≡ false) × Distinct z

pub contains-rank_insert :
    (member m : String) (score : ℕ) (z : ZSet)
    → contains member (rank_insert m score z) ≡ (str_eq m member || contains member z)
unfolding rank_insert
contains-rank_insert member m score [] = ground arith
contains-rank_insert member m score (e ∷ z) = ground (arith, contains-rank_insert member m score z)

pub contains-erase_ne :
    (member m : String) (z : ZSet)
    → contains member (erase m z) ≡ (if str_eq m member then false else contains member z)
unfolding erase
contains-erase_ne member m [] = ground arith
contains-erase_ne member m ((n, s) ∷ z) =
    ground (arith, contains-erase_ne member m z, eq_iff n m, eq_iff n member, eq_iff m member)

pub Distinct-erase : (member : String) (z : ZSet) → Distinct z → Distinct (erase member z)
unfolding erase
Distinct-erase member [] h = tt
Distinct-erase member ((m, s) ∷ z) h = elim (Bool-cases (str_eq m member)) [
  | inl e ↦ rw e (Distinct-erase member z h.1)
  | inr e ↦ rw e (ground (arith, h.0, contains-erase_ne m member z), Distinct-erase member z h.1)
]

pub Distinct-rank_insert :
    (member : String) (score : ℕ) (z : ZSet)
    → contains member z ≡ false
    → Distinct z
    → Distinct (rank_insert member score z)
unfolding rank_insert
Distinct-rank_insert member score [] c h = (refl, tt)
Distinct-rank_insert member score ((m, s) ∷ z) c h =
    elim (Bool-cases (is_before member score (m, s))) [
      | inl e ↦ rw e (
        ground
            (arith, h.0, contains-rank_insert m member score z, eq_iff m member, eq_iff member m),
        Distinct-rank_insert member score z (ground arith) h.1,
      )
      | inr e ↦ rw e (c, h)
    ]

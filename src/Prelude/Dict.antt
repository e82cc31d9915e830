-- ===== src/Prelude/Dict.antt =====
-- Python's `dict` with text keys, as an association list. A key that is written again keeps its
-- place; the code never depends on that order.
use Prim.Native.String.{String}
use mathlib.Core.Path.{◌≡◌}
use mathlib.Core.List.{List, [], ◌∷◌}
use mathlib.Core.Option.{Option, none, some}
use native.Mathlib.Omega.{arith}
use text.Mathlib.Text.{◌==◌}
use text.Mathlib.TextEquality.{eq_iff}
use extube.Prelude.Tests.{if◌then◌else◌}

abbrev pub Dict {ℓ} : Type ℓ → Type ℓ
Dict V = List (String × V)

module _ {ℓ} {V : Type ℓ} where
  -- `d.get(k)`
  unfoldable pub get : String → Dict V → Option V
  get k [] = none
  get k ((j, v) ∷ d) = let rest = get k d in if j == k then some v else rest

  -- `d[k]` of a `defaultdict`
  unfoldable pub get_or : V → String → Dict V → V
  unfolding get
  get_or x k d = elim (get k d) [ none ↦ x | some v ↦ v ]

  -- `d[k] = v`
  unfoldable pub put : String → V → Dict V → Dict V
  put k v [] = (k, v) ∷ []
  put k v ((j, w) ∷ d) = let rest = put k v d in if j == k then (j, v) ∷ d else (j, w) ∷ rest

  -- `d.pop(k, None)`
  unfoldable pub remove : String → Dict V → Dict V
  remove k [] = []
  remove k ((j, w) ∷ d) = let rest = remove k d in if j == k then rest else (j, w) ∷ rest

  pub get-put :
      (k j : String) (v : V) (d : Dict V) → get j (put k v d) ≡ (if k == j then some v else get j d)
  unfolding get put
  get-put k j v [] = ground arith
  get-put k j v ((i, w) ∷ d) = ground (arith, eq_iff k j, eq_iff i k, eq_iff i j, get-put k j v d)

  pub get-remove :
      (k j : String) (d : Dict V) → get j (remove k d) ≡ (if k == j then none else get j d)
  unfolding get remove
  get-remove k j [] = ground arith
  get-remove k j ((i, w) ∷ d) = ground (arith, eq_iff k j, eq_iff i k, eq_iff i j, get-remove k j d)

module _ {ℓ} {V : Type ℓ} where
  pub get_or-put :
      (x : V) (k j : String) (v : V) (d : Dict V)
      → get_or x j (put k v d) ≡ (if k == j then v else get_or x j d)
  unfolding get_or
  get_or-put x k j v d = ground (arith, get-put k j v d)

  pub get_or-remove :
      (x : V) (k j : String) (d : Dict V)
      → get_or x j (remove k d) ≡ (if k == j then x else get_or x j d)
  unfolding get_or
  get_or-remove x k j d = ground (arith, get-remove k j d)

pub ruleset dict_laws = (get-put, get-remove, get_or-put, get_or-remove)

-- ===== src/JobStore/Latest.antt =====
-- `find_completed_by_url` of src/api/db.py finds the newest completed job of a user for a URL.
use extube.Prelude.{
  ◌≡◌, ◌⊎◌, inl, inr, String, Bool, true, ◌&&◌, Option, none, some, [], ◌∷◌, arith, refl, sym, ◌∙◌,
  keep, count, Bool-cases,
}
use extube.JobStore.{
  Job, Row, Table, insert_row, order_rows, newer, row_to_dict, is_completed_for,
  find_completed_by_url,
}
use extube.JobStore.Sorting.{IsOrder, IsOrdered, count-keep, count-order_rows, order_rows-IsOrdered}

abbrev pub In : Row → Table → Type 0
In r [] = ⊥
In r (s ∷ t) = (r ≡ s) ⊎ In r t

In-insert_row :
    (before : Row → Row → Bool) (r x : Row) (t : Table)
    → In r (insert_row before x t)
    → (r ≡ x) ⊎ In r t
unfolding insert_row
In-insert_row before r x [] h = h
In-insert_row before r x (s ∷ t) h = ground (arith, h, In-insert_row before r x t)

In-order_rows :
    (before : Row → Row → Bool) (r : Row) (t : Table) → In r (order_rows before t) → In r t
unfolding order_rows
In-order_rows before r [] h = h
In-order_rows before r (s ∷ t) h = elim (In-insert_row before r s (order_rows before t) h) [
  | inl e ↦ inl e
  | inr m ↦ inr (In-order_rows before r t m)
]

In-keep : (p : Row → Bool) (r : Row) (t : Table) → In r (keep p t) → In r t × (p r ≡ true)
In-keep p r [] h = elim h [ ]
In-keep p r (s ∷ t) h = elim (Bool-cases (p s)) [
  | inl e ↦ elim (rw e at h) [
    | inl same ↦ (inl same, rw same e)
    | inr m ↦ (inr (In-keep p r t m).0, (In-keep p r t m).1)
  ]
  | inr e ↦ (inr (In-keep p r t (rw e at h)).0, (In-keep p r t (rw e at h)).1)
]

newer-IsOrder : IsOrder newer
unfolding newer
newer-IsOrder = record { asymm = λ a b h. ground arith; negtrans = λ a b c h k. ground arith }

not_newer :
    (r : Row) (rest : Table)
    → count (λ s. newer s r) rest ≡ 0
    → count (λ s. newer s r) (r ∷ rest) ≡ 0
unfolding newer
not_newer r rest h = ground (arith, h)

count-and_true : (p : Row → Bool) (t : Table) → count (λ s. p s && true) t ≡ count p t
count-and_true p [] = refl
count-and_true p (s ∷ t) = ground (arith, count-and_true p t)

-- What the query promises of its answer.
abbrev pub IsLatest : String → String → Table → Option Job → Type 0
IsLatest url user_id t none = count (is_completed_for url user_id) t ≡ 0
IsLatest url user_id t (some job) =
    (r : Row) × (r.job ≡ job)
    × In r t
    × (is_completed_for url user_id r ≡ true)
    × (count (λ s. is_completed_for url user_id s && newer s r) t ≡ 0)

module _ (url user_id : String) (t : Table) where
  abbrev found : Table
  found = keep (is_completed_for url user_id) t

  abbrev pick : Table → Option Job
  pick [] = none
  pick (r ∷ rest) = some r.job

  found-IsLatest :
      (l : Table)
      → IsLatest url user_id t (pick l)
      → IsLatest url user_id t (elim l [ [] ↦ none | r ∷ rest ↦ some (row_to_dict r) ])
  unfolding row_to_dict
  found-IsLatest [] h = h
  found-IsLatest (r ∷ rest) h = h

  pick-IsLatest :
      (l : Table)
      → ((r : Row) → In r l → In r t × (is_completed_for url user_id r ≡ true))
      → ((p : Row → Bool) → count p l ≡ count (λ s. is_completed_for url user_id s && p s) t)
      → IsOrdered newer l
      → IsLatest url user_id t (pick l)
  pick-IsLatest [] rows counts o =
      sym (counts (λ _. true) ∙ count-and_true (is_completed_for url user_id) t)
  pick-IsLatest (r ∷ rest) rows counts o = (
    r,
    refl,
    (rows r (inl refl)).0,
    (rows r (inl refl)).1,
    sym (counts (λ s. newer s r)) ∙ not_newer r rest o.0,
  )

  -- The query finds nothing exactly if the user has no completed job for the URL, and else a job of
  -- such a row, with no such row created later.
  pub find_completed_by_url-IsLatest : IsLatest url user_id t (find_completed_by_url url user_id t)
  unfolding find_completed_by_url
  find_completed_by_url-IsLatest = found-IsLatest (order_rows newer found) (
      pick-IsLatest (order_rows newer found)
        (λ r m. In-keep (is_completed_for url user_id) r t (In-order_rows newer r found m))
        (λ p. count-order_rows newer p found ∙ count-keep p (is_completed_for url user_id) t)
        (order_rows-IsOrdered newer newer-IsOrder found))

-- ===== src/JobStore/Sorting.antt =====
-- `ORDER BY` in the queries of src/api/db.py: the order and the contents of what it returns.
use extube.Prelude.{
  suc, ◌≡◌, String, Bool, true, false, ◌&&◌, Option, [], ◌∷◌, arith, refl, ap, ◌∙◌, str_eq,
  if◌then◌else◌, keep, count, length, length-keep, Bool-cases, inl, inr,
}
use extube.Prelude.Text.{str_ltb_asymm, str_ltb_negtrans}
use extube.JobStore.{
  JobStatus, Row, Table, insert_row, order_rows, before_by, is_sort_column, matches, status_text,
  select,
}

-- A strict order whose ties are transitive.
pub record IsOrder (before : Row → Row → Bool) : Type 0 where
  pub asymm : (a b : Row) → before a b ≡ true → before b a ≡ false
  pub negtrans : (a b c : Row) → before b a ≡ false → before c b ≡ false → before c a ≡ false

-- No row belongs in front of one that stands before it.
abbrev pub IsOrdered : (Row → Row → Bool) → Table → Type 0
IsOrdered before [] = Unit
IsOrdered before (r ∷ t) = (count (λ s. before s r) t ≡ 0) × IsOrdered before t

pub before_by-IsOrder : (column : String) → IsOrder (before_by column)
unfolding before_by
before_by-IsOrder column = record {
  asymm = λ a b h. ground (
    arith,
    str_ltb_asymm (status_text a.status) (status_text b.status),
    str_ltb_asymm a.url b.url,
  );
  negtrans = λ a b c h k. ground (
    arith,
    str_ltb_negtrans (status_text a.status) (status_text b.status) (status_text c.status),
    str_ltb_negtrans a.url b.url c.url,
  );
}

pub flip-IsOrder : (before : Row → Row → Bool) → IsOrder before → IsOrder (λ a b. before b a)
flip-IsOrder before o = record {
  asymm = λ a b h. o.asymm b a h;
  negtrans = λ a b c h k. o.negtrans c b a k h;
}

module _ (before : Row → Row → Bool) where
  count-insert_row :
      (p : Row → Bool) (r : Row) (t : Table) → count p (insert_row before r t) ≡ count p (r ∷ t)
  unfolding insert_row
  count-insert_row p r [] = refl
  count-insert_row p r (s ∷ t) = ground (arith, count-insert_row p r t)

  -- Sorting keeps the rows.
  pub count-order_rows : (p : Row → Bool) (t : Table) → count p (order_rows before t) ≡ count p t
  unfolding order_rows
  count-order_rows p [] = refl
  count-order_rows p (r ∷ t) =
      count-insert_row p r (order_rows before t)
      ∙ ap (λ n. if p r then suc n else n) (count-order_rows p t)

  module _ (o : IsOrder before) where
    none_before :
        (r s : Row) (t : Table)
        → before s r ≡ false
        → count (λ u. before u s) t ≡ 0
        → count (λ u. before u r) t ≡ 0
    none_before r s [] h k = refl
    none_before r s (u ∷ t) h k = ground (arith, o.negtrans r s u, none_before r s t)

    insert_row-IsOrdered :
        (r : Row) (t : Table) → IsOrdered before t → IsOrdered before (insert_row before r t)
    unfolding insert_row
    insert_row-IsOrdered r [] h = (refl, tt)
    insert_row-IsOrdered r (s ∷ t) h = elim (Bool-cases (before s r)) [
      | inl e ↦ rw e (
        ground (arith, h.0, count-insert_row (λ u. before u s) r t, o.asymm s r),
        insert_row-IsOrdered r t h.1,
      )
      | inr e ↦ rw e (ground (arith, h.0, none_before r s t), h)
    ]

    pub order_rows-IsOrdered : (t : Table) → IsOrdered before (order_rows before t)
    unfolding order_rows
    order_rows-IsOrdered [] = tt
    order_rows-IsOrdered (r ∷ t) =
        insert_row-IsOrdered r (order_rows before t) (order_rows-IsOrdered t)

pub count-keep : (p q : Row → Bool) (t : Table) → count p (keep q t) ≡ count (λ r. q r && p r) t
count-keep p q [] = refl
count-keep p q (r ∷ t) = ground (arith, count-keep p q t)

-- The direction that `order` asks for, by the column that `sort_by` names if it is one of the three.
abbrev pub direction : String → String → Row → Row → Bool
direction sort_by order =
    let column = if is_sort_column sort_by then sort_by else "created_at" in
    if str_eq order "asc" then before_by column else (λ a b. before_by column b a)

-- A listing holds the rows that match, each as often as the table does, ascending if `order` is
-- `asc` and else descending, by the column asked for if it is a sort column and else by creation.
pub select-IsOrdered :
    (status : Option JobStatus) (user_id : Option String) (sort_by order : String) (t : Table)
    → IsOrdered (direction sort_by order) (select status user_id sort_by order t)
      × ((p : Row → Bool)
          → count p (select status user_id sort_by order t)
            ≡ count (λ r. matches status user_id r && p r) t)
unfolding select
select-IsOrdered status user_id sort_by order t = elim (Bool-cases (str_eq order "asc")) [
  | inl e ↦ rw e (
    order_rows-IsOrdered before (before_by-IsOrder column) found,
    λ p. count-order_rows before p found ∙ count-keep p (matches status user_id) t,
  )
  | inr e ↦ rw e (
    order_rows-IsOrdered (λ a b. before b a) (flip-IsOrder before (before_by-IsOrder column)) found,
    λ p. count-order_rows (λ a b. before b a) p found ∙ count-keep p (matches status user_id) t,
  )
]
  where
    column : String
    column = if is_sort_column sort_by then sort_by else "created_at"

    before : Row → Row → Bool
    before = before_by column

    found : Table
    found = keep (matches status user_id) t

length-insert_row :
    (before : Row → Row → Bool) (r : Row) (t : Table)
    → length (insert_row before r t) ≡ suc (length t)
unfolding insert_row
length-insert_row before r [] = refl
length-insert_row before r (s ∷ t) = ground (arith, length-insert_row before r t)

pub length-order_rows :
    (before : Row → Row → Bool) (t : Table) → length (order_rows before t) ≡ length t
unfolding order_rows
length-order_rows before [] = refl
length-order_rows before (r ∷ t) =
    length-insert_row before r (order_rows before t) ∙ ap suc (length-order_rows before t)

pub length-select :
    (status : Option JobStatus) (user_id : Option String) (sort_by order : String) (t : Table)
    → length (select status user_id sort_by order t) ≡ count (matches status user_id) t
unfolding select
length-select status user_id sort_by order t = elim (Bool-cases (str_eq order "asc")) [
  | inl e ↦ rw e (length-order_rows _ (keep (matches status user_id) t) ∙ length-keep _ t)
  | inr e ↦ rw e (length-order_rows _ (keep (matches status user_id) t) ∙ length-keep _ t)
]

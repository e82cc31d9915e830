-- ===== src/JobStore/Migration.antt =====
-- `_create_table` and `_migrate` of `JobStore` (src/api/db.py): the columns of the table `jobs`.
use extube.Prelude.{
  ◌≡◌, String, Bool, true, ◌||◌, List, [], ◌∷◌, ◌++◌, arith, refl, any, str_eq, eq_iff, eq_refl,
  Bool-cases, inl, inr, if◌then◌else◌,
}

-- The columns of a new table.
abbrev pub created_columns : List String
created_columns =
    "id" ∷ "status" ∷ "url" ∷ "error" ∷ "result" ∷ "ply_path" ∷ "dense_ply_path" ∷ "gs_splat_path"
    ∷ "potree_dir" ∷ "progress" ∷ "created_at" ∷ []

-- The columns that a table of an older version may lack.
abbrev pub later_columns : List String
later_columns =
    "progress" ∷ "dense_ply_path" ∷ "gs_splat_path" ∷ "potree_dir" ∷ "user_id" ∷ "retry_count"
    ∷ "params" ∷ []

abbrev pub has_column : String → List String → Bool
has_column column columns = any (str_eq column) columns

-- `columns` is read once, before the loop.
unfoldable pub add_missing : List String → List String → List String → List String
add_missing columns [] table = table
add_missing columns (column ∷ later) table =
    add_missing columns later (if has_column column columns then table else table ++ column ∷ [])

unfoldable pub migrate : List String → List String
unfolding add_missing
migrate columns = add_missing columns later_columns columns

-- With every column in place the loop adds nothing.
add_missing-same :
    (columns later table : List String)
    → ((column : String) → has_column column later ≡ true → has_column column columns ≡ true)
    → add_missing columns later table ≡ table
unfolding add_missing
add_missing-same columns [] table h = refl
add_missing-same columns (c ∷ later) table h =
    rw (h c (ground (arith, eq_refl c)))
      (add_missing-same columns later table (λ column k. h column (ground (arith, k))))

has_column-append :
    (column : String) (xs ys : List String)
    → has_column column (xs ++ ys) ≡ (has_column column xs || has_column column ys)
has_column-append column [] ys = ground arith
has_column-append column (x ∷ xs) ys = ground (arith, has_column-append column xs ys)

-- The loop keeps the columns that there are, and has the missing ones at its end.
has_column-add_missing :
    (columns later table : List String) (column : String)
    → ((c : String) → has_column c columns ≡ true → has_column c table ≡ true)
    → (has_column column table || has_column column later) ≡ true
    → has_column column (add_missing columns later table) ≡ true
unfolding add_missing
has_column-add_missing columns [] table column h k = ground (arith, k)
has_column-add_missing columns (c ∷ later) table column h k =
    elim (Bool-cases (has_column c columns)) [
      | inl there ↦ rw there (
          has_column-add_missing columns later table column h
            (ground (arith, k, h c there, eq_iff column c)))
      | inr lacks ↦ rw lacks (
          has_column-add_missing columns later (table ++ c ∷ []) column
            (λ d e. ground (arith, h d e, has_column-append d table (c ∷ [])))
            (ground (arith, k, has_column-append column table (c ∷ []))))
    ]

-- After a migration the table has each column that it had and each of the later ones, and another
-- migration changes nothing.
pub migrate-has_column :
    (columns : List String)
    → ((column : String)
        → (has_column column columns || has_column column later_columns) ≡ true
        → has_column column (migrate columns) ≡ true)
      × (migrate (migrate columns) ≡ migrate columns)
unfolding migrate
migrate-has_column columns =
    let all : (column : String)
        → (has_column column columns || has_column column later_columns) ≡ true
        → has_column column (migrate columns) ≡ true =
      λ column. has_column-add_missing columns later_columns columns column (λ c e. e) in
    (
      all,
      add_missing-same (migrate columns) later_columns (migrate columns) λ column e.
          all column (right (has_column column columns) (has_column column later_columns) e),
    )
  where
    right : (a b : Bool) → b ≡ true → (a || b) ≡ true
    right a b h = ground (arith, h)

-- A new table has every column after the migration.
all_columns : migrate created_columns ≡ created_columns ++ "user_id" ∷ "retry_count" ∷ "params" ∷ []
unfolding migrate
all_columns = refl

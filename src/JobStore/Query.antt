-- ===== src/JobStore/Query.antt =====
-- `WHERE`, `ORDER BY` and the sort columns of the queries on the table `jobs`.
use extube.Prelude.{
  String, Bool, true, false, ◌&&◌, ◌||◌, Option, none, some, [], ◌∷◌, ltb, str_eq, if◌then◌else◌,
}
use extube.Prelude.Text.{str_ltb}
use extube.JobStore.Rows.{JobStatus, status_eq, status_text, Row, Table}

-- `column = ?`; NULL equals nothing.
unfoldable pub owned_by : String → Row → Bool
owned_by user_id r = elim r.user_id [ none ↦ false | some u ↦ str_eq u user_id ]

-- The conditions that are given, joined by AND.
unfoldable pub matches : Option JobStatus → Option String → Row → Bool
unfolding owned_by status_eq
matches status user_id r =
    elim status [ none ↦ true | some s ↦ status_eq r.status s ]
    && elim user_id [ none ↦ true | some u ↦ owned_by u r ]

-- `_SORT_COLUMNS`
unfoldable pub is_sort_column : String → Bool
is_sort_column c = str_eq c "created_at" || str_eq c "status" || str_eq c "url"

unfoldable pub before_by : String → Row → Row → Bool
unfolding status_text str_ltb
before_by column a b =
    if str_eq column "status"
    then str_ltb (status_text a.status) (status_text b.status)
    else if str_eq column "url"
    then str_ltb a.url b.url
    else ltb a.created_at b.created_at

-- A stable sort; SQLite leaves the order of equal rows open.
unfoldable pub insert_row : (Row → Row → Bool) → Row → Table → Table
insert_row before r [] = r ∷ []
insert_row before r (s ∷ t) =
    let rest = insert_row before r t in if before s r then s ∷ rest else r ∷ s ∷ t

unfoldable pub order_rows : (Row → Row → Bool) → Table → Table
unfolding insert_row
order_rows before [] = []
order_rows before (r ∷ t) = insert_row before r (order_rows before t)

-- ===== src/JobStore/Keys.antt =====
-- The primary key of the table `jobs` of src/api/db.py.
use extube.Prelude.{
  ◌≡◌, String, true, false, List, [], ◌∷◌, ◌++◌, arith, refl, eq_iff, if◌then◌else◌, any,
  Bool-cases, inl, inr,
}
use extube.JobStore.{
  Job, Row, Table, has_id, new_job, any_refused, create, update_rows, update, delete, set_fields,
}
use extube.JobStore.Laws.{Op, creates, updates, deletes, perform, perform_all, set_fields-id}

-- No two rows have one id.
abbrev pub IsKeyed : Table → Type 0
IsKeyed [] = Unit
IsKeyed (r ∷ t) = (any (has_id r.id) t ≡ false) × IsKeyed t

any-append :
    (j : String) (t : Table) (r : Row)
    → any (has_id j) (t ++ r ∷ []) ≡ (if any (has_id j) t then true else has_id j r)
any-append j [] r = ground arith
any-append j (s ∷ t) r = ground (arith, any-append j t r)

IsKeyed-append :
    (t : Table) (r : Row) → any (has_id r.id) t ≡ false → IsKeyed t → IsKeyed (t ++ r ∷ [])
IsKeyed-append [] r h k = (refl, tt)
IsKeyed-append (s ∷ t) r h k = (
  unfold has_id in ground (arith, h, k.0, any-append s.id t r, eq_iff s.id r.id, eq_iff r.id s.id),
  IsKeyed-append t r (ground (arith, h)) k.1,
)

any-update_rows :
    (j k : String) (f : Job → Job) (t : Table)
    → ((job : Job) → (f job).id ≡ job.id)
    → any (has_id j) (update_rows (has_id k) f t) ≡ any (has_id j) t
unfolding update_rows has_id
any-update_rows j k f [] h = refl
any-update_rows j k f (s ∷ t) h = ground (arith, h s.job, any-update_rows j k f t h)

IsKeyed-update_rows :
    (k : String) (f : Job → Job) (t : Table)
    → ((job : Job) → (f job).id ≡ job.id)
    → IsKeyed t
    → IsKeyed (update_rows (has_id k) f t)
unfolding update_rows has_id
IsKeyed-update_rows k f [] h u = tt
IsKeyed-update_rows k f (s ∷ t) h u =
    (ground (arith, u.0, h s.job, any-update_rows s.id k f t h), IsKeyed-update_rows k f t h u.1)

any-delete :
    (j k : String) (t : Table) → any (has_id j) t ≡ false → any (has_id j) (delete k t).0 ≡ false
unfolding delete
any-delete j k [] h = refl
any-delete j k (s ∷ t) h = ground (arith, any-delete j k t)

IsKeyed-delete : (k : String) (t : Table) → IsKeyed t → IsKeyed (delete k t).0
unfolding delete
IsKeyed-delete k [] u = tt
IsKeyed-delete k (s ∷ t) u = elim (Bool-cases (has_id k s)) [
  | inl e ↦ rw e (IsKeyed-delete k t u.1)
  | inr e ↦ rw e (any-delete s.id k t u.0, IsKeyed-delete k t u.1)
]

perform-IsKeyed : (o : Op) (t : Table) → IsKeyed t → IsKeyed (perform o t)
unfolding perform create update
perform-IsKeyed (creates k s url u now) t h = elim (Bool-cases (any (has_id k) t)) [
  | inl e ↦ rw e h
  | inr e ↦ rw e (IsKeyed-append t (record { job = new_job k s url u; created_at = now }) e h)
]
perform-IsKeyed (updates k []) t h = h
perform-IsKeyed (updates k (f ∷ fs)) t h = elim (Bool-cases (any_refused (f ∷ fs))) [
  | inl e ↦ rw e h
  | inr e ↦ rw e (IsKeyed-update_rows k (set_fields (f ∷ fs)) t (set_fields-id (f ∷ fs)) h)
]
perform-IsKeyed (deletes k) t h = IsKeyed-delete k t h

-- No two rows have one id after any operations, if none had before.
pub perform_all-IsKeyed : (os : List Op) (t : Table) → IsKeyed t → IsKeyed (perform_all os t)
unfolding perform_all
perform_all-IsKeyed [] t h = h
perform_all-IsKeyed (o ∷ os) t h = perform_all-IsKeyed os (perform o t) (perform-IsKeyed o t h)

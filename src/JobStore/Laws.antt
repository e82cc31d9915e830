-- ===== src/JobStore/Laws.antt =====
-- `create`, `update`, `delete` and `get` of src/api/db.py over any history: the table is a map from
-- job ids to jobs.
use extube.Prelude.{
  ℕ, ◌≡◌, String, true, false, Option, none, some, List, [], ◌∷◌, ◌++◌, arith, refl, ap, ◌∙◌,
  str_eq, eq_iff, if◌then◌else◌, any, first, Bool-cases, inl, inr,
}
use extube.JobStore.{
  JobStatus, Job, Row, Table, Field, Result, ok, err, set_field, set_fields, has_id, new_job,
  any_refused, create, get, update_rows, update, delete,
}

pub data Op : Type 0 where
  creates : String → JobStatus → String → Option String → ℕ → Op
  updates : String → List Field → Op
  deletes : String → Op

abbrev pub created : Result (Table × Job) → Table → Table
created (ok (t', job)) t = t'
created (err e) t = t

abbrev pub updated : Result Table → Table → Table
updated (ok t') t = t'
updated (err e) t = t

-- A method that raises leaves the table as it was.
unfoldable pub perform : Op → Table → Table
perform (creates k s url u now) t = created (create k s url u now t) t
perform (updates k fields) t = updated (update k fields t) t
perform (deletes k) t = (delete k t).0

unfoldable pub perform_all : List Op → Table → Table
unfolding perform
perform_all [] t = t
perform_all (o ∷ os) t = perform_all os (perform o t)

abbrev pub target : Op → String
target (creates k s url u now) = k
target (updates k fields) = k
target (deletes k) = k

-- The contract: what an operation makes of the job with its id, if there is one.
abbrev pub move : Op → Option Job → Option Job
move (creates k s url u now) none = some (new_job k s url u)
move (creates k s url u now) (some job) = some job
move (updates k fields) none = none
move (updates k fields) (some job) =
    if any_refused fields then some job else some (set_fields fields job)
move (deletes k) o = none

abbrev pub follow : String → List Op → Option Job → Option Job
follow j [] o = o
follow j (p ∷ ps) o = follow j ps (if str_eq (target p) j then move p o else o)

set_field-id : (f : Field) (job : Job) → (set_field f job).id ≡ job.id
unfolding set_field
set_field-id (Field.status x) job = refl
set_field-id _ job = refl

pub set_fields-id : (fs : List Field) (job : Job) → (set_fields fs job).id ≡ job.id
unfolding set_fields
set_fields-id [] job = refl
set_fields-id (f ∷ fs) job = set_fields-id fs (set_field f job) ∙ set_field-id f job

module _ (j : String) where
  pub first-append :
      (t : Table) (r : Row)
      → first (has_id j) (t ++ r ∷ [])
        ≡ (if any (has_id j) t then first (has_id j) t else (if has_id j r then some r else none))
  first-append [] r = ground arith
  first-append (s ∷ t) r = ground (arith, first-append t r)

  pub any-none : (t : Table) → any (has_id j) t ≡ false → first (has_id j) t ≡ none
  any-none [] h = refl
  any-none (s ∷ t) h = ground (arith, any-none t)

  -- The first row with the id, and whether there is one.
  pub any-first :
      (t : Table) → any (has_id j) t ≡ elim (first (has_id j) t) [ none ↦ false | some r ↦ true ]
  any-first [] = refl
  any-first (s ∷ t) = ground (arith, any-first t)

  get-create :
      (k : String) (s : JobStatus) (url : String) (u : Option String) (now : ℕ) (t : Table)
      → get j (created (create k s url u now t) t)
        ≡ (if str_eq k j then move (creates k s url u now) (get j t) else get j t)
  unfolding create get
  get-create k s url u now t = ground (
    arith,
    eq_iff k j,
    any-first t,
    first-append t (record { job = new_job k s url u; created_at = now }),
  )

  first-update_rows :
      (k : String) (f : Job → Job) (t : Table)
      → ((job : Job) → (f job).id ≡ job.id)
      → get j (update_rows (has_id k) f t)
        ≡ (if str_eq k j then elim (get j t) [ none ↦ none | some job ↦ some (f job) ] else get j t)
  unfolding update_rows get
  first-update_rows k f [] h = ground arith
  first-update_rows k f (s ∷ t) h =
      ground (arith, eq_iff k j, eq_iff s.id k, eq_iff s.id j, h s.job, first-update_rows k f t h)

  first-delete :
      (k : String) (t : Table) → get j (delete k t).0 ≡ (if str_eq k j then none else get j t)
  unfolding delete get
  first-delete k [] = ground arith
  first-delete k (s ∷ t) =
      ground (arith, eq_iff k j, eq_iff s.id k, eq_iff s.id j, first-delete k t)

  pub get-update :
      (k : String) (fields : List Field) (t : Table)
      → get j (updated (update k fields t) t)
        ≡ (if str_eq k j then move (updates k fields) (get j t) else get j t)
  unfolding update
  get-update k [] t = ground (arith, same (get j t))
    where
      same : (o : Option Job) → move (updates k []) o ≡ o
      same none = refl
      same (some job) = refl
  get-update k (f ∷ fs) t = elim (Bool-cases (any_refused (f ∷ fs))) [
    | inl refused ↦ rw refused (ground (arith, refused, same (get j t) refused))
    | inr allowed ↦ rw allowed (
        first-update_rows k (set_fields (f ∷ fs)) t (set_fields-id (f ∷ fs))
        ∙ ap (λ x. if str_eq k j then x else get j t) (changed (get j t) allowed))
  ]
    where
      same : (o : Option Job) → any_refused (f ∷ fs) ≡ true → move (updates k (f ∷ fs)) o ≡ o
      same none e = refl
      same (some job) e = rw e refl

      changed :
          (o : Option Job)
          → any_refused (f ∷ fs) ≡ false
          → elim o [ none ↦ none | some job ↦ some (set_fields (f ∷ fs) job) ]
            ≡ move (updates k (f ∷ fs)) o
      changed none e = refl
      changed (some job) e = rw e refl

  pub get-perform :
      (o : Op) (t : Table)
      → get j (perform o t) ≡ (if str_eq (target o) j then move o (get j t) else get j t)
  unfolding perform
  get-perform (creates k s url u now) t = get-create k s url u now t
  get-perform (updates k fields) t = get-update k fields t
  get-perform (deletes k) t = first-delete k t

  -- After any operations, in any order and failing or not, `get` finds for an id what the contract
  -- says: the operations on that id alone, a `create` if there was no such job, an `update` of the
  -- fields it names if all are allowed, and a `delete`.
  pub get-perform_all :
      (os : List Op) (t : Table) → get j (perform_all os t) ≡ follow j os (get j t)
  unfolding perform_all
  get-perform_all [] t = refl
  get-perform_all (o ∷ os) t = get-perform_all os (perform o t) ∙ ap (follow j os) (get-perform o t)

-- ===== src/Cleanup/Expiry.antt =====
-- What `cleanup_expired_results` (src/api/cleanup.py) deletes.
use extube.Prelude.{
  ℕ, ◌≡◌, String, Bool, true, false, some, Bool-cases, inl, inr, ◌&&◌, ◌||◌, Option, none, List, [],
  ◌∷◌, arith, refl, ap, ◌∙◌, any, keep, count, length, str_eq, eq_iff, if◌then◌else◌,
}
use extube.JobStore
use extube.JobStore.{
  Row, Table, get_completed_jobs_older_than, delete, has_id, is_older, status_eq, completed, Job,
}
use extube.JobStore.Laws.{deletes, get-perform, perform}
use extube.Cleanup.{Disk, Rmtree, expire_rows, cleanup_expired_results, remove_dir}

-- The contract: the job with an id is gone exactly if one of the rows to delete has the id.
get-expire_rows :
    (rmtree : Rmtree) (j : String) (rows : List Row) (t : Table) (disk : Disk)
    → JobStore.get j (expire_rows rmtree rows t disk).0.0
      ≡ (if any (has_id j) rows then none else JobStore.get j t)
unfolding expire_rows has_id perform
get-expire_rows rmtree j [] t disk = refl
get-expire_rows rmtree j (r ∷ rows) t disk = ground (
  arith,
  eq_iff r.id j,
  get-perform j (deletes r.id) t,
  get-expire_rows rmtree j rows (delete r.id t).0 (remove_dir rmtree r.id disk),
)

abbrev pub has_dir : String → Disk → Bool
has_dir j disk = any (λ d. str_eq d.0 j) disk

abbrev pub is_left : Option (List String) → Bool
is_left none = false
is_left (some left) = true

-- Whether `rmtree` fails to remove the directory of a job.
abbrev pub resists : Rmtree → String → Bool
resists rmtree j = is_left (rmtree j)

-- Whether a job has a directory after `rmtree`, if it was called on it.
abbrev pub after_rmtree : Rmtree → String → Disk → Bool → Bool
after_rmtree rmtree j disk called =
    if called then has_dir j disk && resists rmtree j else has_dir j disk

-- One entry of the disk, whose directory is removed or left.
has_dir-left :
    (rmtree : Rmtree) (j i : String) (rest : Disk) (o : Option (List String))
    → rmtree i ≡ o
    → has_dir j (elim o as (λ _. Disk) [ none ↦ rest | some left ↦ (i, left) ∷ rest ])
      ≡ ((str_eq i j && resists rmtree i) || has_dir j rest)
has_dir-left rmtree j i rest none e =
    let gone : resists rmtree i ≡ false = ap is_left e in ground (arith, gone)
has_dir-left rmtree j i rest (some left) e =
    let stays : resists rmtree i ≡ true = ap is_left e in ground (arith, stays)

resists-same :
    (rmtree : Rmtree) (i j : String) → str_eq i j ≡ true → resists rmtree i ≡ resists rmtree j
resists-same rmtree i j e = ap (resists rmtree) ((eq_iff i j).0 e)

pub has_dir-remove_dir :
    (rmtree : Rmtree) (j k : String) (disk : Disk)
    → has_dir j (remove_dir rmtree k disk) ≡ after_rmtree rmtree j disk (str_eq k j)
unfolding remove_dir
has_dir-remove_dir rmtree j k [] = ground arith
has_dir-remove_dir rmtree j k ((i, paths) ∷ disk) = elim (Bool-cases (str_eq i k)) [
  | inl hit ↦ rw hit (
      has_dir-left rmtree j i (remove_dir rmtree k disk) (rmtree i) refl
      ∙ ground (
        arith,
        hit,
        eq_iff i k,
        eq_iff k j,
        eq_iff i j,
        resists-same rmtree i j,
        has_dir-remove_dir rmtree j k disk,
      ))
  | inr miss ↦
      rw miss (
        ground
          (arith, miss, eq_iff i k, eq_iff k j, eq_iff i j, has_dir-remove_dir rmtree j k disk))
]

has_dir-expire_rows :
    (rmtree : Rmtree) (j : String) (rows : List Row) (t : Table) (disk : Disk)
    → has_dir j (expire_rows rmtree rows t disk).0.1
      ≡ after_rmtree rmtree j disk (any (has_id j) rows)
unfolding expire_rows has_id
has_dir-expire_rows rmtree j [] t disk = refl
has_dir-expire_rows rmtree j (r ∷ rows) t disk = ground (
  arith,
  eq_iff r.id j,
  has_dir-remove_dir rmtree j r.id disk,
  has_dir-expire_rows rmtree j rows (delete r.id t).0 (remove_dir rmtree r.id disk),
)

length-expire_rows :
    (rmtree : Rmtree) (rows : List Row) (t : Table) (disk : Disk)
    → (expire_rows rmtree rows t disk).1 ≡ length rows
unfolding expire_rows
length-expire_rows rmtree [] t disk = refl
length-expire_rows rmtree (r ∷ rows) t disk =
    ground (arith, length-expire_rows rmtree rows (delete r.id t).0 (remove_dir rmtree r.id disk))

-- A completed row that is older than the time to live.
abbrev pub is_expired : ℕ → ℕ → Row → Bool
is_expired now ttl r = status_eq r.status completed && is_older now ttl r

pub any-keep : (p q : Row → Bool) (t : Table) → any q (keep p t) ≡ any (λ r. p r && q r) t
any-keep p q [] = refl
any-keep p q (r ∷ t) = ground (arith, any-keep p q t)

length-keep : (p : Row → Bool) (t : Table) → length (keep p t) ≡ count p t
length-keep p [] = refl
length-keep p (r ∷ t) = ground (arith, length-keep p t)

-- For every id: if a completed row with the id is older than `ttl`, the job is gone, and its
-- directory too unless `rmtree` fails on it, in which case the directory stays without its job;
-- otherwise both are as they were. The answer is the number of such rows.
pub cleanup_expired_results-is_expired :
    (rmtree : Rmtree) (now ttl : ℕ) (t : Table) (disk : Disk)
    → ((j : String)
        → (JobStore.get j (cleanup_expired_results rmtree now ttl t disk).0.0
            ≡ (if any (λ r. is_expired now ttl r && has_id j r) t then none else JobStore.get j t))
          × (has_dir j (cleanup_expired_results rmtree now ttl t disk).0.1
              ≡ after_rmtree rmtree j disk (any (λ r. is_expired now ttl r && has_id j r) t)))
      × ((cleanup_expired_results rmtree now ttl t disk).1 ≡ count (is_expired now ttl) t)
unfolding cleanup_expired_results get_completed_jobs_older_than
cleanup_expired_results-is_expired rmtree now ttl t disk = (
  λ j. (
    get-expire_rows rmtree j _ t disk
        ∙ ap (λ b. if b then none else JobStore.get j t)
            (any-keep (is_expired now ttl) (has_id j) t),
    has_dir-expire_rows rmtree j _ t disk
        ∙ ap (after_rmtree rmtree j disk) (any-keep (is_expired now ttl) (has_id j) t),
  ),
  length-expire_rows rmtree _ t disk ∙ length-keep (is_expired now ttl) t,
)

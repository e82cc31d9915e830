-- ===== src/Storage/Usage.antt =====
-- What the deletion of a job does to the storage that users are told of.
use extube.Prelude.{
  ℕ, ◌+◌, ◌*◌, ◌≡◌, ◌≤◌, String, Bool, true, false, ◌&&◌, Option, none, some, List, [], ◌∷◌, any,
  keep, str_eq, eq_iff, Bool-cases, inl, inr, arith, refl, sym, ap, ◌∙◌, if◌then◌else◌,
}
use extube.JobStore.{Row, Table, has_id, owned_by, delete}
use extube.JobStore.Keys.{IsKeyed}
use extube.Storage.{
  Disk, directory, sum, add_directory, measure, hundredths, get_user_storage_usage,
}

-- `shutil.rmtree` on the directory of a job.
abbrev pub remove_dir : String → Disk → Disk
remove_dir job_id disk = keep (λ d. if str_eq d.0 job_id then false else true) disk

directory-remove_dir :
    (i j : String) (disk : Disk)
    → directory i (remove_dir j disk) ≡ (if str_eq i j then none else directory i disk)
unfolding directory
directory-remove_dir i j [] = ground arith
directory-remove_dir i j ((k, sizes) ∷ disk) =
    ground (arith, eq_iff k j, eq_iff k i, eq_iff i j, directory-remove_dir i j disk)

-- The bytes, and the count, of one directory.
abbrev pub size_of : Option (List ℕ) → ℕ × ℕ
size_of none = (0, 0)
size_of (some sizes) = (sum sizes, 1)

measure-cons :
    (r : Row) (rows : List Row) (disk : Disk)
    → ((measure (r ∷ rows) disk).0 ≡ (size_of (directory r.id disk)).0 + (measure rows disk).0)
      × ((measure (r ∷ rows) disk).1 ≡ (size_of (directory r.id disk)).1 + (measure rows disk).1)
unfolding measure
measure-cons r rows disk = of_directory (directory r.id disk) (measure rows disk)
  where
    of_directory :
        (o : Option (List ℕ)) (rest : ℕ × ℕ)
        → ((add_directory o rest).0 ≡ (size_of o).0 + rest.0)
          × ((add_directory o rest).1 ≡ (size_of o).1 + rest.1)
    of_directory none rest = (omega arith, omega arith)
    of_directory (some sizes) (m, n) = (refl, refl)

abbrev pub owns : String → String → Table → Bool
owns u j t = any (λ r. owned_by u r && has_id j r) t

-- The directory of a job, if it is one of the user's.
abbrev pub share : Bool → Option (List ℕ) → ℕ × ℕ
share owned o = if owned then size_of o else (0, 0)

module _ (u j : String) (disk : Disk) where
  -- Two measurements, the second without the job.
  abbrev Splits : Table → Type 0
  Splits t =
      let before = measure (keep (owned_by u) t) disk in
      let after = measure (keep (owned_by u) (delete j t).0) (remove_dir j disk) in
      let part = share (owns u j t) (directory j disk) in
      (before.0 ≡ after.0 + part.0) × (before.1 ≡ after.1 + part.1)

  abbrev left : Table → List Row
  left t = keep (owned_by u) (delete j t).0

  -- Where no row has the id, nothing is split off.
  unowned : (t : Table) → any (has_id j) t ≡ false → owns u j t ≡ false
  unowned [] h = refl
  unowned (r ∷ t) h = ground (arith, h, unowned t)

  absent-Splits :
      (t : Table)
      → any (has_id j) t ≡ false
      → Splits t
      → ((measure (keep (owned_by u) t) disk).0 ≡ (measure (left t) (remove_dir j disk)).0)
        × ((measure (keep (owned_by u) t) disk).1 ≡ (measure (left t) (remove_dir j disk)).1)
  absent-Splits t h s =
      let none_split : (share (owns u j t) (directory j disk)) ≡ (0, 0) = rw (unowned t h) refl in
      (omega (arith, s.0, ap (λ x. x.0) none_split), omega (arith, s.1, ap (λ x. x.1) none_split))

  directory_kept :
      (r : Row) → has_id j r ≡ false → directory r.id (remove_dir j disk) ≡ directory r.id disk
  unfolding has_id
  directory_kept r other = directory-remove_dir r.id j disk ∙ rw other refl

  measure-delete : (t : Table) → IsKeyed t → Splits t
  unfolding delete measure
  measure-delete [] k = (omega arith, omega arith)
  measure-delete (r ∷ t) k = elim (Bool-cases (has_id j r)) [
    | inl same ↦
        let e : r.id ≡ j = (eq_iff r.id j).0 (unfold has_id in same) in
        let rest =
          absent-Splits t (ap (λ i. any (has_id i) t) (sym e) ∙ k.0) (measure-delete t k.1) in
        elim (Bool-cases (owned_by u r)) [
          | inl mine ↦
              let here = measure-cons r (keep (owned_by u) t) disk in
              let dir = ap (λ i. size_of (directory i disk)) e in
              rw (same, mine)
                (
                  omega (arith, here.0, rest.0, ap (λ x. x.0) dir),
                  omega (arith, here.1, rest.1, ap (λ x. x.1) dir),
                )
          | inr foreign ↦
              rw (same, foreign, unowned t (ap (λ i. any (has_id i) t) (sym e) ∙ k.0))
                (omega (arith, rest.0), omega (arith, rest.1))
        ]
    | inr other ↦ elim (Bool-cases (owned_by u r)) [
      | inl mine ↦
          let before = measure-cons r (keep (owned_by u) t) disk in
          let after = measure-cons r (left t) (remove_dir j disk) in
          let dir = ap size_of (directory_kept r other) in
          let rest = measure-delete t k.1 in
          rw (other, mine)
            (
              omega (arith, before.0, after.0, rest.0, ap (λ x. x.0) dir),
              omega (arith, before.1, after.1, rest.1, ap (λ x. x.1) dir),
            )
      | inr foreign ↦ rw (other, foreign) (measure-delete t k.1)
    ]
  ]

-- So many hundredths of a megabyte are as near to so many bytes as any.
abbrev pub IsNearest : ℕ → ℕ → Type 0
IsNearest n h =
    (n * 100 * 2 ≤ h * 1048576 * 2 + 1048576) × (h * 1048576 * 2 ≤ n * 100 * 2 + 1048576)

hundredths-IsNearest : (n : ℕ) → IsNearest n (hundredths n)
unfolding hundredths
hundredths-IsNearest n = (ground arith, ground arith)

-- In a table in which no two rows have one id, the deletion of a job with its directory takes from
-- the storage of a user exactly the bytes of that directory, and one from the count of jobs, if the
-- job is the user's and has a directory, and nothing otherwise; and the megabytes that are reported
-- are the bytes to the nearest hundredth.
pub get_user_storage_usage-delete :
    (u j : String) (t : Table) (disk : Disk)
    → IsKeyed t
    → ((get_user_storage_usage u t disk).total_bytes
        ≡ (get_user_storage_usage u (delete j t).0 (remove_dir j disk)).total_bytes
          + (share (owns u j t) (directory j disk)).0)
      × ((get_user_storage_usage u t disk).job_count
          ≡ (get_user_storage_usage u (delete j t).0 (remove_dir j disk)).job_count
            + (share (owns u j t) (directory j disk)).1)
      × IsNearest
          (get_user_storage_usage u t disk).total_bytes
          (get_user_storage_usage u t disk).total_mb
unfolding get_user_storage_usage
get_user_storage_usage-delete u j t disk k =
    let splits = measure-delete u j disk t k in
    (splits.0, splits.1, hundredths-IsNearest (measure (keep (owned_by u) t) disk).0)

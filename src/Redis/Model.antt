-- ===== src/Redis/Model.antt =====
-- A small database that meets the laws of Redis.
use extube.Prelude.{
  ℕ, ◌≡◌, String, true, false, inl, inr, List, [], ◌∷◌, length, str_eq, eq_iff, if◌then◌else◌, refl,
  arith, Bool-cases,
}
use extube.Prelude.Dict
use extube.Prelude.Dict.{Dict, get_or-put, get_or-remove}
use extube.Redis.{
  Redis, is_member, ZSet, erase, rank_insert, index, contains, Sorted, Distinct, contains-erase,
  Sorted-erase, Sorted-rank_insert, Distinct-erase, Distinct-rank_insert,
}

-- A sorted set with its order.
pub record SortedSet : Type 0 where
  pub entries : ZSet
  pub sorted : Sorted entries
  pub distinct : Distinct entries

pub record Data (Value : Type 0) : Type 0 where
  pub zsets : Dict SortedSet
  pub sets : Dict (List String)
  pub values : Dict Value

abbrev pub no_entries : SortedSet
no_entries = record { entries = []; sorted = tt; distinct = tt }

abbrev pub with_entry : String → ℕ → SortedSet → SortedSet
with_entry m s z = record {
  entries = rank_insert m s (erase m z.entries);
  sorted = Sorted-rank_insert m s _ (Sorted-erase m _ z.sorted);
  distinct =
      Distinct-rank_insert m s _ (contains-erase m z.entries) (Distinct-erase m _ z.distinct);
}

abbrev pub without_entry : String → SortedSet → SortedSet
without_entry m z = record {
  entries = erase m z.entries;
  sorted = Sorted-erase m _ z.sorted;
  distinct = Distinct-erase m _ z.distinct;
}

abbrev pub with_member : String → List String → List String
with_member m l = if is_member m l then l else m ∷ l

abbrev pub without_member : String → List String → List String
without_member m [] = []
without_member m (n ∷ l) = let rest = without_member m l in if str_eq n m then rest else n ∷ rest

with_member_lem :
    (m n : String) (l : List String)
    → is_member n (with_member m l) ≡ (if str_eq m n then true else is_member n l)
with_member_lem m n l = elim (Bool-cases (is_member m l)) [
  | inl e ↦ rw e (ground (arith, eq_iff m n))
  | inr e ↦ rw e (ground arith)
]

without_member_lem :
    (m n : String) (l : List String)
    → is_member n (without_member m l) ≡ (if str_eq m n then false else is_member n l)
without_member_lem m n [] = ground arith
without_member_lem m n (o ∷ l) =
    ground (arith, without_member_lem m n l, eq_iff m n, eq_iff o m, eq_iff o n)

module _ {Value : Type 0} where
  abbrev pub zset : String → Data Value → SortedSet
  zset k db = Dict.get_or no_entries k db.zsets

  abbrev pub members : String → Data Value → List String
  members k db = Dict.get_or [] k db.sets

  abbrev pub put_zset : String → SortedSet → Data Value → Data Value
  put_zset k z db = record db { zsets = Dict.put k z db.zsets }

  abbrev pub put_set : String → List String → Data Value → Data Value
  put_set k l db = record db { sets = Dict.put k l db.sets }

  abbrev pub delete : String → Data Value → Data Value
  delete k db = record {
    zsets = Dict.remove k db.zsets;
    sets = Dict.remove k db.sets;
    values = Dict.remove k db.values;
  }

  pub entries-put_zset :
      (k j : String) (z : SortedSet) (db : Data Value)
      → (zset j (put_zset k z db)).entries ≡ (if str_eq k j then z.entries else (zset j db).entries)
  entries-put_zset k j z db = rw (get_or-put no_entries k j z db.zsets) (ground arith)

  pub entries-zadd :
      (k j m : String) (s : ℕ) (db : Data Value)
      → (zset j (put_zset k (with_entry m s (zset k db)) db)).entries ≡ (
          if str_eq k j then rank_insert m s (erase m (zset j db).entries) else (zset j db).entries)
  entries-zadd k j m s db =
      ground (arith, entries-put_zset k j (with_entry m s (zset k db)) db, eq_iff k j)

  pub entries-zrem :
      (k j m : String) (db : Data Value)
      → (zset j (put_zset k (without_entry m (zset k db)) db)).entries
        ≡ (if str_eq k j then erase m (zset j db).entries else (zset j db).entries)
  entries-zrem k j m db =
      ground (arith, entries-put_zset k j (without_entry m (zset k db)) db, eq_iff k j)

  pub members-sadd :
      (k j m n : String) (db : Data Value)
      → is_member n (members j (put_set k (with_member m (members k db)) db)) ≡ (
          if str_eq k j
          then (if str_eq m n then true else is_member n (members j db))
          else is_member n (members j db))
  members-sadd k j m n db = ground (
    arith,
    get_or-put [] k j (with_member m (members k db)) db.sets,
    with_member_lem m n (members k db),
    eq_iff k j,
  )

  pub members-srem :
      (k j m n : String) (db : Data Value)
      → is_member n (members j (put_set k (without_member m (members k db)) db)) ≡ (
          if str_eq k j
          then (if str_eq m n then false else is_member n (members j db))
          else is_member n (members j db))
  members-srem k j m n db = ground (
    arith,
    get_or-put [] k j (without_member m (members k db)) db.sets,
    without_member_lem m n (members k db),
    eq_iff k j,
  )

  pub entries-delete :
      (k j : String) (db : Data Value)
      → str_eq k j ≡ false
      → (zset j (delete k db)).entries ≡ (zset j db).entries
  entries-delete k j db h = rw (get_or-remove no_entries k j db.zsets) (rw h refl)

  pub members-delete :
      (k j : String) (db : Data Value) → str_eq k j ≡ false → members j (delete k db) ≡ members j db
  members-delete k j db h = rw (get_or-remove [] k j db.sets) (rw h refl)

abbrev pub redis_model : (Value : Type 0) → Redis Value
redis_model Value = record {
  Db = Data Value;
  zadd = λ k s m db. put_zset k (with_entry m s (zset k db)) db;
  zrem = λ k m db. (
    put_zset k (without_entry m (zset k db)) db,
    if contains m (zset k db).entries then 1 else 0,
  );
  zrank = λ k m db. index m (zset k db).entries;
  zcard = λ k db. length (zset k db).entries;
  zrange = λ k db. (zset k db).entries;
  sadd = λ k m db. put_set k (with_member m (members k db)) db;
  srem = λ k m db.
      (put_set k (without_member m (members k db)) db, if is_member m (members k db) then 1 else 0);
  smembers = members;
  set = λ k v ex db. record db { values = Dict.put k v db.values };
  delete = delete;
  zrange-Sorted = λ k db. (zset k db).sorted;
  zrange-Distinct = λ k db. (zset k db).distinct;
  zrank_lem = λ k m db. refl;
  zcard_lem = λ k db. refl;
  zrange-zadd = entries-zadd;
  zrange-zrem = entries-zrem;
  zrem_count = λ k m db. refl;
  zrange-sadd = λ k j m db h. refl;
  zrange-srem = λ k j m db h. refl;
  zrange-set = λ k j v ex db h. refl;
  zrange-delete = entries-delete;
  smembers-sadd = members-sadd;
  smembers-srem = members-srem;
  srem_count = λ k m db. refl;
  smembers-zadd = λ k j m s db h. refl;
  smembers-zrem = λ k j m db h. refl;
  smembers-set = λ k j v ex db h. refl;
  smembers-delete = members-delete;
}

abbrev pub no_data : (Value : Type 0) → Data Value
no_data Value = record { zsets = []; sets = []; values = [] }

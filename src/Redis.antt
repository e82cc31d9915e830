-- ===== src/Redis.antt =====
-- What src/api/queue_manager.py relies on of Redis, a service that the repository does not hold:
-- the commands that it sends, and their documented effect on the sorted sets and the sets that it
-- reads back. The code uses each key with one type of value, so a law about two keys asks that
-- they differ. Model has an instance.
mod Ranks
unfoldable pub use Ranks.{ZSet, erase, rank_insert, index, is_before, contains, Sorted, Distinct}
pub use Ranks.{index-rank_insert, contains-erase, contains-erase_ne, contains-rank_insert}
pub use Ranks.{Sorted-erase, Sorted-rank_insert, Distinct-erase, Distinct-rank_insert}
pub mod Model
use extube.Prelude.{
  ℕ, ◌≡◌, String, Bool, true, false, Option, List, length, any, str_eq, if◌then◌else◌,
}

abbrev pub is_member : String → List String → Bool
is_member m = any (λ n. str_eq n m)

-- `Value` is what `SET` stores; `delete` and `set` are the commands on such keys.
pub record Redis (Value : Type 0) : Type 1 where
  pub Db : Type 0
  pub zadd : String → ℕ → String → Db → Db
  pub zrem : String → String → Db → Db × ℕ
  pub zrank : String → String → Db → Option ℕ
  pub zcard : String → Db → ℕ
  pub zrange : String → Db → ZSet
  pub sadd : String → String → Db → Db
  pub srem : String → String → Db → Db × ℕ
  pub smembers : String → Db → List String
  pub set : String → Value → ℕ → Db → Db
  pub delete : String → Db → Db
  pub zrange-Sorted : (k : String) (db : Db) → Sorted (zrange k db)
  pub zrange-Distinct : (k : String) (db : Db) → Distinct (zrange k db)
  pub zrank_lem : (k m : String) (db : Db) → zrank k m db ≡ index m (zrange k db)
  pub zcard_lem : (k : String) (db : Db) → zcard k db ≡ length (zrange k db)
  pub zrange-zadd :
      (k j m : String) (s : ℕ) (db : Db)
      → zrange j (zadd k s m db)
        ≡ (if str_eq k j then rank_insert m s (erase m (zrange j db)) else zrange j db)
  pub zrange-zrem :
      (k j m : String) (db : Db)
      → zrange j (zrem k m db).0 ≡ (if str_eq k j then erase m (zrange j db) else zrange j db)
  pub zrem_count :
      (k m : String) (db : Db) → (zrem k m db).1 ≡ (if contains m (zrange k db) then 1 else 0)
  pub zrange-sadd :
      (k j m : String) (db : Db) → str_eq k j ≡ false → zrange j (sadd k m db) ≡ zrange j db
  pub zrange-srem :
      (k j m : String) (db : Db) → str_eq k j ≡ false → zrange j (srem k m db).0 ≡ zrange j db
  pub zrange-set :
      (k j : String) (v : Value) (ex : ℕ) (db : Db)
      → str_eq k j ≡ false
      → zrange j (set k v ex db) ≡ zrange j db
  pub zrange-delete :
      (k j : String) (db : Db) → str_eq k j ≡ false → zrange j (delete k db) ≡ zrange j db
  pub smembers-sadd :
      (k j m n : String) (db : Db)
      → is_member n (smembers j (sadd k m db)) ≡ (
          if str_eq k j
          then (if str_eq m n then true else is_member n (smembers j db))
          else is_member n (smembers j db))
  pub smembers-srem :
      (k j m n : String) (db : Db)
      → is_member n (smembers j (srem k m db).0) ≡ (
          if str_eq k j
          then (if str_eq m n then false else is_member n (smembers j db))
          else is_member n (smembers j db))
  pub srem_count :
      (k m : String) (db : Db) → (srem k m db).1 ≡ (if is_member m (smembers k db) then 1 else 0)
  pub smembers-zadd :
      (k j m : String) (s : ℕ) (db : Db)
      → str_eq k j ≡ false
      → smembers j (zadd k s m db) ≡ smembers j db
  pub smembers-zrem :
      (k j m : String) (db : Db) → str_eq k j ≡ false → smembers j (zrem k m db).0 ≡ smembers j db
  pub smembers-set :
      (k j : String) (v : Value) (ex : ℕ) (db : Db)
      → str_eq k j ≡ false
      → smembers j (set k v ex db) ≡ smembers j db
  pub smembers-delete :
      (k j : String) (db : Db) → str_eq k j ≡ false → smembers j (delete k db) ≡ smembers j db

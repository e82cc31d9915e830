-- ===== src/QueueManager/Order.antt =====
-- The order of the waiting queue of src/api/queue_manager.py: high before normal, and first come,
-- first served within a priority.
use text.Mathlib.TextPositions.{starts_with-append}
use text.Mathlib.Text.{starts_with}
use Prim.Native.String
use extube.Prelude.{
  ℕ, ◌+◌, ◌*◌, ◌<◌, ◌≡◌, String, Bool, true, false, ◌&&◌, ◌||◌, some, List, [], ◌∷◌, map, arith,
  refl, ap, ◌∙◌, str_eq, eq_iff, ltb, ◌==◌, count, Bool-cases, inl, inr,
}
use extube.Prelude.Text.{concat, str_ltb}
use extube.RateLimit.{second}
use extube.Redis.{
  Redis, erase, rank_insert, is_before, index-rank_insert, contains-erase, Sorted-erase,
}
use extube.QueueManager.{
  JobPriority, high, normal, JobMeta, queue_key, active_key, job_meta_key, priority_score, enqueue,
}

-- The keys of the metadata are none of the two fixed keys.
meta_prefix : (job_id : String) → starts_with (job_meta_key job_id) "extube:job_meta:" ≡ true
unfolding job_meta_key concat
meta_prefix job_id = starts_with-append "extube:job_meta:" (String.◌++◌ job_id "")

pub meta-ne-queue : (job_id : String) → str_eq (job_meta_key job_id) queue_key ≡ false
meta-ne-queue job_id = elim (Bool-cases (str_eq (job_meta_key job_id) queue_key)) [
  | inl e ↦
      cc (meta_prefix job_id, ap (λ k. starts_with k "extube:job_meta:") ((eq_iff _ queue_key).0 e))
  | inr e ↦ e
]

pub meta-ne-active : (job_id : String) → str_eq (job_meta_key job_id) active_key ≡ false
meta-ne-active job_id = elim (Bool-cases (str_eq (job_meta_key job_id) active_key)) [
  | inl e ↦
      cc
        (meta_prefix job_id, ap (λ k. starts_with k "extube:job_meta:") ((eq_iff _ active_key).0 e))
  | inr e ↦ e
]

-- A waiting job, as the caller knows it.
pub record Entry : Type 0 where
  pub job_id : String
  pub priority : JobPriority
  pub time : ℕ

abbrev pub scored : Entry → String × ℕ
scored e = (e.job_id, priority_score e.priority + e.time)

abbrev pub earlier : String → ℕ → Entry → Bool
earlier job_id now e = ltb e.time now || (e.time == now && str_ltb e.job_id job_id)

abbrev ahead : String → JobPriority → ℕ → Entry → JobPriority → Bool
ahead job_id high now e high = earlier job_id now e
ahead job_id high now e normal = false
ahead job_id normal now e high = true
ahead job_id normal now e normal = earlier job_id now e

-- `e` is served before a job of priority `p` that is enqueued at `now`.
abbrev pub is_ahead : String → JobPriority → ℕ → Entry → Bool
is_ahead job_id p now e = ahead job_id p now e e.priority

-- The entries were enqueued less than 10⁹ seconds (31 years) before or after `now`, and none of
-- them is the job itself.
abbrev pub Fresh : String → ℕ → List Entry → Type 0
Fresh job_id now [] = Unit
Fresh job_id now (e ∷ es) =
    (str_eq e.job_id job_id ≡ false)
    × (now < e.time + 1000000000 * second)
    × (e.time < now + 1000000000 * second)
    × Fresh job_id now es

before-ahead :
    (job_id : String) (p q : JobPriority) (now : ℕ) (e : Entry)
    → e.priority ≡ q
    → now < e.time + 1000000000 * second
    → e.time < now + 1000000000 * second
    → is_before job_id (priority_score p + now) (scored e) ≡ is_ahead job_id p now e
unfolding is_before priority_score
before-ahead job_id high high now e h l u = rw h (ground arith)
before-ahead job_id high normal now e h l u = rw h (ground arith)
before-ahead job_id normal high now e h l u = rw h (ground arith)
before-ahead job_id normal normal now e h l u = rw h (ground arith)

count-ahead :
    (job_id : String) (p : JobPriority) (now : ℕ) (es : List Entry)
    → Fresh job_id now es
    → count (is_before job_id (priority_score p + now)) (erase job_id (map scored es))
      ≡ count (is_ahead job_id p now) es
unfolding erase
count-ahead job_id p now [] h = refl
count-ahead job_id p now (e ∷ es) h =
    ground (arith, h, before-ahead job_id p e.priority now e refl, count-ahead job_id p now es)

module _ (R : Redis JobMeta) where
  -- The queue after `enqueue` holds the job at the place of its score.
  pub zrange-enqueue :
      (job_id : String) (p : JobPriority) (now : ℕ) (db : R.Db)
      → R.zrange queue_key (enqueue R job_id p now db).0
        ≡ rank_insert job_id (priority_score p + now) (erase job_id (R.zrange queue_key db))
  unfolding enqueue
  zrange-enqueue job_id p now db =
      R.zrange-set (job_meta_key job_id) queue_key _ 86400 _ (meta-ne-queue job_id)
      ∙ R.zrange-zadd queue_key queue_key job_id (priority_score p + now) db

  pub index-enqueue :
      (job_id : String) (p : JobPriority) (now : ℕ) (db : R.Db)
      → R.zrank queue_key job_id (enqueue R job_id p now db).0
        ≡ some (
            count
              (is_before job_id (priority_score p + now))
              (erase job_id (R.zrange queue_key db)))
  index-enqueue job_id p now db = rw (R.zrank_lem queue_key job_id (enqueue R job_id p now db).0) (
      rw (zrange-enqueue job_id p now db) (
        index-rank_insert job_id (priority_score p + now) (erase job_id (R.zrange queue_key db))
          (contains-erase job_id (R.zrange queue_key db))
          (Sorted-erase job_id (R.zrange queue_key db) (R.zrange-Sorted queue_key db))))

  enqueue_position :
      (job_id : String) (p : JobPriority) (now : ℕ) (db : R.Db) (n : ℕ)
      → R.zrank queue_key job_id (enqueue R job_id p now db).0 ≡ some n
      → (enqueue R job_id p now db).1 ≡ n + 1
  unfolding enqueue
  enqueue_position job_id p now db n h = ground arith

  -- The position that `enqueue` returns is one more than the number of waiting jobs that are ahead:
  -- a high job has only earlier high jobs ahead of it, and a normal job every high job and the
  -- earlier normal jobs; jobs of one priority and time go by their id. The waiting jobs were
  -- enqueued within 10⁹ seconds of `now`, and the job itself is not among them.
  pub enqueue-is_ahead :
      (job_id : String) (p : JobPriority) (now : ℕ) (db : R.Db) (es : List Entry)
      → R.zrange queue_key db ≡ map scored es
      → Fresh job_id now es
      → (enqueue R job_id p now db).1 ≡ count (is_ahead job_id p now) es + 1
  enqueue-is_ahead job_id p now db es holds fresh = enqueue_position job_id p now db _ (
      index-enqueue job_id p now db
      ∙ ap some (
          ap (λ z. count (is_before job_id (priority_score p + now)) (erase job_id z)) holds
          ∙ count-ahead job_id p now es fresh))

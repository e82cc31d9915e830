-- ===== src/QueueManager.antt =====
-- src/api/queue_manager.py: the waiting queue and the active set, in Redis. A pipeline is a
-- transaction, so its commands run in a row. Scores are whole ticks, as in RateLimit; the JSON
-- text of the metadata stands as the record that it encodes.
pub mod Order
pub mod Lifecycle
pub mod Status
mod Tests
use extube.Prelude.{
  ℕ, suc, ◌+◌, ◌*◌, String, Bool, ◌||◌, Option, none, some, List, [], ◌∷◌, ltb, length,
  if◌then◌else◌,
}
use extube.Prelude.Text.{concat, sorted}
use extube.RateLimit.{second}
use extube.Redis.{Redis, ZSet}

pub data JobPriority : Type 0 where
  high normal : JobPriority

abbrev pub queue_key : String
queue_key = "extube:job_queue"

abbrev pub active_key : String
active_key = "extube:active_jobs"

unfoldable pub job_meta_key : String → String
job_meta_key job_id = concat ("extube:job_meta:" ∷ job_id ∷ [])

-- `_PRIORITY_SCORES`
unfoldable pub priority_score : JobPriority → ℕ
priority_score high = 0
priority_score normal = 1000000000 * second

pub record JobMeta : Type 0 where
  pub job_id : String
  pub priority : JobPriority

pub record WaitingJob : Type 0 where
  pub job_id : String
  pub position : ℕ

pub record QueueStatus : Type 0 where
  pub max_concurrent : ℕ
  pub active_count : ℕ
  pub active_jobs : List String
  pub pending_count : ℕ
  pub waiting_jobs : List WaitingJob

-- `len(waiting_jobs) + 1` at the entry that is appended after `n` others.
unfoldable pub number_jobs : ℕ → ZSet → List WaitingJob
number_jobs n [] = []
number_jobs n ((job_id, score) ∷ z) =
    record { job_id = job_id; position = n + 1 } ∷ number_jobs (n + 1) z

module _ (R : Redis JobMeta) where
  -- `_get_position`: 0 where the job is not in the queue
  unfoldable pub position_or_zero : String → R.Db → ℕ
  position_or_zero job_id db = elim (R.zrank queue_key job_id db) [
    | none ↦ 0
    | some rank ↦ rank + 1
  ]

  unfoldable pub get_position : String → R.Db → Option ℕ
  unfolding position_or_zero
  get_position job_id db =
      let pos = position_or_zero job_id db in if ltb 0 pos then some pos else none

  unfoldable pub enqueue : String → JobPriority → ℕ → R.Db → R.Db × ℕ
  unfolding position_or_zero priority_score
  enqueue job_id priority now db =
      let score = priority_score priority + now in
      let db₁ = R.zadd queue_key score job_id db in
      let db₂ =
        R.set (job_meta_key job_id) (record { job_id = job_id; priority = priority }) 86400 db₁ in
      (db₂, position_or_zero job_id db₂)

  unfoldable pub activate : String → R.Db → R.Db
  activate job_id db = R.sadd active_key job_id (R.zrem queue_key job_id db).0

  unfoldable pub complete : String → R.Db → R.Db
  complete job_id db = R.delete (job_meta_key job_id) (R.srem active_key job_id db).0

  unfoldable pub cancel : String → R.Db → R.Db × Bool
  cancel job_id db =
      let (db₁, from_queue) = R.zrem queue_key job_id db in
      let (db₂, from_active) = R.srem active_key job_id db₁ in
      (R.delete (job_meta_key job_id) db₂, ltb 0 from_queue || ltb 0 from_active)

  unfoldable pub get_status : ℕ → R.Db → QueueStatus
  unfolding number_jobs sorted
  get_status max_concurrent db =
      let active_jobs = R.smembers active_key db in
      record {
        max_concurrent = max_concurrent;
        active_count = length active_jobs;
        active_jobs = sorted active_jobs;
        pending_count = R.zcard queue_key db;
        waiting_jobs = number_jobs 0 (R.zrange queue_key db);
      }

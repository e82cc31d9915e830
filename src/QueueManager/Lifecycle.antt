-- ===== src/QueueManager/Lifecycle.antt =====
-- What a history of calls of src/api/queue_manager.py leaves of each job: whether it waits and
-- whether it is active.
use extube.Prelude.{
  ℕ, ◌≡◌, String, Bool, true, false, ◌||◌, List, [], ◌∷◌, arith, refl, ap, ◌∙◌, str_eq,
  if◌then◌else◌,
}
use extube.Redis.{Redis, is_member, contains, contains-rank_insert, contains-erase_ne}
use extube.QueueManager.{
  JobPriority, JobMeta, queue_key, active_key, job_meta_key, enqueue, activate, complete, cancel,
}
use extube.QueueManager.Order.{meta-ne-queue, meta-ne-active, zrange-enqueue}

pub data Call : Type 0 where
  enqueues : String → JobPriority → ℕ → Call
  activates completes cancels : String → Call

-- What a job is in for the queue manager.
pub record Phase : Type 0 where
  pub waiting : Bool
  pub active : Bool

-- The contract: each call moves its own job only.
abbrev pub target : Call → String
target (enqueues j p now) = j
target (activates j) = j
target (completes j) = j
target (cancels j) = j

abbrev pub move : Call → Phase → Phase
move (enqueues j p now) s = record s { waiting = true }
move (activates j) s = record { waiting = false; active = true }
move (completes j) s = record s { active = false }
move (cancels j) s = record { waiting = false; active = false }

abbrev pub follow : String → List Call → Phase → Phase
follow job_id [] s = s
follow job_id (c ∷ cs) s = follow job_id cs (if str_eq (target c) job_id then move c s else s)

module _ (R : Redis JobMeta) where
  unfoldable pub perform : Call → R.Db → R.Db
  perform (enqueues j p now) db = (enqueue R j p now db).0
  perform (activates j) db = activate R j db
  perform (completes j) db = complete R j db
  perform (cancels j) db = (cancel R j db).0

  unfoldable pub perform_all : List Call → R.Db → R.Db
  unfolding perform
  perform_all [] db = db
  perform_all (c ∷ cs) db = perform_all cs (perform c db)

  abbrev pub phase : String → R.Db → Phase
  phase job_id db = record {
    waiting = contains job_id (R.zrange queue_key db);
    active = is_member job_id (R.smembers active_key db);
  }

  waiting-enqueue :
      (j job_id : String) (p : JobPriority) (now : ℕ) (db : R.Db)
      → contains job_id (R.zrange queue_key (enqueue R j p now db).0)
        ≡ (str_eq j job_id || contains job_id (R.zrange queue_key db))
  waiting-enqueue j job_id p now db = rw (zrange-enqueue R j p now db) (
      rw (contains-rank_insert job_id j)
        (rw (contains-erase_ne job_id j (R.zrange queue_key db)) (ground arith)))

  active-enqueue :
      (j job_id : String) (p : JobPriority) (now : ℕ) (db : R.Db)
      → R.smembers active_key (enqueue R j p now db).0 ≡ R.smembers active_key db
  unfolding enqueue
  active-enqueue j job_id p now db =
      R.smembers-set (job_meta_key j) active_key _ 86400 _ (meta-ne-active j)
      ∙ R.smembers-zadd queue_key active_key j _ db refl

  waiting-zrem :
      (j job_id : String) (db : R.Db)
      → contains job_id (R.zrange queue_key (R.zrem queue_key j db).0)
        ≡ (if str_eq j job_id then false else contains job_id (R.zrange queue_key db))
  waiting-zrem j job_id db =
      ap (contains job_id) (R.zrange-zrem queue_key queue_key j db)
      ∙ contains-erase_ne job_id j (R.zrange queue_key db)

  active-zrem :
      (j : String) (db : R.Db)
      → R.smembers active_key (R.zrem queue_key j db).0 ≡ R.smembers active_key db
  active-zrem j db = R.smembers-zrem queue_key active_key j db refl

  phase-activate :
      (j job_id : String) (db : R.Db)
      → phase job_id (activate R j db)
        ≡ (if str_eq j job_id then move (activates j) (phase job_id db) else phase job_id db)
  unfolding activate
  phase-activate j job_id db = ground (
    arith,
    R.zrange-sadd active_key queue_key j (R.zrem queue_key j db).0 refl,
    waiting-zrem j job_id db,
    R.smembers-sadd active_key active_key j job_id (R.zrem queue_key j db).0,
    active-zrem j db,
  )

  waiting-drop :
      (j job_id : String) (db : R.Db)
      → R.zrange queue_key (R.delete (job_meta_key j) (R.srem active_key j db).0)
        ≡ R.zrange queue_key db
  waiting-drop j job_id db =
      R.zrange-delete (job_meta_key j) queue_key _ (meta-ne-queue j)
      ∙ R.zrange-srem active_key queue_key j db refl

  active-drop :
      (j job_id : String) (db : R.Db)
      → is_member job_id
          (R.smembers active_key (R.delete (job_meta_key j) (R.srem active_key j db).0))
        ≡ (if str_eq j job_id then false else is_member job_id (R.smembers active_key db))
  active-drop j job_id db =
      ap (is_member job_id) (R.smembers-delete (job_meta_key j) active_key _ (meta-ne-active j))
      ∙ R.smembers-srem active_key active_key j job_id db

  phase-complete :
      (j job_id : String) (db : R.Db)
      → phase job_id (complete R j db)
        ≡ (if str_eq j job_id then move (completes j) (phase job_id db) else phase job_id db)
  unfolding complete
  phase-complete j job_id db = ground (arith, waiting-drop j job_id db, active-drop j job_id db)

  phase-cancel :
      (j job_id : String) (db : R.Db)
      → phase job_id (cancel R j db).0
        ≡ (if str_eq j job_id then move (cancels j) (phase job_id db) else phase job_id db)
  unfolding cancel
  phase-cancel j job_id db = ground (
    arith,
    waiting-drop j job_id (R.zrem queue_key j db).0,
    active-drop j job_id (R.zrem queue_key j db).0,
    waiting-zrem j job_id db,
    active-zrem j db,
  )

  phase-enqueue :
      (j job_id : String) (p : JobPriority) (now : ℕ) (db : R.Db)
      → phase job_id (enqueue R j p now db).0
        ≡ (if str_eq j job_id then move (enqueues j p now) (phase job_id db) else phase job_id db)
  phase-enqueue j job_id p now db =
      ground (arith, waiting-enqueue j job_id p now db, active-enqueue j job_id p now db)

  pub phase-perform :
      (c : Call) (job_id : String) (db : R.Db)
      → phase job_id (perform c db)
        ≡ (if str_eq (target c) job_id then move c (phase job_id db) else phase job_id db)
  unfolding perform
  phase-perform (enqueues j p now) job_id db = phase-enqueue j job_id p now db
  phase-perform (activates j) job_id db = phase-activate j job_id db
  phase-perform (completes j) job_id db = phase-complete j job_id db
  phase-perform (cancels j) job_id db = phase-cancel j job_id db

  -- After any calls, each job waits and is active exactly as the contract says: a call moves its
  -- own job and no other, `enqueue` to waiting, `activate` from waiting to active, `complete` out of
  -- the active set, and `cancel` out of both.
  pub perform_all-follow :
      (job_id : String) (cs : List Call) (db : R.Db)
      → phase job_id (perform_all cs db) ≡ follow job_id cs (phase job_id db)
  unfolding perform_all
  perform_all-follow job_id [] db = refl
  perform_all-follow job_id (c ∷ cs) db =
      perform_all-follow job_id cs (perform c db)
      ∙ ap (follow job_id cs) (phase-perform c job_id db)

  -- `cancel` answers whether the job was waiting or active.
  pub cancel_answer :
      (j : String) (db : R.Db) → (cancel R j db).1 ≡ ((phase j db).waiting || (phase j db).active)
  unfolding cancel
  cancel_answer j db = ground (
    arith,
    R.zrem_count queue_key j db,
    R.srem_count active_key j (R.zrem queue_key j db).0,
    active-zrem j db,
  )

-- ===== src/Startup.antt =====
-- `_lifespan` of src/api/main.py: what the server does to the jobs when it starts, and the thread
-- that is to relay the progress of the workers (src/api/ws.py).
pub mod Recovery
mod Tests
use extube.Prelude.{ℕ, ◌+◌, ◌*◌, String, Bool, true, false, List, [], ◌∷◌, if◌then◌else◌}
use extube.RateLimit.{second}
use extube.JobStore.{JobStatus, pending, processing, retrying, Table, fail_stale_jobs}
use extube.Cleanup.{Disk, Rmtree, cleanup_expired}
use extube.Config.{Settings}

-- `_subscriber_thread`: whether it is set, and how many threads were started. A thread that has
-- ended by an exception, as where Redis is not reached, leaves it set.
pub record Subscriber : Type 0 where
  pub is_set : Bool
  pub started : ℕ

unfoldable pub start_redis_subscriber : Subscriber → Subscriber
start_redis_subscriber s = if s.is_set then s else record { is_set = true; started = s.started + 1 }

unfoldable pub stop_redis_subscriber : Subscriber → Subscriber
stop_redis_subscriber s = record s { is_set = false }

pub record Server : Type 0 where
  pub table : Table
  pub disk : Disk
  pub subscriber : Subscriber

abbrev pub stale_statuses : List JobStatus
stale_statuses = pending ∷ processing ∷ retrying ∷ []

abbrev pub restart_error : String
restart_error = "서버 재시작으로 인해 작업이 중단되었습니다. 재제출해 주세요."

-- The part before `yield`, with the numbers of jobs that it logs.
unfoldable pub start_up : Rmtree → Settings → ℕ → Server → Server × (ℕ × ℕ)
unfolding cleanup_expired fail_stale_jobs start_redis_subscriber
start_up rmtree settings now server =
    let ((table, disk), deleted) =
      cleanup_expired rmtree now (settings.job_ttl_seconds * second) server.table server.disk in
    let (failed, recovered) = fail_stale_jobs stale_statuses restart_error table in
    (
      record { table = failed; disk = disk; subscriber = start_redis_subscriber server.subscriber },
      (deleted, recovered),
    )

-- The part after `yield`.
unfoldable pub shut_down : Server → Server
unfolding stop_redis_subscriber
shut_down server = record server { subscriber = stop_redis_subscriber server.subscriber }

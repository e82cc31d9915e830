-- ===== src/Health/Tests.antt =====
-- The readiness probe on a server without COLMAP, and on one without Redis.
use extube.Prelude.{◌≡◌, none, some, [], ◌∷◌, refl}
use extube.JobStore.{processing, completed, Table, new_job}
use extube.Health.{ready, unavailable, health_ready, update_job_gauges}

all_there :
    health_ready none none (some "/usr/bin/colmap")
    ≡ ready (record { database = "ok"; redis = "ok"; colmap = "ok" })
unfolding health_ready
all_there = refl

without_colmap :
    health_ready none none none
    ≡ unavailable (record { database = "ok"; redis = "ok"; colmap = "not found" })
unfolding health_ready
without_colmap = refl

without_redis :
    health_ready none (some "refused") (some "/usr/bin/colmap")
    ≡ unavailable (record { database = "ok"; redis = "error: refused"; colmap = "ok" })
unfolding health_ready
without_redis = refl

abbrev t : Table
t =
    record { job = new_job "a" processing "u" none; created_at = 1 }
    ∷ record { job = new_job "b" completed "u" none; created_at = 2 }
    ∷ []

gauges : update_job_gauges t none ≡ record { active_jobs = 1; queue_length = 0 }
unfolding update_job_gauges new_job
gauges = refl

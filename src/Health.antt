-- ===== src/Health.antt =====
-- src/api/routers/health.py: the readiness probe and the gauges of the metrics. What answers from
-- outside the table of jobs is an argument.
mod Tests
use extube.Prelude.{
  ℕ, ◌+◌, String, Bool, ◌&&◌, Option, none, some, List, [], ◌∷◌, str_eq, if◌then◌else◌,
}
use extube.Prelude.Text.{concat}
use extube.JobStore.{JobStatus, pending, processing, retrying, Table, list_jobs}

pub record Checks : Type 0 where
  pub database : String
  pub redis : String
  pub colmap : String

-- `{"status": "ready", ...}`, or 503 with the checks.
pub data Readiness : Type 0 where
  ready unavailable : Checks → Readiness

-- The text for a call, by the text of its exception.
unfoldable pub check_text : Option String → String
unfolding concat
check_text none = "ok"
check_text (some e) = concat ("error: " ∷ e ∷ [])

unfoldable pub all_ok : Checks → Bool
all_ok c = str_eq c.database "ok" && str_eq c.redis "ok" && str_eq c.colmap "ok"

-- The exceptions of the two pings, and what `which("colmap")` finds.
unfoldable pub health_ready : Option String → Option String → Option String → Readiness
unfolding check_text all_ok
health_ready database redis colmap_path =
    let checks : Checks = record {
      database = check_text database;
      redis = check_text redis;
      colmap = elim colmap_path [
        | none ↦ "not found"
        | some path ↦ if str_eq path "" then "not found" else "ok"
      ];
    } in
    if all_ok checks then ready checks else unavailable checks

pub record Gauges : Type 0 where
  pub active_jobs : ℕ
  pub queue_length : ℕ

unfoldable pub total_in : JobStatus → Table → ℕ
unfolding list_jobs
total_in status t = (list_jobs (some status) 0 0 none "created_at" "desc" t).total

-- `len(q)`, or `none` where Redis does not answer.
unfoldable pub update_job_gauges : Table → Option ℕ → Gauges
unfolding total_in
update_job_gauges t rq_length = record {
  active_jobs = 0 + total_in pending t + total_in processing t + total_in retrying t;
  queue_length = elim rq_length [ none ↦ 0 | some n ↦ n ];
}

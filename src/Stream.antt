-- ===== src/Stream.antt =====
-- `stream_job` of src/api/routers/jobs.py: the events that a client of the stream is sent. The
-- generator looks at the clock and at the row of the job once a second; the looks are an argument.
pub mod Shown
mod Tests
use extube.Prelude.{
  ℕ, ◌==◌, String, Bool, true, false, ◌&&◌, ◌||◌, Option, none, some, List, [], ◌∷◌, ◌++◌, ltb,
  str_eq, if◌then◌else◌,
}
use extube.JobStore.{
  JobStatus, completed, failed, cancelled, Progress, RunResult, Job, Table, status_eq,
}
use extube.Http.{Reply, ok, ◌>>=◌}
use extube.Jobs.{get_user_job}

-- The time since the start, and the row.
pub record Look : Type 0 where
  pub elapsed : ℕ
  pub row : Option Job

pub data Event : Type 0 where
  timeout : Event
  final : JobStatus → Option Progress → Option RunResult → Option String → Event
  changed : JobStatus → Option Progress → Event

unfoldable pub option_eq : {A : Type 0} → (A → A → Bool) → Option A → Option A → Bool
option_eq eq none none = true
option_eq eq none (some b) = false
option_eq eq (some a) none = false
option_eq eq (some a) (some b) = eq a b

unfoldable pub progress_eq : Progress → Progress → Bool
unfolding option_eq
progress_eq p q =
    str_eq p.stage q.stage
    && (p.percent == q.percent)
    && str_eq p.message q.message
    && option_eq str_eq p.colmap_step q.colmap_step
    && option_eq ◌==◌ p.attempt q.attempt
    && option_eq ◌==◌ p.max_retries q.max_retries

unfoldable pub same_progress : Option Progress → Option Progress → Bool
unfolding option_eq progress_eq
same_progress p q = option_eq progress_eq p q

unfoldable pub is_terminal : JobStatus → Bool
unfolding status_eq
is_terminal status =
    status_eq status completed || status_eq status failed || status_eq status cancelled

unfoldable pub final_of : Job → Event
final_of job = final job.status job.progress job.result job.error

-- The events with which a look ends the stream, if it does.
unfoldable pub end_of_row : Option Job → Option (List Event)
unfolding is_terminal final_of
end_of_row none = some []
end_of_row (some job) = if is_terminal job.status then some (final_of job ∷ []) else none

unfoldable pub end_of : ℕ → Look → Option (List Event)
unfolding end_of_row
end_of limit look = if ltb limit look.elapsed then some (timeout ∷ []) else end_of_row look.row

-- What is sent of a row that does not end the stream, and `last_progress` after it.
unfoldable pub change_of : Option Progress → Option Job → List Event
unfolding same_progress
change_of last none = []
change_of last (some job) =
    if same_progress job.progress last then [] else changed job.status job.progress ∷ []

unfoldable pub last_of : Option Progress → Option Job → Option Progress
unfolding same_progress
last_of last none = last
last_of last (some job) = if same_progress job.progress last then last else job.progress

-- The events, and whether the stream has ended.
unfoldable pub event_generator : ℕ → Option Progress → List Look → List Event × Bool
unfolding end_of change_of last_of
event_generator limit last [] = ([], false)
event_generator limit last (look ∷ looks) =
    let rest = event_generator limit (last_of last look.row) looks in
    elim (end_of limit look) [
      | none ↦ (change_of last look.row ++ rest.0, rest.1)
      | some events ↦ (events, true)
    ]

unfoldable pub stream_job : ℕ → String → String → Table → List Look → Reply (List Event × Bool)
unfolding event_generator
stream_job limit job_id user_id t looks =
    get_user_job job_id user_id t >>= λ job. ok (event_generator limit none looks)

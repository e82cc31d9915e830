-- ===== src/Colmap.antt =====
-- `_run_colmap` of src/reconstruction/reconstruction.py: the loop that runs one COLMAP command with
-- retries. What the process does at each attempt is an argument; the floats of the configuration
-- stand in thousandths, as exact numbers.
pub mod Attempts
mod Tests
use extube.Prelude.{
  ℕ, zero, suc, ◌+◌, ◌*◌, ◌/◌, ◌^◌, String, Bool, true, false, ◌&&◌, Option, none, some, List, [],
  ◌∷◌, ltb, ◌==◌, if◌then◌else◌,
}
use extube.Prelude.Text.{concat, decimal}
use extube.Tasks.Errors.{is_colmap_retryable_error}

pub record ColmapRetryConfig : Type 0 where
  pub max_retries : ℕ
  pub base_delay : ℕ
  pub backoff_multiplier : ℕ
  pub timeout_multiplier : ℕ

-- What `subprocess.run` does: it raises `TimeoutExpired`, or returns a code and the error output;
-- the code of a process that a signal killed is the signal's number, negated. A binary that cannot be
-- started, for which it raises an `OSError`, is not among them.
pub data Process : Type 0 where
  timed_out : Process
  exited : ℕ → String → Process
  signalled : ℕ → String → Process

-- The call of `retry_callback` and the delay that is slept, in thousandths of a second.
pub record Retry : Type 0 where
  pub attempt : ℕ
  pub max_retries : ℕ
  pub message : String
  pub delay : ℕ

pub data Ending : Type 0 where
  returned : Ending
  raised : String → Ending

-- `int(timeout * (timeout_mult**attempt))`
unfoldable pub timeout_of : ColmapRetryConfig → ℕ → ℕ → ℕ
timeout_of c timeout attempt = timeout * c.timeout_multiplier ^ attempt / 1000 ^ attempt

unfoldable pub delay_of : ColmapRetryConfig → ℕ → ℕ
delay_of c attempt = c.base_delay * c.backoff_multiplier ^ attempt / 1000 ^ attempt

-- The `error_msg` of an attempt that fails.
unfoldable pub failure : String → ℕ → Process → Option String
failure command timeout timed_out = some (
    concat
      ("COLMAP " ∷ command ∷ " 시간 초과 (" ∷ decimal timeout ∷ "초): 이미지 수를 줄이거나 해상도를 낮춰 주세요" ∷ []))
failure command timeout (exited code stderr) =
    if code == 0
    then none
    else some (concat ("COLMAP " ∷ command ∷ " 실패 (code " ∷ decimal code ∷ "): " ∷ stderr ∷ []))
failure command timeout (signalled signal stderr) =
    some (concat ("COLMAP " ∷ command ∷ " 실패 (code -" ∷ decimal signal ∷ "): " ∷ stderr ∷ []))

module _ (c : ColmapRetryConfig) (command : String) (timeout : ℕ) (process : ℕ → Process) where
  unfoldable pub failure_at : ℕ → Option String
  failure_at attempt = failure command (timeout_of c timeout attempt) (process attempt)

  -- Whether the loop goes on after the attempt.
  unfoldable pub goes_on : ℕ → String → Bool
  goes_on attempt message = ltb attempt c.max_retries && is_colmap_retryable_error message

  unfoldable pub retry_at : ℕ → String → Retry
  retry_at attempt message = record {
    attempt = attempt + 1;
    max_retries = c.max_retries;
    message = message;
    delay = delay_of c attempt;
  }

  -- What follows an attempt, where `rest` is the remainder of the loop.
  unfoldable pub after_attempt : ℕ → Option String → List Retry × Ending → List Retry × Ending
  after_attempt attempt none rest = ([], returned)
  after_attempt attempt (some message) rest =
      if goes_on attempt message
      then (retry_at attempt message ∷ rest.0, rest.1)
      else ([], raised message)

  unfoldable pub message_or : String → Option String → String
  message_or last none = last
  message_or last (some message) = message

  -- `left` attempts remain; after the last, `last_error` is raised.
  unfoldable pub run_attempts : ℕ → ℕ → String → List Retry × Ending
  run_attempts zero attempt last = ([], raised last)
  run_attempts (suc left) attempt last =
      after_attempt attempt (failure_at attempt)
        (run_attempts left (attempt + 1) (message_or last (failure_at attempt)))

  unfoldable pub run_colmap : List Retry × Ending
  unfolding run_attempts
  run_colmap = run_attempts (suc c.max_retries) 0 ""

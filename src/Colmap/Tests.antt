-- ===== src/Colmap/Tests.antt =====
-- `_run_colmap` of src/reconstruction/reconstruction.py on processes that fail first.
use extube.Prelude.{ℕ, zero, suc, ◌≤◌, ◌≡◌, false, refl, length}
use extube.Prelude.Text.{concat, decimal}
use extube.Tasks.Errors.{is_colmap_retryable_error}
use extube.Colmap.{ColmapRetryConfig, Process, timed_out, exited, failure, run_colmap}
use extube.Colmap.Attempts.{ending_of, is_transient, error_at, retries_from, run_colmap-retries}

abbrev c : ColmapRetryConfig
c = record {
  max_retries = 3;
  base_delay = 5000;
  backoff_multiplier = 2000;
  timeout_multiplier = 1500;
}

-- The first attempt has too little memory, and the second succeeds.
abbrev process : ℕ → Process
process zero = exited 1 "CUDA out of memory"
process (suc n) = exited 0 ""

run_colmap-retries_example :
    (length (run_colmap c "mapper" 3600 process).0 ≡ retries_from c "mapper" 3600 process 3 0)
    × (length (run_colmap c "mapper" 3600 process).0 ≤ 3)
    × ((run_colmap c "mapper" 3600 process).1
        ≡ ending_of
            (error_at c "mapper" 3600 process (length (run_colmap c "mapper" 3600 process).0)))
run_colmap-retries_example = run_colmap-retries c "mapper" 3600 process

-- The message of a process that ran out of time matches no pattern.
timed_out_message : is_transient (failure "mapper" 3600 timed_out) ≡ false
unfolding failure is_colmap_retryable_error concat decimal
timed_out_message = refl

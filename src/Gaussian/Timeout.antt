-- ===== src/Gaussian/Timeout.antt =====
-- The timeout of one training run, by memory and iterations.
use Prim.Native.Nat.{min}
use extube.Prelude.{ℕ, ◌+◌, ◌*◌, ◌/◌, ◌≤◌, arith}
use extube.Gaussian.{compute_dynamic_timeout, per_iteration, gb}

-- For every memory and number of iterations: the timeout is at least half an hour and at most four
-- hours; it does not fall when there are more iterations, and it does not rise when there is more
-- memory; ten more iterations add at least two seconds, up to the four hours; and a card of 8 GB
-- is given three seconds more for ten iterations than one of 20 GB, up to the four hours.
pub compute_dynamic_timeout-bounds :
    (vram more num_iterations further : ℕ)
    → vram ≤ more
    → num_iterations ≤ further
    → (1800 ≤ compute_dynamic_timeout vram num_iterations)
      × (compute_dynamic_timeout vram num_iterations ≤ 14400)
      × (compute_dynamic_timeout more num_iterations ≤ compute_dynamic_timeout vram further)
      × (min 14400 (compute_dynamic_timeout vram num_iterations + 2)
          ≤ compute_dynamic_timeout vram (num_iterations + 10))
      × (min 14400 (compute_dynamic_timeout (20 * gb) num_iterations + num_iterations * 3 / 10)
          ≤ compute_dynamic_timeout (8 * gb) num_iterations)
unfolding compute_dynamic_timeout per_iteration
compute_dynamic_timeout-bounds vram more num_iterations further h k =
    (ground arith, ground arith, ground arith, ground arith, ground arith)

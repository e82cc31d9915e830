-- ===== src/Gaussian/Tests.antt =====
-- The training at concrete inputs.
use Prim.Native.Nat.{min}
use extube.Prelude.{
  ◌+◌, ◌/◌, ℕ, List, map, Option, String, ◌≡◌, ◌≤◌, ◌*◌, true, none, some, [], ◌∷◌, refl, arith,
}
use extube.Colmap.{exited}
use extube.Gaussian.{
  Command, Result, ok, err, GaussianSplattingResult, train_gaussian_splatting, Machine,
  compute_dynamic_timeout, run_gaussian_splatting, default_timeout, gb,
}
use extube.Gaussian.Timeout.{compute_dynamic_timeout-bounds}
use extube.Gaussian.Training.{Runs, run_gaussian_splatting-Runs}

abbrev lacking : Machine
lacking = record {
  probe = some (0, some 6144);
  conversion = exited 0 "";
  first_run = exited 1 "RuntimeError: CUDA out of memory.";
  second_run = exited 0 "";
  ply_files = [];
  splat_files =
      record { path = "a.splat"; modified = 3 } ∷ record { path = "b.splat"; modified = 5 } ∷ [];
}

compute_dynamic_timeout-bounds_example :
    (1800 ≤ compute_dynamic_timeout (6 * gb) 7000)
    × (compute_dynamic_timeout (6 * gb) 7000 ≤ 14400)
    × (compute_dynamic_timeout (24 * gb) 7000 ≤ compute_dynamic_timeout (6 * gb) 30000)
    × (min 14400 (compute_dynamic_timeout (6 * gb) 7000 + 2)
        ≤ compute_dynamic_timeout (6 * gb) (7000 + 10))
    × (min 14400 (compute_dynamic_timeout (20 * gb) 7000 + 7000 * 3 / 10)
        ≤ compute_dynamic_timeout (8 * gb) 7000)
compute_dynamic_timeout-bounds_example =
    compute_dynamic_timeout-bounds (6 * gb) (24 * gb) 7000 30000 (omega arith) (omega arith)

run_gaussian_splatting-Runs_example :
    Runs lacking default_timeout
      (run_gaussian_splatting lacking true true none none default_timeout).0
      (run_gaussian_splatting lacking true true none none default_timeout).1
run_gaussian_splatting-Runs_example =
    run_gaussian_splatting-Runs lacking true true none none default_timeout

-- The second run has half the iterations, and the later of the two files is copied.
iterations_run : List Command × Result GaussianSplattingResult → List ℕ
iterations_run (commands, outcome) = map (λ c. c.iterations) commands

splat_of : List Command × Result GaussianSplattingResult → Option String
splat_of (commands, ok r) = r.splat_path
splat_of (commands, err e) = none

halves : iterations_run (train_gaussian_splatting lacking true none none none) ≡ 7000 ∷ 3500 ∷ []
unfolding train_gaussian_splatting iterations_run
halves = refl

takes_the_latest : splat_of (train_gaussian_splatting lacking true none none none) ≡ some "b.splat"
unfolding train_gaussian_splatting splat_of
takes_the_latest = refl

copies :
    splat_of (run_gaussian_splatting lacking true true none none default_timeout)
    ≡ some "gaussian_splat.splat"
unfolding run_gaussian_splatting splat_of
copies = refl

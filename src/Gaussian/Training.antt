-- ===== src/Gaussian/Training.antt =====
-- Which training runs src/reconstruction/gaussian_splatting.py starts, and what comes of them.
use extube.Prelude.{ℕ, ◌≡◌, ◌/◌, String, Bool, Option, List, [], ◌∷◌, refl}
use extube.Gaussian.{
  Command, GsError, Result, ok, err, GaussianSplattingResult, Machine, Ended, ended_by, succeeded,
  out_of_memory, cut_off, crashed, trained, after_first, after_second, train_gaussian_splatting,
  copy_results, copy_outcome, convert_colmap_to_nerfstudio, after_conversion,
  run_gaussian_splatting,
}

abbrev pub halved : Command → Command
halved c = record c { iterations = c.iterations / 2 }

module _ (machine : Machine) (timeout : ℕ) where
  -- The runs that are started, in order, and the outcome.
  pub data Runs : List Command → Result GaussianSplattingResult → Type 0 where
    not_started : (e : GsError) → Runs [] (err e)
    failed_once :
        (c : Command) (e : GsError)
        → c.timeout ≡ timeout
        → ¬ ended_by machine.first_run ≡ succeeded
        → ¬ ended_by machine.first_run ≡ out_of_memory
        → Runs (c ∷ []) (err e)
    trained_once :
        (c : Command) (r : GaussianSplattingResult)
        → c.timeout ≡ timeout
        → ended_by machine.first_run ≡ succeeded
        → r.num_iterations ≡ c.iterations
        → Runs (c ∷ []) (ok r)
    failed_twice :
        (c : Command) (e : GsError)
        → c.timeout ≡ timeout
        → ended_by machine.first_run ≡ out_of_memory
        → ¬ ended_by machine.second_run ≡ succeeded
        → Runs (c ∷ halved c ∷ []) (err e)
    trained_twice :
        (c : Command) (r : GaussianSplattingResult)
        → c.timeout ≡ timeout
        → ended_by machine.first_run ≡ out_of_memory
        → ended_by machine.second_run ≡ succeeded
        → r.num_iterations ≡ c.iterations / 2
        → Runs (c ∷ halved c ∷ []) (ok r)

  module _ (c : Command) (name : String) (same : c.timeout ≡ timeout) where
    after_second-Runs :
        (second : Ended)
        → ended_by machine.first_run ≡ out_of_memory
        → ended_by machine.second_run ≡ second
        → Runs (c ∷ halved c ∷ []) (after_second machine (c.iterations / 2) name second)
    unfolding after_second trained
    after_second-Runs succeeded first h = trained_twice c _ same first h refl
    after_second-Runs cut_off first h = failed_twice c _ same first (λ k. cc)
    after_second-Runs (crashed message) first h = failed_twice c _ same first (λ k. cc)
    after_second-Runs out_of_memory first h = failed_twice c _ same first (λ k. cc)

    after_first-Runs :
        (first : Ended)
        → ended_by machine.first_run ≡ first
        → Runs (c ∷ (after_first machine c name first).0) (after_first machine c name first).1
    unfolding after_first trained
    after_first-Runs succeeded h = trained_once c _ same h refl
    after_first-Runs cut_off h = failed_once c _ same (λ k. cc) (λ k. cc)
    after_first-Runs (crashed message) h = failed_once c _ same (λ k. cc) (λ k. cc)
    after_first-Runs out_of_memory h = after_second-Runs (ended_by machine.second_run) h refl

  copied-Runs :
      (commands : List Command) (outcome : Result GaussianSplattingResult)
      → Runs commands outcome
      → Runs (copy_outcome (commands, outcome)).0 (copy_outcome (commands, outcome)).1
  unfolding copy_outcome copy_results
  copied-Runs _ _ (not_started e) = not_started e
  copied-Runs _ _ (failed_once c e same a b) = failed_once c e same a b
  copied-Runs _ _ (trained_once c r same a b) = trained_once c _ same a b
  copied-Runs _ _ (failed_twice c e same a b) = failed_twice c e same a b
  copied-Runs _ _ (trained_twice c r same a b d) = trained_twice c _ same a b d

  converted-Runs :
      (vram_preset : Option String) (max_iterations : Option ℕ) (conversion : Result Unit)
      → Runs
          (after_conversion machine vram_preset max_iterations timeout conversion).0
          (after_conversion machine vram_preset max_iterations timeout conversion).1
  unfolding after_conversion train_gaussian_splatting
  converted-Runs vram_preset max_iterations (err e) = not_started e
  converted-Runs vram_preset max_iterations (ok tt) =
      copied-Runs _ _ (after_first-Runs _ _ refl (ended_by machine.first_run) refl)

-- For all arguments, a run starts at most two training processes, each with the timeout that was
-- passed and never one that depends on memory or iterations; a second one starts just when the
-- first lacked memory, with half the iterations, and the result, if there is one, names the
-- iterations of the last process, which succeeded.
pub run_gaussian_splatting-Runs :
    (machine : Machine) (sparse_exists image_exists : Bool) (vram_preset : Option String)
    (max_iterations : Option ℕ) (timeout : ℕ)
    → Runs machine timeout
        (run_gaussian_splatting machine sparse_exists image_exists vram_preset max_iterations
          timeout).0
        (run_gaussian_splatting machine sparse_exists image_exists vram_preset max_iterations
          timeout).1
unfolding run_gaussian_splatting
run_gaussian_splatting-Runs machine sparse_exists image_exists vram_preset max_iterations timeout =
    converted-Runs machine timeout vram_preset max_iterations
      (convert_colmap_to_nerfstudio sparse_exists image_exists machine.conversion)

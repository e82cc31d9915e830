-- ===== src/Reconstruct/Results.antt =====
-- Runs of `reconstruct` (src/reconstruction/reconstruction.py) that resume one another in a workspace.
use extube.Prelude.{
  ℕ, ◌≤◌, String, true, ◌≡◌, List, [], ◌∷◌, ◌++◌, leb, Bool-cases, inl, inr, arith, refl, ap, ◌∙◌,
}
use extube.Reconstruct.{
  absent, State, Machine, Exit, done, thrown, Io, after, ◌>>=◌, ◌>>◌, pure, value_error, require,
  require_dir, mkdir,
}
use extube.Reconstruct.Stats.{Stats, model_dirs, count_images, image_extensions}
use extube.Reconstruct.Workspace.{cleaning, get_files}
use extube.Reconstruct.Pipeline.{Options, ReconstructionResult, below, output_phase}
use extube.Reconstruct.Hoare.{Extends, Extends-refl, Extends-trans, After, Grows, bind-Grows}
use extube.Reconstruct.Workspace.{steps_of, load_checkpoint, parse_reconstruction_stats, stats_of}
use extube.Reconstruct.Pipeline.{sparse_phase, count_phase, reconstruct}
use extube.Reconstruct.Hoare.{sparse_commands, finished, bind-After}
use extube.Reconstruct.Resume.{
  sparse_steps, Resumable, Consistent, At, Resumable-Extends, sparse_phase-At,
}
use extube.Reconstruct.Outputs.{
  require-Grows, mkdir-Grows, get_files-Grows, clean_after-After, cleanup_workspace-Grows,
}
use extube.Reconstruct.Reports.{Reports, output_phase-Reports}

-- A run that returns: all three steps are saved, their commands have returned once each, in order,
-- over all runs, and the result, which has points from two images at least, begins with the steps.
pub record Completes (r : ReconstructionResult) (t : State) : Type 0 where
  pub saved_all : steps_of t.checkpoint ≡ sparse_steps
  pub returned_all : finished t.commands ≡ sparse_commands
  pub outputs : List String
  pub begins : r.steps_completed ≡ sparse_steps ++ outputs
  pub enough_images : 2 ≤ r.num_images
  pub some_points : 1 ≤ r.num_points3d

Consistent-Extends : (s t : State) → Extends s t → Consistent s → Consistent t
Consistent-Extends s t e (k, r) = (k, Resumable-Extends k s t e r)

then-Consistent :
    {A B : Type 0} (R : B → State → Type 0) (s : State) (m : Io A) (f : A → Io B)
    → Grows m
    → Consistent s
    → ((a : A) (t : State) → Consistent t → After R Consistent (f a t))
    → After R Consistent (after (m s) f)
then-Consistent {A = A} R s m f h c k = of_exit (m s) (Consistent-Extends s (m s).1 (h s) c)
  where
    of_exit : (r : Exit A × State) → Consistent r.1 → After R Consistent (after r f)
    of_exit (done a, t) x = k a t x
    of_exit (thrown e, t) x = x

module _ (machine : Machine) (o : Options) where
  parse_reconstruction_stats-Grows :
      (sparse_dir : String) → Grows (parse_reconstruction_stats machine sparse_dir)
  unfolding parse_reconstruction_stats require_dir
  parse_reconstruction_stats-Grows sparse_dir =
      let reads : Io Stats =
        get_files >>= λ files. pure (stats_of machine sparse_dir (model_dirs sparse_dir files)) in
      bind-Grows (require_dir sparse_dir) (λ _. reads) (require-Grows _ _)
        λ _.
          bind-Grows get_files
            (λ files. pure (stats_of machine sparse_dir (model_dirs sparse_dir files)))
            get_files-Grows (λ files s. Extends-refl s)

  count_phase-Grows : Grows (count_phase machine o)
  unfolding count_phase
  count_phase-Grows =
      bind-Grows get_files (λ files. pure (count_images image_extensions (files.names o.image_dir)))
        get_files-Grows (λ files s. Extends-refl s)

  completes :
      (num_images : ℕ) (stats : Stats) (s t : State) (r : Exit ReconstructionResult × State)
      → 2 ≤ num_images
      → At 3 s
      → Extends s t
      → After (Reports machine o num_images stats t) (Extends t) r
      → After Completes Consistent r
  completes num_images stats s t (done r, u) enough a e p =
      let grown = Extends-trans s t u e p.grown in
      record {
        saved_all = ap steps_of grown.checkpoint_same ∙ a.resumable.saved_steps;
        returned_all = grown.finished_same ∙ a.resumable.returned_commands;
        outputs = grown.more;
        begins = p.steps ∙ grown.steps_more ∙ ap (λ (l : List String). l ++ grown.more) a.own_steps;
        enough_images = omega (arith, p.images);
        some_points = omega (arith, p.points, p.some_points);
      }
  completes num_images stats s t (thrown f, u) enough a e p =
      (3, Resumable-Extends 3 s u (Extends-trans s t u e p) a.resumable)

  -- The saved steps, from any state that is consistent.
  resumed :
      (k : ℕ) (s : State)
      → Resumable k s
      → After
          (λ _. At 3)
          Consistent
          (after
            (load_checkpoint s)
            (λ completed. cleaning machine o.workspace_dir (sparse_phase machine o completed)))
  unfolding load_checkpoint cleaning
  resumed k s r = rw r.saved_steps (
      clean_after-After machine o.workspace_dir (λ _. At 3) Consistent
        (λ t c. Consistent-Extends t _ (cleanup_workspace-Grows machine o.workspace_dir t) c) _
        (sparse_phase-At machine o k _ (record {
          resumable = record {
            in_range = r.in_range;
            saved_steps = r.saved_steps;
            returned_commands = r.returned_commands;
          };
          own_steps = refl;
        })))

  abbrev finishing : ℕ → Io ReconstructionResult
  finishing num_images =
      parse_reconstruction_stats machine (below machine o "sparse")
      >>= output_phase machine o num_images

  finishing-Completes :
      (num_images : ℕ) (s : State)
      → 2 ≤ num_images
      → At 3 s
      → After Completes Consistent (finishing num_images s)
  finishing-Completes num_images s enough a =
      of_exit (parse_reconstruction_stats machine sparse s)
        (parse_reconstruction_stats-Grows sparse s)
    where
      sparse : String
      sparse = below machine o "sparse"

      of_exit :
          (r : Exit Stats × State)
          → Extends s r.1
          → After Completes Consistent (after r (output_phase machine o num_images))
      of_exit (done stats, t) e =
          completes num_images stats s t (output_phase machine o num_images stats t) enough a e
            (output_phase-Reports machine o num_images stats t)
      of_exit (thrown f, t) e = (3, Resumable-Extends 3 s t e a.resumable)

  abbrev resuming : ℕ → Io ReconstructionResult
  resuming num_images = load_checkpoint >>= λ completed.
      cleaning machine o.workspace_dir (sparse_phase machine o completed) >> finishing num_images

  abbrev tested : ℕ → Io ReconstructionResult
  tested num_images = require (λ _. leb 2 num_images) value_error >> resuming num_images

  abbrev counting : Io ReconstructionResult
  counting = count_phase machine o >>= tested

  resuming-Completes :
      (num_images : ℕ) (s : State)
      → 2 ≤ num_images
      → Consistent s
      → After Completes Consistent (resuming num_images s)
  unfolding load_checkpoint
  resuming-Completes num_images s enough (k, r) =
      bind-After (λ _. At 3) Completes Consistent
        (cleaning machine o.workspace_dir (sparse_phase machine o (steps_of s.checkpoint)) _)
        (λ _. finishing num_images) (resumed k s r) λ _ t. finishing-Completes num_images t enough

  at_least_two : (n : ℕ) → leb 2 n ≡ true → 2 ≤ n
  at_least_two n h = ground arith

  tested-Completes :
      (num_images : ℕ) (s : State) → Consistent s → After Completes Consistent (tested num_images s)
  unfolding require
  tested-Completes num_images s c = elim (Bool-cases (leb 2 num_images)) [
    | inl two ↦ rw two (resuming-Completes num_images s (at_least_two num_images two) c)
    | inr few ↦ rw few c
  ]

  -- From any consistent state, a run completes or leaves a consistent state.
  reconstruct-Completes :
      (s : State) → Consistent s → After Completes Consistent (reconstruct machine o s)
  unfolding reconstruct require_dir mkdir
  reconstruct-Completes s c =
      then-Consistent Completes s (require_dir o.image_dir) (λ _. mkdir o.workspace_dir >> counting)
        (require-Grows _ _) c
        λ _ t d.
          then-Consistent Completes t (mkdir o.workspace_dir) (λ _. counting) (mkdir-Grows _) d
            λ _ u e.
              then-Consistent Completes u (count_phase machine o) tested count_phase-Grows e
                tested-Completes

-- The runs, each with what it meets, one after the other in one workspace.
unfoldable pub run_all : List (Machine × Options) → State → State
run_all [] s = s
run_all ((machine, o) ∷ runs) s = run_all runs (reconstruct machine o s).1

After-Consistent :
    (r : Exit ReconstructionResult × State) → After Completes Consistent r → Consistent r.1
After-Consistent (done r, s) c = (
  3,
  record { in_range = omega arith; saved_steps = c.saved_all; returned_commands = c.returned_all },
)
After-Consistent (thrown e, s) c = c

run_all-Consistent :
    (runs : List (Machine × Options)) (s : State) → Consistent s → Consistent (run_all runs s)
unfolding run_all
run_all-Consistent [] s c = c
run_all-Consistent ((machine, o) ∷ runs) s c =
    run_all-Consistent runs (reconstruct machine o s).1
      (After-Consistent (reconstruct machine o s) (reconstruct-Completes machine o s c))

-- In a workspace that has no checkpoint at first and no command behind it, after any runs, whatever
-- their processes do, one more run leaves a workspace in which the first steps, and no others, are
-- saved, and their commands, and no others of the three, have returned, once each and in order over
-- all runs; if it returns a result, all three are, and the result has a point and two images at
-- least and its steps begin with the three.
pub reconstruct-resumes :
    (runs : List (Machine × Options)) (machine : Machine) (o : Options) (s : State)
    → s.checkpoint ≡ absent
    → s.commands ≡ []
    → After Completes Consistent (reconstruct machine o (run_all runs s))
unfolding steps_of
reconstruct-resumes runs machine o s new empty = reconstruct-Completes machine o (run_all runs s) (
    run_all-Consistent runs s (
      0,
      record {
        in_range = omega arith;
        saved_steps = ap steps_of new;
        returned_commands = ap finished empty;
      },
    ))

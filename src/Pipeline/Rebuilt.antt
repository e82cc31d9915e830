-- ===== src/Pipeline/Rebuilt.antt =====
-- What a result of `reconstruct` (src/reconstruction/reconstruction.py) says to src/pipeline.py.
use extube.Prelude.{
  ℕ, ◌≤◌, Bool, true, ◌≡◌, leb, Bool-cases, Option-cases, str_eq, ◌||◌, inl, inr, arith, refl, ap,
  sym,
}
use extube.Reconstruct.{
  Failure, State, Machine, Exit, done, thrown, Io, after, ◌>>=◌, ◌>>◌, require, require_dir, mkdir,
  change_files,
}
use extube.Reconstruct.Stats.{Stats, image_extensions, count_images}
use extube.Reconstruct.Workspace.{load_checkpoint, cleaning, parse_reconstruction_stats}
use extube.Reconstruct.Pipeline.{
  Options, ReconstructionResult, below, count_phase, sparse_phase, output_phase, reconstruct,
}
use extube.Reconstruct.Hoare.{After, Extends}
use extube.Reconstruct.Reports.{Reports, output_phase-Reports}

abbrev pub Any : State → Type 0
Any s = Unit

-- What holds after every return of `f` holds after `m` and `f`.
pub after-After :
    {A B : Type 0} (P : B → State → Type 0) (r : Exit A × State) (f : A → Io B)
    → ((a : A) (t : State) → r ≡ (done a, t) → After P Any (f a t))
    → After P Any (after r f)
after-After P (done a, t) f k = k a t refl
after-After P (thrown e, t) f k = tt

pub ends_in : {A : Type 0} {x : Exit A × State} {a : A} {t : State} → x ≡ (done a, t) → t ≡ x.1
ends_in e = sym (ap (λ x. x.1) e)

pub require-same : (test : State → Bool) (e : Failure) (s : State) → (require test e s).1 ≡ s
unfolding require
require-same test e s = elim (Bool-cases (test s)) [ inl y ↦ rw y refl | inr n ↦ rw n refl ]

module _ (machine : Machine) (o : Options) where
  -- A result of `reconstruct` that counts so many images.
  pub record Rebuilt (num_images : ℕ) (r : ReconstructionResult) (t : State) : Type 0 where
    pub all_images : r.num_images ≡ num_images
    pub two_images : 2 ≤ num_images
    pub some_points : 1 ≤ r.num_points3d

  output_phase-Rebuilt :
      (num_images : ℕ) (stats : Stats) (s : State)
      → 2 ≤ num_images
      → After (Rebuilt num_images) Any (output_phase machine o num_images stats s)
  output_phase-Rebuilt num_images stats s enough =
      of_exit (output_phase machine o num_images stats s)
        (output_phase-Reports machine o num_images stats s)
    where
      of_exit :
          (r : Exit ReconstructionResult × State)
          → After (Reports machine o num_images stats s) (Extends s) r
          → After (Rebuilt num_images) Any r
      of_exit (done r, t) p = record {
        all_images = p.images;
        two_images = enough;
        some_points = omega (arith, p.points, p.some_points);
      }
      of_exit (thrown e, t) p = tt

  abbrev finishing : ℕ → Io ReconstructionResult
  finishing num_images =
      parse_reconstruction_stats machine (below machine o "sparse")
      >>= output_phase machine o num_images

  abbrev resuming : ℕ → Io ReconstructionResult
  resuming num_images = load_checkpoint >>= λ completed.
      cleaning machine o.workspace_dir (sparse_phase machine o completed) >> finishing num_images

  resuming-Rebuilt :
      (num_images : ℕ) (s : State)
      → 2 ≤ num_images
      → After (Rebuilt num_images) Any (resuming num_images s)
  resuming-Rebuilt num_images s enough =
      after-After (Rebuilt num_images) (load_checkpoint s) _ λ completed t _.
        after-After (Rebuilt num_images)
          (cleaning machine o.workspace_dir (sparse_phase machine o completed) t)
          (λ _. finishing num_images)
          λ _ u _.
            after-After (Rebuilt num_images)
              (parse_reconstruction_stats machine (below machine o "sparse") u)
              (output_phase machine o num_images)
              λ stats v _. output_phase-Rebuilt num_images stats v enough

  -- The state when the workspace has been made.
  abbrev with_dir : State → State
  with_dir s = record s {
    files = record s.files { is_dir = λ d. str_eq d o.workspace_dir || s.files.is_dir d };
  }

  at_least_two : (n : ℕ) → leb 2 n ≡ true → 2 ≤ n
  at_least_two n h = ground arith

  -- The images that `reconstruct` counts stand in its directory when it starts.
  pub reconstruct-Rebuilt :
      (s : State)
      → After
          (Rebuilt (count_images image_extensions (s.files.names o.image_dir)))
          Any
          (reconstruct machine o s)
  unfolding reconstruct require_dir require mkdir change_files count_phase
  reconstruct-Rebuilt s = elim (Bool-cases (s.files.is_dir o.image_dir)) [
    | inr lacks ↦ rw lacks tt
    | inl has ↦ elim (Option-cases (s.files.refuses o.workspace_dir)) [
      | inr (type_name, refused) ↦ rw (has, mkdir, refused) tt
      | inl free ↦
          elim (Bool-cases (leb 2 (count_images image_extensions (s.files.names o.image_dir)))) [
            | inr few ↦ rw (has, mkdir, free, few) tt
            | inl two ↦
                rw (has, mkdir, free, two)
                  (resuming-Rebuilt (count_images image_extensions (s.files.names o.image_dir))
                    (with_dir s) (at_least_two _ two))
          ]
    ]
  ]

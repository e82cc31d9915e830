-- ===== src/Reconstruct/Reports.antt =====
-- What the result of `reconstruct` (src/reconstruction/reconstruction.py) says, behind the saved steps.
use extube.Prelude.{ℕ, ◌≤◌, String, true, ◌≡◌, Option, Bool-cases, inl, inr, arith, refl, ltb}
use extube.Gaussian.{GaussianSplattingResult}
use extube.Reconstruct.{State, Machine, Exit, Io, ◌>>=◌, ◌>>◌, require, notify}
use extube.Reconstruct.Stats.{Stats}
use extube.Reconstruct.Workspace.{get_files, get_steps}
use extube.Reconstruct.Pipeline.{
  Options, ReconstructionResult, export_phase, dense_phase, gaussian_phase, potree_phase,
  potree_source, write_metadata, finish, output_phase,
}
use extube.Reconstruct.Hoare.{
  Extends, extends, Extends-refl, Extends-trans, After, Grows, then-After,
}
use extube.Reconstruct.Outputs.{
  notify-Grows, get_files-Grows, export_phase-Grows, dense_phase-Grows, gaussian_phase-Grows,
  potree_phase-Grows,
}

module _ (machine : Machine) (o : Options) where
  -- What the result of the part says of its state and its arguments.
  pub record Reports (num_images : ℕ) (stats : Stats) (s : State) (r : ReconstructionResult)
      (t : State) : Type 0 where
    pub grown : Extends s t
    pub steps : r.steps_completed ≡ t.steps_completed
    pub images : r.num_images ≡ num_images
    pub points : r.num_points3d ≡ stats.num_points3d
    pub some_points : 1 ≤ stats.num_points3d

  positive : (n : ℕ) → ltb 0 n ≡ true → 1 ≤ n
  positive n h = ground arith

  module _ (num_images : ℕ) (stats : Stats) (s : State) (some_points : 1 ≤ stats.num_points3d) where
    abbrev Ends : Exit ReconstructionResult × State → Type 0
    Ends = After (Reports num_images stats s) (Extends s)

    finished-Ends :
        (dense : Option ℕ) (gs : Option GaussianSplattingResult) (potree : Option String)
        (u : State)
        → Extends s u
        → Ends (finish machine o num_images stats dense gs potree u)
    unfolding finish get_steps write_metadata
    finished-Ends dense gs potree u e = record {
      grown = Extends-trans s u _ e (extends u _ refl refl refl);
      steps = refl;
      images = refl;
      points = refl;
      some_points = some_points;
    }

    abbrev closing :
        Option ℕ → Option GaussianSplattingResult → Option String → Io ReconstructionResult
    closing dense gs potree =
        notify "export" 100 "결과 내보내기 완료" >> finish machine o num_images stats dense gs potree

    abbrev converting : Option ℕ → Option GaussianSplattingResult → Io ReconstructionResult
    converting dense gs = get_files >>= λ files.
        potree_phase machine o (potree_source machine o files) >>= closing dense gs

    abbrev training : Option ℕ → Io ReconstructionResult
    training dense = gaussian_phase machine o stats.model_dir >>= converting dense

    abbrev densifying : Io ReconstructionResult
    densifying = dense_phase machine o stats.model_dir >>= training

    abbrev exporting : Io ReconstructionResult
    exporting =
        notify "export" 0 "결과 내보내기 시작" >> (export_phase machine o stats.model_dir >> densifying)

    abbrev Leads : Io ReconstructionResult → Type 0
    Leads m = (u : State) → Extends s u → Ends (m u)

    -- An operation first.
    leads :
        {A : Type 0} (m : Io A) (f : A → Io ReconstructionResult)
        → Grows m
        → ((a : A) → Leads (f a))
        → Leads (m >>= f)
    leads m f h k u e = then-After (Reports num_images stats s) s u m f h e k

    closing-Leads :
        (dense : Option ℕ) (gs : Option GaussianSplattingResult) (potree : Option String)
        → Leads (closing dense gs potree)
    closing-Leads dense gs potree =
        leads (notify "export" 100 "결과 내보내기 완료")
          (λ _. finish machine o num_images stats dense gs potree) (notify-Grows _ _ _)
          (λ _. finished-Ends dense gs potree)

    converting-Leads :
        (dense : Option ℕ) (gs : Option GaussianSplattingResult) → Leads (converting dense gs)
    converting-Leads dense gs =
        leads get_files
          (λ files. potree_phase machine o (potree_source machine o files) >>= closing dense gs)
          get_files-Grows
          λ files.
            leads (potree_phase machine o (potree_source machine o files)) (closing dense gs)
              (potree_phase-Grows machine o (potree_source machine o files))
              (closing-Leads dense gs)

    exporting-Leads : Leads exporting
    exporting-Leads =
        leads (notify "export" 0 "결과 내보내기 시작")
          (λ _. export_phase machine o stats.model_dir >> densifying) (notify-Grows _ _ _)
          λ _.
            leads (export_phase machine o stats.model_dir) (λ _. densifying)
              (export_phase-Grows machine o stats.model_dir)
              λ _.
                leads (dense_phase machine o stats.model_dir) training
                  (dense_phase-Grows machine o stats.model_dir)
                  λ dense.
                    leads (gaussian_phase machine o stats.model_dir) (converting dense)
                      (gaussian_phase-Grows machine o stats.model_dir) (converting-Leads dense)

  pub output_phase-Reports :
      (num_images : ℕ) (stats : Stats) (s : State)
      → After (Reports num_images stats s) (Extends s) (output_phase machine o num_images stats s)
  unfolding output_phase require
  output_phase-Reports num_images stats s = elim (Bool-cases (ltb 0 stats.num_points3d)) [
    | inl has ↦ rw has (
        leads num_images stats s (positive stats.num_points3d has)
          (notify "reconstruction" 100 "Sparse 복원 완료")
          (λ _. exporting num_images stats s (positive stats.num_points3d has)) (notify-Grows _ _ _)
          (λ _. exporting-Leads num_images stats s (positive stats.num_points3d has)) s
          (Extends-refl s))
    | inr lacks ↦ rw lacks (Extends-refl s)
  ]

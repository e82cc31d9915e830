-- ===== src/Reconstruct/Outputs.antt =====
-- The part of `reconstruct` (src/reconstruction/reconstruction.py) behind the saved steps: it only
-- adds to the steps of its run.
use extube.Prelude.{
  ℕ, String, Bool, true, false, ◌≡◌, Option, none, some, [], ◌∷◌, refl, if◌then◌else◌,
}
use extube.Gaussian.{
  GaussianSplattingResult, Result, ok, err, run_gaussian_splatting, default_timeout,
}
use extube.Reconstruct.{
  State, Command, Machine, Exit, done, thrown, Io, ◌>>=◌, ◌>>◌, pure, child, Failure, Files, exists,
  value_error, file_not_found, runtime_error, timeout_expired, os_error, require, require_dir,
  require_file, change_files, mkdir, notify,
}
use extube.Reconstruct.Commands.{
  run_command, export_to_ply, image_undistorter, patch_match_stereo, stereo_fusion, ply_command,
  undistorter_command, stereo_command, fusion_command,
}
use extube.Reconstruct.Stats.{count_ply_points}
use extube.Reconstruct.Workspace.{
  clean_after, cleaning, cleanup_workspace, append_step, get_files, get_steps, or_throw,
  potree_convert, potree_exit, raise_exit,
}
use extube.Reconstruct.Pipeline.{
  Options, below, export_phase, dense_phase, gaussian_phase, potree_phase, note_conversion,
}
use extube.Reconstruct.Hoare.{
  Extends, Extends-refl, Extends-trans, After, Grows, Rests-Grows, bind-Grows, require-Rests,
  change_files-Rests, mkdir-Rests, notify-Rests, run_command-Grows, is_sparse,
}

pub pure-Grows : {A : Type 0} (a : A) → Grows (pure a)
pure-Grows a s = Extends-refl s

append_step-Grows : (step : String) → Grows (append_step step)
unfolding append_step
append_step-Grows step s = record {
  checkpoint_same = refl;
  finished_same = refl;
  more = step ∷ [];
  steps_more = refl;
}

pub get_files-Grows : Grows get_files
unfolding get_files
get_files-Grows s = Extends-refl s

pub get_steps-Grows : Grows get_steps
unfolding get_steps
get_steps-Grows s = Extends-refl s

pub require-Grows : (test : State → Bool) (e : Failure) → Grows (require test e)
require-Grows test e = Rests-Grows (require test e) (require-Rests test e)

pub change_files-Grows : (f : Files → Files) → Grows (change_files f)
change_files-Grows f = Rests-Grows (change_files f) (change_files-Rests f)

pub mkdir-Grows : (dir : String) → Grows (mkdir dir)
mkdir-Grows dir = Rests-Grows (mkdir dir) (mkdir-Rests dir)

pub notify-Grows :
    (step : String) (percent : ℕ) (message : String) → Grows (notify step percent message)
notify-Grows step percent message =
    Rests-Grows (notify step percent message) (notify-Rests step percent message)

pub if-Grows :
    {A : Type 0} (b : Bool) (m k : Io A)
    → Grows m
    → Grows k
    → Grows (λ s. (if◌then◌else◌ {A = Io A} b m k) s)
if-Grows true m k h g = h
if-Grows false m k h g = g

module _ (machine : Machine) (workspace_dir : String) where
  pub clean_after-After :
      {A : Type 0} (P : A → State → Type 0) (Q : State → Type 0)
      → ((s : State) → Q s → Q (cleanup_workspace machine workspace_dir s).1)
      → (r : Exit A × State) → After P Q r
      → After P Q (clean_after machine workspace_dir r)
  unfolding clean_after
  clean_after-After P Q h (done a, s) p = p
  clean_after-After P Q h (thrown (runtime_error message), s) q = h s q
  clean_after-After P Q h (thrown file_not_found, s) q = q
  clean_after-After P Q h (thrown value_error, s) q = q
  clean_after-After P Q h (thrown timeout_expired, s) q = q
  clean_after-After P Q h (thrown (os_error type_name), s) q = q

  pub cleanup_workspace-Grows : Grows (cleanup_workspace machine workspace_dir)
  unfolding cleanup_workspace
  cleanup_workspace-Grows = change_files-Grows _

  cleaning-Grows : {A : Type 0} (m : Io A) → Grows m → Grows (cleaning machine workspace_dir m)
  unfolding cleaning clean_after
  cleaning-Grows {A = A} m h s = of_exit (m s) (h s)
    where
      of_exit :
          (r : Exit A × State) → Extends s r.1 → Extends s (clean_after machine workspace_dir r).1
      of_exit (done a, t) e = e
      of_exit (thrown (runtime_error message), t) e =
          Extends-trans s t _ e (cleanup_workspace-Grows t)
      of_exit (thrown file_not_found, t) e = e
      of_exit (thrown value_error, t) e = e
      of_exit (thrown timeout_expired, t) e = e
      of_exit (thrown (os_error type_name), t) e = e

module _ (machine : Machine) (o : Options) where
  run-Grows :
      (command : Command) → is_sparse command ≡ false → Grows (run_command machine none command)
  run-Grows command other = run_command-Grows machine none command other

  -- A command behind the test of a directory.
  on_dir-Grows : (dir : String) (k : Io (Unit {0})) → Grows k → Grows (require_dir dir >> k)
  unfolding require_dir
  on_dir-Grows dir k h = bind-Grows (require_dir dir) (λ _. k) (require-Grows _ _) (λ _. h)

  into_dir-Grows : {A : Type 0} (dir : String) (k : Io A) → Grows k → Grows (mkdir dir >> k)
  into_dir-Grows dir k h = bind-Grows (mkdir dir) (λ _. k) (mkdir-Grows dir) (λ _. h)

  -- An operation whose step is noted behind it.
  noted-Grows :
      {A : Type 0} (m : Io (Unit {0})) (step : String) (k : Io A)
      → Grows m
      → Grows k
      → Grows (m >> (append_step step >> k))
  noted-Grows m step k h g =
      bind-Grows m (λ _. append_step step >> k) h
        λ _. bind-Grows (append_step step) (λ _. k) (append_step-Grows step) (λ _. g)

  export_to_ply-Grows :
      (model_dir parent name : String) → Grows (export_to_ply machine model_dir parent name)
  unfolding export_to_ply
  export_to_ply-Grows model_dir parent name =
      let command = ply_command model_dir (child parent name) in
      on_dir-Grows model_dir (mkdir parent >> run_command machine none command)
        (into_dir-Grows parent (run_command machine none command) (run-Grows command refl))

  undistorter-Grows :
      (model_dir dir : String)
      → Grows (image_undistorter machine o.image_dir model_dir dir o.max_image_size)
  unfolding image_undistorter
  undistorter-Grows model_dir dir =
      let command = undistorter_command o.image_dir model_dir dir o.max_image_size in
      on_dir-Grows model_dir (mkdir dir >> run_command machine none command)
        (into_dir-Grows dir (run_command machine none command) (run-Grows command refl))

  stereo-Grows : (dir : String) → Grows (patch_match_stereo machine dir o.max_image_size)
  unfolding patch_match_stereo
  stereo-Grows dir =
      let command = stereo_command dir o.max_image_size in
      on_dir-Grows dir (run_command machine none command) (run-Grows command refl)

  fusion-Grows : (dir parent name : String) → Grows (stereo_fusion machine dir parent name)
  unfolding stereo_fusion
  fusion-Grows dir parent name =
      let command = fusion_command dir (child parent name) in
      on_dir-Grows dir (mkdir parent >> run_command machine none command)
        (into_dir-Grows parent (run_command machine none command) (run-Grows command refl))

  pub export_phase-Grows : (model_dir : Option String) → Grows (export_phase machine o model_dir)
  unfolding export_phase
  export_phase-Grows none = pure-Grows tt
  export_phase-Grows (some model_dir) =
      let export = export_to_ply machine model_dir o.workspace_dir "points.ply" in
      if-Grows o.export_ply (export >> append_step "ply_export") (pure tt)
        (bind-Grows export (λ _. append_step "ply_export") (export_to_ply-Grows _ _ _)
          (λ _. append_step-Grows _))
        (pure-Grows tt)

  counted : Io (Option ℕ)
  counted = get_files >>= λ files.
      pure (some (count_ply_points (files.lines (below machine o "dense_points.ply"))))

  counted-Grows : Grows counted
  unfolding counted
  counted-Grows =
      bind-Grows get_files
        (λ files. pure (some (count_ply_points (files.lines (below machine o "dense_points.ply")))))
        get_files-Grows (λ files s. Extends-refl s)

  pub dense_phase-Grows : (model_dir : Option String) → Grows (dense_phase machine o model_dir)
  unfolding dense_phase counted
  dense_phase-Grows none = λ s. Extends-refl s
  dense_phase-Grows (some model_dir) =
      let dense = below machine o "dense" in
      let fusion = stereo_fusion machine dense o.workspace_dir "dense_points.ply" in
      let stereo = patch_match_stereo machine dense o.max_image_size in
      let undistortion = image_undistorter machine o.image_dir model_dir dense o.max_image_size in
      let fused = fusion >> (append_step "stereo_fusion" >> counted) in
      let matched = stereo >> (append_step "patch_match_stereo" >> fused) in
      let all = undistortion >> (append_step "image_undistortion" >> matched) in
      if-Grows o.dense (cleaning machine o.workspace_dir all) (pure none)
        (cleaning-Grows machine o.workspace_dir all (
          noted-Grows undistortion "image_undistortion" matched (undistorter-Grows model_dir dense)
            (noted-Grows stereo "patch_match_stereo" fused (stereo-Grows dense)
              (noted-Grows fusion "stereo_fusion" counted (fusion-Grows dense _ _) counted-Grows))))
        (λ s. Extends-refl s)

  abbrev train : String → Files → Result GaussianSplattingResult
  train model_dir files =
      (run_gaussian_splatting machine.gaussian (files.is_dir model_dir) (files.is_dir o.image_dir)
        none o.gs_max_iterations default_timeout).1

  or_throw-Grows : (r : Result GaussianSplattingResult) → Grows (or_throw r)
  unfolding or_throw
  or_throw-Grows (ok r) s = Extends-refl s
  or_throw-Grows (err e) s = Extends-refl s

  abbrev trained_io : String → Files → Io (Option GaussianSplattingResult)
  trained_io model_dir files =
      or_throw (train model_dir files) >>= λ r. append_step "gaussian_splatting" >> pure (some r)

  trained-Grows : (model_dir : String) (files : Files) → Grows (trained_io model_dir files)
  trained-Grows model_dir files =
      bind-Grows (or_throw (train model_dir files))
        (λ r. append_step "gaussian_splatting" >> pure (some r)) (or_throw-Grows _)
        λ r.
          bind-Grows (append_step "gaussian_splatting") (λ _. pure (some r)) (append_step-Grows _)
            (λ _. pure-Grows (some r))

  pub gaussian_phase-Grows :
      (model_dir : Option String) → Grows (gaussian_phase machine o model_dir)
  unfolding gaussian_phase
  gaussian_phase-Grows none = λ s. Extends-refl s
  gaussian_phase-Grows (some model_dir) =
      let change = change_files machine.gaussian_effect in
      if-Grows o.gaussian_splatting (get_files >>= λ files. change >> trained_io model_dir files)
        (pure none)
        (bind-Grows get_files (λ files. change >> trained_io model_dir files) get_files-Grows
          λ files.
            bind-Grows change (λ _. trained_io model_dir files) (change_files-Grows _)
              (λ _. trained-Grows model_dir files))
        (λ s. Extends-refl s)

  raise_exit-Grows : (e : Exit (Unit {0})) → Grows (raise_exit e)
  unfolding raise_exit
  raise_exit-Grows e s = Extends-refl s

  note_conversion-Grows : (path : Option String) → Grows (note_conversion machine o path)
  unfolding note_conversion
  note_conversion-Grows none = λ s. Extends-refl s
  note_conversion-Grows (some path) =
      bind-Grows (append_step "potree_conversion") (λ _. pure (some path)) (append_step-Grows _)
        (λ _. pure-Grows (some path))

  abbrev found : String → Files → Option String
  found dir files =
      if exists files (child dir "metadata.json") then some (child dir "metadata.json") else none

  potree_convert-Grows : (ply_path dir : String) → Grows (potree_convert machine ply_path dir)
  unfolding potree_convert require_file mkdir
  potree_convert-Grows ply_path dir =
      let reads : Io (Option String) = get_files >>= λ files. pure (found dir files) in
      let ends = raise_exit (potree_exit machine.potree_process) >> reads in
      let converts = change_files machine.potree_effect >> ends in
      if-Grows machine.potree_installed (require_file ply_path >> (mkdir dir >> converts))
        (pure none)
        (bind-Grows (require_file ply_path) (λ _. mkdir dir >> converts) (require-Grows _ _)
          λ _. into_dir-Grows dir converts (
            bind-Grows (change_files machine.potree_effect) (λ _. ends) (change_files-Grows _)
              λ _.
                bind-Grows (raise_exit (potree_exit machine.potree_process)) (λ _. reads)
                  (raise_exit-Grows (potree_exit machine.potree_process))
                  λ _.
                    bind-Grows get_files (λ files. pure (found dir files)) get_files-Grows
                      (λ files s. Extends-refl s)))
        (λ s. Extends-refl s)

  pub potree_phase-Grows : (source : Option String) → Grows (potree_phase machine o source)
  unfolding potree_phase
  potree_phase-Grows none = λ s. Extends-refl s
  potree_phase-Grows (some ply_path) =
      bind-Grows (potree_convert machine ply_path (below machine o "potree"))
        (note_conversion machine o) (potree_convert-Grows _ _) note_conversion-Grows

-- ===== src/Reconstruct/Workspace.antt =====
-- src/reconstruction/reconstruction.py: the checkpoints, the clean-up, the statistics and the
-- conversion for Potree.
use extube.Prelude.{
  String, Bool, ◌&&◌, ◌||◌, not, Option, none, some, List, [], ◌∷◌, ◌++◌, ◌==◌, str_eq, any, keep,
  if◌then◌else◌,
}
use extube.Prelude.Text.{concat, decimal}
use extube.Colmap.{Process, timed_out, exited, signalled}
use extube.Gaussian.{GsError, Result, ok, err, GaussianSplattingResult}
use extube.Reconstruct.Stats.{Stats, model_dirs, analyzed, ends_with}
use extube.Reconstruct.{
  Failure, file_not_found, timeout_expired, runtime_error, Files, CheckpointFile, absent,
  unreadable, saved, State, Machine, Exit, done, thrown, Io, ◌>>=◌, ◌>>◌, pure, child, require_dir,
  require_file, change_files, exists, mkdir,
}

unfoldable pub steps_of : CheckpointFile → List String
steps_of absent = []
steps_of unreadable = []
steps_of (saved step steps) = steps

unfoldable pub save_checkpoint : String → Io (Unit {0})
save_checkpoint step s =
    let steps = s.steps_completed ++ step ∷ [] in
    (done tt, record s { steps_completed = steps; checkpoint = saved step steps })

-- `steps_completed.append(step)`
unfoldable pub append_step : String → Io (Unit {0})
append_step step s = (done tt, record s { steps_completed = s.steps_completed ++ step ∷ [] })

-- A step that is left out when the checkpoint names it, and that is saved once it is done.
unfoldable pub checkpointed : List String → String → Io (Unit {0}) → Io (Unit {0})
unfolding save_checkpoint
checkpointed completed step action =
    if any (str_eq step) completed then pure tt else action >> save_checkpoint step

-- `_load_checkpoint`, as `reconstruct` uses it.
unfoldable pub load_checkpoint : Io (List String)
unfolding steps_of
load_checkpoint s =
    (done (steps_of s.checkpoint), record s { steps_completed = steps_of s.checkpoint })

unfoldable pub is_temporary : String → Bool
unfolding ends_with
is_temporary name = ends_with ".tmp" name || ends_with ".log" name

-- The class of a failure of the training, which is raised as it is.
unfoldable pub failure_of : GsError → Failure
failure_of GsError.file_not_found = file_not_found
failure_of GsError.timeout_expired = timeout_expired
failure_of (GsError.runtime_error message) = runtime_error message

unfoldable pub or_throw : Result GaussianSplattingResult → Io GaussianSplattingResult
unfolding failure_of
or_throw (ok r) s = (done r, s)
or_throw (err e) s = (thrown (failure_of e), s)

unfoldable pub potree_exit : Process → Exit (Unit {0})
potree_exit timed_out = thrown timeout_expired
potree_exit (exited status stderr) =
    if status == 0
    then done tt
    else thrown (
        runtime_error (concat ("PotreeConverter 실패 (code " ∷ decimal status ∷ "): " ∷ stderr ∷ [])))
potree_exit (signalled signal stderr) =
    thrown
      (runtime_error (concat ("PotreeConverter 실패 (code -" ∷ decimal signal ∷ "): " ∷ stderr ∷ [])))

unfoldable pub raise_exit : Exit (Unit {0}) → Io (Unit {0})
raise_exit e s = (e, s)

unfoldable pub get_files : Io Files
get_files s = (done s.files, s)

unfoldable pub get_steps : Io (List String)
get_steps s = (done s.steps_completed, s)

module _ (machine : Machine) where
  -- Without the files that are removed from a directory.
  unfoldable pub without_temporary : String → Files → Files
  unfolding is_temporary
  without_temporary dir files =
      let removed = λ (name : String). is_temporary name && not (machine.locked (child dir name)) in
      record files {
        is_file = λ path.
            files.is_file path
            && not (any (λ name. removed name && str_eq path (child dir name)) (files.names dir));
        names = λ d.
            if str_eq d dir
            then keep (λ name. not (removed name)) (files.names d)
            else files.names d;
      }

  unfoldable pub cleanup_workspace : String → Io (Unit {0})
  unfolding change_files without_temporary
  cleanup_workspace workspace_dir = change_files (without_temporary workspace_dir)

  -- `except RuntimeError`: the workspace is cleaned up, and the error is raised again.
  unfoldable pub clean_after : String → {A : Type 0} → Exit A × State → Exit A × State
  unfolding cleanup_workspace
  clean_after workspace_dir (done a, s) = (done a, s)
  clean_after workspace_dir (thrown (runtime_error message), s) =
      (thrown (runtime_error message), (cleanup_workspace workspace_dir s).1)
  clean_after workspace_dir (thrown e, s) = (thrown e, s)

  unfoldable pub cleaning : String → {A : Type 0} → Io A → Io A
  unfolding clean_after
  cleaning workspace_dir m s = clean_after workspace_dir (m s)

  unfoldable pub potree_convert : String → String → Io (Option String)
  unfolding exists require_file mkdir change_files raise_exit potree_exit get_files
  potree_convert ply_path output_dir =
      if machine.potree_installed
      then (do
        require_file ply_path
        mkdir output_dir
        change_files machine.potree_effect
        raise_exit (potree_exit machine.potree_process)
        files ← get_files
        pure (
            if exists files (child output_dir "metadata.json")
            then some (child output_dir "metadata.json")
            else none))
      else pure none

  -- The first model, and what `model_analyzer` says of it.
  unfoldable pub stats_of : String → List String → Stats
  unfolding analyzed
  stats_of sparse_dir [] = record { num_registered = 0; num_points3d = 0; model_dir = none }
  stats_of sparse_dir (name ∷ names) =
      analyzed (machine.model_analyzer (child sparse_dir name)) (child sparse_dir name)

  unfoldable pub parse_reconstruction_stats : String → Io Stats
  unfolding require_dir get_files stats_of model_dirs
  parse_reconstruction_stats sparse_dir = do
    require_dir sparse_dir
    files ← get_files
    pure (stats_of sparse_dir (model_dirs sparse_dir files))

-- ===== src/Reconstruct/Pipeline.antt =====
-- `reconstruct` of src/reconstruction/reconstruction.py.
use extube.Prelude.{ℕ, String, Bool, ◌&&◌, Option, none, some, List, ltb, leb, if◌then◌else◌}
use extube.Colmap.{ColmapRetryConfig}
use extube.Gaussian.{GaussianSplattingResult, run_gaussian_splatting, default_timeout}
use extube.Reconstruct.Workspace.{
  load_checkpoint, append_step, checkpointed, or_throw, get_files, get_steps, cleaning,
  potree_convert, parse_reconstruction_stats,
}
use extube.Reconstruct.Stats.{Stats, count_ply_points, image_extensions, count_images}
use extube.Reconstruct.{
  value_error, runtime_error, Files, Metadata, Machine, done, Io, ◌>>=◌, ◌>>◌, pure, child, require,
  require_dir, change_files, exists, mkdir, notify,
}
use extube.Reconstruct.Commands.{
  feature_extractor, exhaustive_matcher, sparse_reconstructor, export_to_ply, image_undistorter,
  patch_match_stereo, stereo_fusion,
}

pub record Options : Type 0 where
  pub image_dir : String
  pub workspace_dir : String
  pub camera_model : String
  pub export_ply : Bool
  pub timeout : ℕ
  pub dense : Bool
  pub max_image_size : ℕ
  pub gaussian_splatting : Bool
  pub gs_max_iterations : Option ℕ
  pub retry_config : Option ColmapRetryConfig

pub record ReconstructionResult : Type 0 where
  pub num_images : ℕ
  pub num_registered : ℕ
  pub num_points3d : ℕ
  pub steps_completed : List String
  pub dense_dir : Option String
  pub num_dense_points : Option ℕ
  pub gs_ply_path : Option String
  pub gs_splat_path : Option String
  pub gs_num_iterations : Option ℕ
  pub potree_metadata_path : Option String

module _ (machine : Machine) (o : Options) where
  abbrev pub below : String → String
  below name = child o.workspace_dir name

  -- The three steps of the checkpoint.
  unfoldable pub sparse_phase : List String → Io (Unit {0})
  unfolding checkpointed notify feature_extractor exhaustive_matcher sparse_reconstructor
  sparse_phase completed = do
    checkpointed completed "feature_extraction" (do
      notify "feature_matching" 0 "특징점 추출 시작"
      feature_extractor machine o.image_dir (below "database.db") o.camera_model o.retry_config)
    checkpointed completed "exhaustive_matching" (do
      notify "feature_matching" 50 "특징점 매칭 중"
      exhaustive_matcher machine (below "database.db") o.retry_config)
    notify "feature_matching" 100 "특징점 매칭 완료"
    checkpointed completed "sparse_reconstruction" (do
      notify "reconstruction" 0 "Sparse 복원 시작"
      sparse_reconstructor machine (below "database.db") o.image_dir (below "sparse")
          o.retry_config)

  unfoldable pub export_phase : Option String → Io (Unit {0})
  unfolding export_to_ply append_step
  export_phase none = pure tt
  export_phase (some model_dir) =
      if o.export_ply
      then export_to_ply machine model_dir o.workspace_dir "points.ply" >> append_step "ply_export"
      else pure tt

  -- The number of points, where there are dense points.
  unfoldable pub dense_phase : Option String → Io (Option ℕ)
  unfolding cleaning image_undistorter patch_match_stereo stereo_fusion append_step get_files
      count_ply_points
  dense_phase none = pure none
  dense_phase (some model_dir) =
      if o.dense
      then cleaning machine o.workspace_dir (do
        image_undistorter machine o.image_dir model_dir (below "dense") o.max_image_size
        append_step "image_undistortion"
        patch_match_stereo machine (below "dense") o.max_image_size
        append_step "patch_match_stereo"
        stereo_fusion machine (below "dense") o.workspace_dir "dense_points.ply"
        append_step "stereo_fusion"
        files ← get_files
        pure (some (count_ply_points (files.lines (below "dense_points.ply")))))
      else pure none

  unfoldable pub gaussian_phase : Option String → Io (Option GaussianSplattingResult)
  unfolding get_files or_throw change_files append_step run_gaussian_splatting
  gaussian_phase none = pure none
  gaussian_phase (some model_dir) =
      if o.gaussian_splatting
      then (do
        files ← get_files
        change_files machine.gaussian_effect
        r ←
            or_throw
              (run_gaussian_splatting machine.gaussian (files.is_dir model_dir)
                (files.is_dir o.image_dir) none o.gs_max_iterations default_timeout).1
        append_step "gaussian_splatting"
        pure (some r))
      else pure none

  -- The point cloud that is converted.
  unfoldable pub potree_source : Files → Option String
  unfolding exists
  potree_source files =
      if o.dense && exists files (below "dense_points.ply")
      then some (below "dense_points.ply")
      else if exists files (below "points.ply")
      then some (below "points.ply")
      else none

  -- `if potree_metadata_path: steps_completed.append(...)`
  unfoldable pub note_conversion : Option String → Io (Option String)
  unfolding append_step
  note_conversion none = pure none
  note_conversion (some path) = append_step "potree_conversion" >> pure (some path)

  unfoldable pub potree_phase : Option String → Io (Option String)
  unfolding potree_convert note_conversion
  potree_phase none = pure none
  potree_phase (some ply_path) =
      potree_convert machine ply_path (below "potree") >>= note_conversion

  unfoldable pub count_phase : Io ℕ
  unfolding get_files count_images
  count_phase = do files ← get_files; pure (count_images image_extensions (files.names o.image_dir))

  unfoldable pub write_metadata : Metadata → Io (Unit {0})
  write_metadata m s = (done tt, record s { metadata = some m })

  unfoldable pub no_points_message : String
  no_points_message = "Sparse reconstruction에서 3D 포인트를 생성하지 못했습니다. 이미지 간 겹침이 부족하거나 특징점이 부족합니다."

  abbrev field_of :
      {A : Type 0}
      → (GaussianSplattingResult → Option A)
      → Option GaussianSplattingResult
      → Option A
  field_of f none = none
  field_of f (some r) = f r

  -- The metadata file and the result.
  unfoldable pub finish :
      ℕ
      → Stats
      → Option ℕ
      → Option GaussianSplattingResult
      → Option String
      → Io ReconstructionResult
  unfolding get_steps write_metadata
  finish num_images stats dense gs potree = do
    steps ← get_steps
    write_metadata (record {
      num_images = num_images;
      num_registered = stats.num_registered;
      num_points3d = stats.num_points3d;
      steps_completed = steps;
      num_dense_points = dense;
      gs_num_iterations = field_of (λ r. some r.num_iterations) gs;
      gs_ply_path = field_of (λ r. r.ply_path) gs;
      gs_splat_path = field_of (λ r. r.splat_path) gs;
      potree_metadata_path = potree;
    })
    pure (record {
      num_images = num_images;
      num_registered = stats.num_registered;
      num_points3d = stats.num_points3d;
      steps_completed = steps;
      dense_dir = elim dense [ none ↦ none | some n ↦ some (below "dense") ];
      num_dense_points = dense;
      gs_ply_path = field_of (λ r. r.ply_path) gs;
      gs_splat_path = field_of (λ r. r.splat_path) gs;
      gs_num_iterations = field_of (λ r. some r.num_iterations) gs;
      potree_metadata_path = potree;
    })

  -- What follows the steps of the checkpoint.
  unfoldable pub output_phase : ℕ → Stats → Io ReconstructionResult
  unfolding require notify export_phase dense_phase gaussian_phase potree_phase potree_source
      get_files finish no_points_message
  output_phase num_images stats = do
    require (λ _. ltb 0 stats.num_points3d) (runtime_error no_points_message)
    notify "reconstruction" 100 "Sparse 복원 완료"
    notify "export" 0 "결과 내보내기 시작"
    export_phase stats.model_dir
    dense ← dense_phase stats.model_dir
    gs ← gaussian_phase stats.model_dir
    files ← get_files
    potree ← potree_phase (potree_source files)
    notify "export" 100 "결과 내보내기 완료"
    finish num_images stats dense gs potree

  unfoldable pub reconstruct : Io ReconstructionResult
  unfolding require_dir mkdir count_phase require load_checkpoint cleaning sparse_phase
      parse_reconstruction_stats output_phase
  reconstruct = do
    require_dir o.image_dir
    mkdir o.workspace_dir
    num_images ← count_phase
    require (λ _. leb 2 num_images) value_error
    completed ← load_checkpoint
    cleaning machine o.workspace_dir (sparse_phase completed)
    stats ← parse_reconstruction_stats machine (below "sparse")
    output_phase num_images stats

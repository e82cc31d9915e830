-- ===== src/Reconstruct/Commands.antt =====
-- The steps of src/reconstruction/reconstruction.py that run one command of COLMAP each.
use extube.Prelude.{ℕ, String, Option, none, List, [], ◌∷◌, ◌++◌, ltb, if◌then◌else◌}
use extube.Prelude.Text.{decimal}
use extube.Colmap.{ColmapRetryConfig, Ending, returned, raised, run_colmap}
use extube.Gaussian.{or_else}
use extube.Reconstruct.{
  ◌>>◌, Command, Exit, Io, Machine, child, mkdir, require_dir, require_file, done, thrown,
  runtime_error,
}

-- `_run_colmap` without a configuration tries once.
abbrev pub no_retries : ColmapRetryConfig
no_retries = record {
  max_retries = 0;
  base_delay = 5000;
  backoff_multiplier = 2000;
  timeout_multiplier = 1500;
}

abbrev pub colmap_timeout : ℕ
colmap_timeout = 3600

unfoldable pub exit_of : Ending → Exit (Unit {0})
exit_of returned = done tt
exit_of (raised message) = thrown (runtime_error message)

abbrev pub extractor_command : String → String → String → Command
extractor_command image_dir database_path camera_model = record {
  name = "feature_extractor";
  args =
      "--database_path" ∷ database_path ∷ "--image_path" ∷ image_dir ∷ "--ImageReader.camera_model"
      ∷ camera_model ∷ "--ImageReader.single_camera" ∷ "1" ∷ [];
}

abbrev pub matcher_command : String → Command
matcher_command database_path = record {
  name = "exhaustive_matcher";
  args = "--database_path" ∷ database_path ∷ [];
}

abbrev pub mapper_command : String → String → String → Command
mapper_command database_path image_dir output_dir = record {
  name = "mapper";
  args =
      "--database_path" ∷ database_path ∷ "--image_path" ∷ image_dir ∷ "--output_path" ∷ output_dir
      ∷ [];
}

abbrev pub ply_command : String → String → Command
ply_command sparse_model_dir output_path = record {
  name = "model_converter";
  args =
      "--input_path" ∷ sparse_model_dir ∷ "--output_path" ∷ output_path ∷ "--output_type" ∷ "PLY"
      ∷ [];
}

-- The arguments that limit the size of an image.
unfoldable pub size_args : String → ℕ → List String
size_args option max_image_size =
    if ltb 0 max_image_size then option ∷ decimal max_image_size ∷ [] else []

abbrev pub undistorter_command : String → String → String → ℕ → Command
undistorter_command image_dir sparse_model_dir output_dir max_image_size = record {
  name = "image_undistorter";
  args =
      ("--image_path" ∷ image_dir ∷ "--input_path" ∷ sparse_model_dir ∷ "--output_path" ∷ output_dir
        ∷ "--output_type" ∷ "COLMAP" ∷ [])
      ++ size_args "--max_image_size" max_image_size;
}

abbrev pub stereo_command : String → ℕ → Command
stereo_command workspace_dir max_image_size = record {
  name = "patch_match_stereo";
  args =
      ("--workspace_path" ∷ workspace_dir ∷ "--workspace_format" ∷ "COLMAP" ∷ [])
      ++ size_args "--PatchMatchStereo.max_image_size" max_image_size;
}

abbrev pub fusion_command : String → String → Command
fusion_command workspace_dir output_path = record {
  name = "stereo_fusion";
  args =
      "--workspace_path" ∷ workspace_dir ∷ "--workspace_format" ∷ "COLMAP" ∷ "--output_path"
      ∷ output_path ∷ [];
}

module _ (machine : Machine) where
  unfoldable pub run_command : Option ColmapRetryConfig → Command → Io (Unit {0})
  unfolding exit_of
  run_command config command s =
      let (retries, ending) =
        run_colmap (or_else config no_retries) command.name colmap_timeout
          (machine.process command) in
      (
        exit_of ending,
        record s {
          files = machine.effect command s.files;
          commands = s.commands ++ (command, ending) ∷ [];
          retries = s.retries ++ retries;
        },
      )

  unfoldable pub feature_extractor :
      String → String → String → Option ColmapRetryConfig → Io (Unit {0})
  unfolding require_dir run_command
  feature_extractor image_dir database_path camera_model config = do
    require_dir image_dir
    run_command config (extractor_command image_dir database_path camera_model)

  unfoldable pub exhaustive_matcher : String → Option ColmapRetryConfig → Io (Unit {0})
  unfolding require_file run_command
  exhaustive_matcher database_path config = do
    require_file database_path
    run_command config (matcher_command database_path)

  unfoldable pub sparse_reconstructor :
      String → String → String → Option ColmapRetryConfig → Io (Unit {0})
  unfolding require_file require_dir mkdir run_command
  sparse_reconstructor database_path image_dir output_dir config = do
    require_file database_path
    require_dir image_dir
    mkdir output_dir
    run_command config (mapper_command database_path image_dir output_dir)

  -- An output path is a directory and a name in it.
  unfoldable pub export_to_ply : String → String → String → Io (Unit {0})
  unfolding require_dir mkdir run_command
  export_to_ply sparse_model_dir parent name = do
    require_dir sparse_model_dir
    mkdir parent
    run_command none (ply_command sparse_model_dir (child parent name))

  unfoldable pub image_undistorter : String → String → String → ℕ → Io (Unit {0})
  unfolding require_dir mkdir run_command size_args
  image_undistorter image_dir sparse_model_dir output_dir max_image_size = do
    require_dir sparse_model_dir
    mkdir output_dir
    run_command none (undistorter_command image_dir sparse_model_dir output_dir max_image_size)

  unfoldable pub patch_match_stereo : String → ℕ → Io (Unit {0})
  unfolding require_dir run_command size_args
  patch_match_stereo workspace_dir max_image_size = do
    require_dir workspace_dir
    run_command none (stereo_command workspace_dir max_image_size)

  unfoldable pub stereo_fusion : String → String → String → Io (Unit {0})
  unfolding require_dir mkdir run_command
  stereo_fusion workspace_dir parent name = do
    require_dir workspace_dir
    mkdir parent
    run_command none (fusion_command workspace_dir (child parent name))

-- ===== src/JobStore/Rows.antt =====
-- The rows of the table `jobs`, the fields that `update` sets, and what a statement may raise.
use extube.Prelude.{ℕ, String, Bool, true, false, Option, some, List, [], ◌∷◌}

-- `JobStatus` of src/api/routers/jobs.py: the texts that the column holds.
pub data JobStatus : Type 0 where
  pending processing completed failed retrying cancelled : JobStatus

unfoldable pub status_eq : JobStatus → JobStatus → Bool
status_eq pending pending = true
status_eq processing processing = true
status_eq completed completed = true
status_eq failed failed = true
status_eq retrying retrying = true
status_eq cancelled cancelled = true
status_eq _ _ = false

unfoldable pub status_text : JobStatus → String
status_text pending = "pending"
status_text processing = "processing"
status_text completed = "completed"
status_text failed = "failed"
status_text retrying = "retrying"
status_text cancelled = "cancelled"

-- The dictionary of a `progress` event; the last three stand in those of COLMAP retries.
pub record Progress : Type 0 where
  pub stage : String
  pub percent : ℕ
  pub message : String
  pub colmap_step : Option String
  pub attempt : Option ℕ
  pub max_retries : Option ℕ

-- The dictionary `result` of a finished run.
pub record RunResult : Type 0 where
  pub video_title : Option String
  pub total_frames : ℕ
  pub filtered_frames : ℕ
  pub num_registered : ℕ
  pub num_points3d : ℕ
  pub steps_completed : List String
  pub num_dense_points : Option ℕ
  pub gs_num_iterations : Option ℕ
  pub has_potree : Bool

-- The dictionary `params`: the request without `url` and `force_reprocess`. The two floats stand
-- in thousandths.
pub record Params : Type 0 where
  pub max_height : ℕ
  pub frame_interval : ℕ
  pub blur_threshold : ℕ
  pub camera_model : String
  pub dense : Bool
  pub max_image_size : ℕ
  pub gaussian_splatting : Bool
  pub gs_max_iterations : Option ℕ
  pub priority : String

-- A job as the methods return it.
pub record Job : Type 0 where
  pub id : String
  pub status : JobStatus
  pub url : String
  pub error : Option String
  pub result : Option RunResult
  pub ply_path : Option String
  pub dense_ply_path : Option String
  pub gs_splat_path : Option String
  pub potree_dir : Option String
  pub progress : Option Progress
  pub user_id : Option String
  pub retry_count : Option ℕ
  pub params : Option Params

pub record Row : Type 0 where
  pub job : Job
  pub open job use *
  pub created_at : ℕ

abbrev pub Table : Type 0
Table = List Row

-- A keyword argument of `update`; `other` is any name that is not in the list of allowed ones.
pub data Field : Type 0 where
  status : JobStatus → Field
  error : Option String → Field
  result : Option RunResult → Field
  ply_path dense_ply_path gs_splat_path potree_dir : Option String → Field
  progress : Option Progress → Field
  retry_count : ℕ → Field
  params : Option Params → Field
  other : String → Field

unfoldable pub set_field : Field → Job → Job
set_field (Field.status s) j = record j { status = s }
set_field (Field.error e) j = record j { error = e }
set_field (Field.result r) j = record j { result = r }
set_field (Field.ply_path p) j = record j { ply_path = p }
set_field (Field.dense_ply_path p) j = record j { dense_ply_path = p }
set_field (Field.gs_splat_path p) j = record j { gs_splat_path = p }
set_field (Field.potree_dir p) j = record j { potree_dir = p }
set_field (Field.progress p) j = record j { progress = p }
set_field (Field.retry_count n) j = record j { retry_count = some n }
set_field (Field.params p) j = record j { params = p }
set_field (Field.other column) j = j

unfoldable pub set_fields : List Field → Job → Job
unfolding set_field
set_fields [] j = j
set_fields (f ∷ fs) j = set_fields fs (set_field f j)

pub data StoreError : Type 0 where
  value_error integrity_error operational_error : StoreError

pub data Result {ℓ} (A : Type ℓ) : Type ℓ where
  ok : A → Result A
  err : StoreError → Result A

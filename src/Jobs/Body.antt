-- ===== src/Jobs/Body.antt =====
-- The requests and responses of src/api/routers/jobs.py, with their validators and defaults.
use extube.Prelude.{
  ℕ, String, Bool, true, false, ◌&&◌, ◌||◌, Option, none, some, List, [], ◌∷◌, any, leb, str_eq,
  if◌then◌else◌,
}
use extube.JobStore.{JobStatus, RunResult, Params}
use extube.QueueManager.{JobPriority, high, normal}

-- `_VALID_CAMERA_MODELS`
abbrev pub camera_models : List String
camera_models =
    "SIMPLE_PINHOLE" ∷ "PINHOLE" ∷ "SIMPLE_RADIAL" ∷ "RADIAL" ∷ "OPENCV" ∷ "OPENCV_FISHEYE"
    ∷ "FULL_OPENCV" ∷ "SIMPLE_RADIAL_FISHEYE" ∷ "RADIAL_FISHEYE" ∷ "THIN_PRISM_FISHEYE" ∷ []

pub record JobCreate : Type 0 where
  pub url : String
  pub params : Params
  pub force_reprocess : Bool

is_within : Option ℕ → ℕ → ℕ → Bool
is_within none least most = true
is_within (some n) least most = leb least n && leb n most

-- The bounds and the validators of the fields.
unfoldable pub is_valid_body : JobCreate → Bool
unfolding is_within
is_valid_body b =
    is_within (some b.params.frame_interval) 100 300000
    && is_within (some b.params.blur_threshold) 0 500000
    && any (str_eq b.params.camera_model) camera_models
    && is_within b.params.gs_max_iterations 1 100000
    && (str_eq b.params.priority "normal" || str_eq b.params.priority "high")

unfoldable pub default_params : Params
default_params = record {
  max_height = 1080;
  frame_interval = 1000;
  blur_threshold = 100000;
  camera_model = "SIMPLE_RADIAL";
  dense = false;
  max_image_size = 0;
  gaussian_splatting = false;
  gs_max_iterations = none;
  priority = "normal";
}

pub record JobResponse : Type 0 where
  pub id : String
  pub status : JobStatus
  pub url : String
  pub error : Option String
  pub result : Option RunResult
  pub gs_splat_url : Option String
  pub retry_count : ℕ
  pub queue_position : Option ℕ

-- An empty text is false.
unfoldable pub is_text : Option String → Bool
is_text none = false
is_text (some s) = if str_eq s "" then false else true

unfoldable pub priority_of : String → JobPriority
priority_of text = if str_eq text "high" then high else normal

pub record JobListResponse : Type 0 where
  pub items : List JobResponse
  pub total : ℕ
  pub page : ℕ
  pub per_page : ℕ
  pub total_pages : ℕ

-- `job.get("params") or {}`, with the defaults of `JobCreate`.
unfoldable pub params_of : Option Params → Params
unfolding default_params
params_of none = default_params
params_of (some p) = p

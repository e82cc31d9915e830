-- ===== src/Config.antt =====
-- src/api/config.py: the settings, and their check before the service starts. Delays stand in
-- thousandths of a second.
pub mod Production
mod Tests
use extube.Prelude.{ℕ, ◌*◌, String, Bool, true, ◌&&◌, not, List, map, keep, str_eq, if◌then◌else◌}
use extube.Prelude.Text.{strip}
use extube.Prelude.Split.{split_on, lacks}

abbrev pub default_jwt_secret : String
default_jwt_secret = "change-me-in-production"

pub record Settings : Type 0 where
  pub max_workers : ℕ
  pub gpu_concurrency : ℕ
  pub job_ttl_seconds : ℕ
  pub sse_timeout_seconds : ℕ
  pub max_jobs_per_user : ℕ
  pub max_video_duration_seconds : ℕ
  pub max_video_filesize_mb : ℕ
  pub redis_url : String
  pub rq_queue_name : String
  pub rq_job_timeout : ℕ
  pub queue_max_concurrent : ℕ
  pub output_base_dir : String
  pub db_path : String
  pub intermediate_ttl_seconds : ℕ
  pub result_ttl_seconds : ℕ
  pub cleanup_interval_seconds : ℕ
  pub max_retries : ℕ
  pub retry_base_delay : ℕ
  pub retry_backoff_multiplier : ℕ
  pub colmap_max_retries : ℕ
  pub colmap_retry_base_delay : ℕ
  pub colmap_retry_backoff_multiplier : ℕ
  pub environment : String
  pub cors_origins : String
  pub log_level : String
  pub log_json : Bool
  pub jwt_secret_key : String
  pub jwt_algorithm : String
  pub access_token_expire_minutes : ℕ
  pub refresh_token_expire_days : ℕ
  pub max_login_attempts : ℕ
  pub login_lockout_seconds : ℕ

-- The values where the environment names none.
abbrev pub default_settings : Settings
default_settings = record {
  max_workers = 4;
  gpu_concurrency = 1;
  job_ttl_seconds = 24 * 60 * 60;
  sse_timeout_seconds = 30 * 60;
  max_jobs_per_user = 2;
  max_video_duration_seconds = 600;
  max_video_filesize_mb = 500;
  redis_url = "redis://localhost:6379";
  rq_queue_name = "gpu";
  rq_job_timeout = 3 * 60 * 60;
  queue_max_concurrent = 1;
  output_base_dir = "data/jobs";
  db_path = "data/jobs.db";
  intermediate_ttl_seconds = 7 * 24 * 60 * 60;
  result_ttl_seconds = 30 * 24 * 60 * 60;
  cleanup_interval_seconds = 6 * 60 * 60;
  max_retries = 3;
  retry_base_delay = 10;
  retry_backoff_multiplier = 3;
  colmap_max_retries = 3;
  colmap_retry_base_delay = 5000;
  colmap_retry_backoff_multiplier = 2000;
  environment = "development";
  cors_origins = "http://localhost:5173,http://localhost:3000";
  log_level = "INFO";
  log_json = true;
  jwt_secret_key = default_jwt_secret;
  jwt_algorithm = "HS256";
  access_token_expire_minutes = 30;
  refresh_token_expire_days = 7;
  max_login_attempts = 5;
  login_lockout_seconds = 900;
}

unfoldable pub cors_origin_list : Settings → List String
unfolding split_on strip
cors_origin_list s =
    map strip (keep (λ o. not (str_eq (strip o) "")) (split_on b',' s.cors_origins))

-- The check raises a `RuntimeError`, or passes, with a warning or without one.
pub data Outcome : Type 0 where
  refused warned passed : Outcome

unfoldable pub is_production : Settings → Bool
is_production s = str_eq s.environment "production"

unfoldable pub check_origins : Settings → Outcome → Outcome
unfolding is_production
check_origins s otherwise =
    if is_production s && not (lacks b'*' s.cors_origins) then refused else otherwise

unfoldable pub validate_production_settings : Settings → Outcome
unfolding check_origins is_production
validate_production_settings s =
    if str_eq s.jwt_secret_key default_jwt_secret
    then if is_production s then refused else check_origins s warned
    else check_origins s passed

-- ===== src/Reconstruct.antt =====
-- src/reconstruction/reconstruction.py: the workspace and the monad of its operations.
-- The file system is what Python sees of it; the processes, with what they leave in the file
-- system, are those of a `Machine`. No process writes `checkpoint.json`, which stands beside the
-- other files. Numbers that tools print have no sign.
pub mod Commands
pub mod Stats
pub mod Workspace
pub mod Pipeline
pub mod Hoare
pub mod Resume
pub mod Outputs
pub mod Reports
pub mod Results
mod Tests
use Prim.Native.String
use extube.Prelude.{
  ℕ, ◌+◌, String, Bool, ◌||◌, Option, none, some, List, [], ◌∷◌, ◌++◌, str_eq, if◌then◌else◌,
}
use extube.Prelude.Text.{concat}
use extube.Colmap.{Process, Retry, Ending}
use extube.Gaussian

pub data Failure : Type 0 where
  file_not_found value_error timeout_expired : Failure
  runtime_error : String → Failure
  -- Another `OSError`, by its class.
  os_error : String → Failure

-- A command of COLMAP.
pub record Command : Type 0 where
  pub name : String
  pub args : List String

-- The directories and files, the names in a directory (`glob` and `iterdir`), and the lines of a
-- file that can be opened.
pub record Files : Type 0 where
  pub is_dir : String → Bool
  pub is_file : String → Bool
  pub names : String → List String
  pub lines : String → Option (List String)
  -- The class of the `OSError` with which a directory cannot be made, as where a file stands there.
  pub refuses : String → Option String

-- `checkpoint.json`: no file, one that is no JSON, or one that `_save_checkpoint` wrote.
pub data CheckpointFile : Type 0 where
  absent unreadable : CheckpointFile
  saved : String → List String → CheckpointFile

pub record Notice : Type 0 where
  pub step : String
  pub percent : ℕ
  pub message : String

-- What `reconstruction_metadata.json` holds of the result.
pub record Metadata : Type 0 where
  pub num_images : ℕ
  pub num_registered : ℕ
  pub num_points3d : ℕ
  pub steps_completed : List String
  pub num_dense_points : Option ℕ
  pub gs_num_iterations : Option ℕ
  pub gs_ply_path : Option String
  pub gs_splat_path : Option String
  pub potree_metadata_path : Option String

-- `commands` lists the commands of COLMAP with the way each ended; `steps_completed` is the list
-- of the run.
pub record State : Type 0 where
  pub files : Files
  pub checkpoint : CheckpointFile
  pub steps_completed : List String
  pub commands : List (Command × Ending)
  pub retries : List Retry
  pub notices : List Notice
  pub metadata : Option Metadata

-- The processes that a run meets, and what each leaves in the file system; the output of
-- `model_analyzer` is `none` where it does not end or start.
pub record Machine : Type 0 where
  pub process : Command → ℕ → Process
  pub effect : Command → Files → Files
  pub model_analyzer : String → Option String
  pub potree_installed : Bool
  pub potree_process : Process
  pub potree_effect : Files → Files
  pub gaussian : Gaussian.Machine
  pub gaussian_effect : Files → Files
  -- A file that cannot be removed.
  pub locked : String → Bool

pub data Exit (A : Type 0) : Type 0 where
  done : A → Exit A
  thrown : Failure → Exit A

abbrev pub Io : Type 0 → Type 0
Io A = State → Exit A × State

abbrev pub after : {A B : Type 0} → Exit A × State → (A → Io B) → Exit B × State
after (done a, s) f = f a s
after (thrown e, s) f = (thrown e, s)

infixl 5 ◌>>=◌ ◌>>◌
abbrev pub ◌>>=◌ : {A B : Type 0} → Io A → (A → Io B) → Io B
m >>= f = λ s. after (m s) f

abbrev pub ◌>>◌ : {B : Type 0} → Io (Unit {0}) → Io B → Io B
m >> k = m >>= λ _. k

abbrev pub pure : {A : Type 0} → A → Io A
pure a s = (done a, s)

abbrev pub throw : {A : Type 0} → Failure → Io A
throw e s = (thrown e, s)

abbrev pub child : String → String → String
child dir name = concat (dir ∷ "/" ∷ name ∷ [])

unfoldable pub require : (State → Bool) → Failure → Io (Unit {0})
require test e s = if test s then (done tt, s) else (thrown e, s)

unfoldable pub require_dir : String → Io (Unit {0})
unfolding require
require_dir dir = require (λ s. s.files.is_dir dir) file_not_found

unfoldable pub require_file : String → Io (Unit {0})
unfolding require
require_file path = require (λ s. s.files.is_file path) file_not_found

unfoldable pub exists : Files → String → Bool
exists files path = files.is_file path || files.is_dir path

unfoldable pub change_files : (Files → Files) → Io (Unit {0})
change_files f s = (done tt, record s { files = f s.files })

unfoldable pub mkdir : String → Io (Unit {0})
unfolding change_files
mkdir dir s = elim (s.files.refuses dir) [
  | none ↦ change_files (λ files. record files { is_dir = λ d. str_eq d dir || files.is_dir d }) s
  | some type_name ↦ (thrown (os_error type_name), s)
]

unfoldable pub notify : String → ℕ → String → Io (Unit {0})
notify step percent message s = (
  done tt,
  record s {
    notices = s.notices ++ record { step = step; percent = percent; message = message } ∷ [];
  },
)

-- ===== src/Lib.antt =====
-- EXTube turns YouTube videos into 3D scenes: a FastAPI service takes requests for jobs, keeps them
-- in SQLite, queues them in Redis, and workers run the stages of each job. This library models the
-- service in src/api, the stages in src/downloader, src/extractor and src/reconstruction, and the
-- command line that runs them in turn (src/pipeline.py, src/__main__.py).
--
-- The parts and their files:
--   RateLimit     src/api/rate_limit.py: the sliding windows of the middleware, `dispatch` and all
--                 that it calls. A clock tick is 1/`second` of a second, so that times are numbers.
--   QueueManager  src/api/queue_manager.py: `enqueue`, `activate`, `complete`, `cancel`,
--                 `get_status`, `get_position`, over the interface `Redis`.
--   Redis         the commands that the code calls, with their documented laws (the record `Redis`),
--                 and `redis_model`, which shows that the laws can hold.
--   JobStore      `JobStore` of src/api/db.py: the table is the list of its rows in the order of
--                 insertion. Rows holds the types, Query the filters and orders of `list`, Migration
--                 the columns that an older table gets.
--   Accounts      `UserStore` and `RefreshTokenStore` of src/api/db.py.
--   Auth          src/api/auth.py: registration, login with its lockout, tokens and their rotation.
--                 JWT and bcrypt (`Crypto`) and the counters in Redis (`Counters`) are parameters.
--   Config        src/api/config.py: the settings, their defaults and their check; the other parts
--                 take the fields that they read.
--   Http          what an endpoint answers: a value or the status code of its exception.
--   Paths         the job ids and paths of src/api/dependencies.py and src/api/tasks.py.
--   Messages      `sanitize_for_message` of src/api/dependencies.py.
--   Downloader    the URL pattern of src/downloader/downloader.py; Download holds its two calls of
--                 yt_dlp, whose answers are a parameter (`YtDlp`).
--   Tasks         src/api/tasks.py: `run_pipeline` from activation to completion, with progress,
--                 results, and `_handle_pipeline_error`. What the stages return or raise is an
--                 argument (`Stages`); Worker computes it by Downloader, Extractor and Reconstruct,
--                 where the texts of exceptions and the calls of the callbacks are arguments.
--   Jobs          src/api/routers/jobs.py: the job endpoints, composed of JobStore, QueueManager,
--                 Paths and Downloader.
--   Stream        `stream_job` of src/api/routers/jobs.py: its events, by what it sees at each look.
--   Colmap        `_run_colmap` of src/reconstruction/reconstruction.py: the loop of attempts; the
--                 process is an argument, which says how each attempt ends.
--   Reconstruct   src/reconstruction/reconstruction.py: a run passes a `State` (the files, the
--                 checkpoint, the steps, the commands that ran). Commands holds the steps of one
--                 command each, Stats what is read from tools, Workspace the checkpoints and the
--                 clean-up, Pipeline `reconstruct` itself. The processes of a run, with what they
--                 leave among the files, are a `Machine`.
--   Extractor     src/extractor/extractor.py: the frames of a video, their scores from concurrent
--                 processes, whose order of ending is an argument, and the filter.
--   Gaussian      src/reconstruction/gaussian_splatting.py: presets, timeouts, the training with its
--                 second attempt. Reconstruct calls it as its eighth step.
--   Pipeline      src/pipeline.py: `run`, composed of Downloader, Extractor and Reconstruct over the
--                 files of one `State`; Cli is src/__main__.py, from the options on.
--   Middleware    src/api/middleware.py, over what an application sends; Stack is the order of
--                 src/api/main.py, with RateLimit and a parameter for CORS.
--   Startup       `_lifespan` of src/api/main.py, over JobStore, Cleanup and the relay's thread.
--   Health        the readiness probe and the gauges of src/api/routers/health.py.
--   Storage       `get_user_storage_usage` of src/api/db.py, which src/api/routers/storage.py answers.
--   Progress      `JobProgressManager` of src/api/ws.py. Channel is the relay of a message from Redis,
--                 Subscriber the loop of its thread, Socket the handler of a connection, which rests
--                 on Auth, JobStore and QueueManager.
--   Files         src/api/routers/files.py: the downloads, over Paths and Jobs; `Disk` is what they
--                 see of the file system.
--   Cleanup       src/api/cleanup.py and `cleanup_expired` of src/api/db.py.
--   Prelude       names, lists, dictionaries and text that the others share.
--
-- Stateful code is state passing: an operation takes the state (a table, a Redis database, a world
-- of both) and returns the new one with its answer. An operation under a lock or in a transaction is
-- one step. Every loop is structural recursion; `decimal`, which prints a number, has fuel of the
-- number itself plus one, more than it has digits.
--
-- Numbers: times are whole ticks and not floats, the floats of a request stand in thousandths, and
-- heights and sizes are not negative. Log lines, the bodies of error texts that no code reads, and
-- the JSON encoding of stored records are left out: a stored text stands as the record it encodes.
--
-- Not modelled: the programs and libraries that are called (COLMAP, nerfstudio, PotreeConverter,
-- ffmpeg, yt_dlp, argparse, Starlette, structlog), which are parameters where the code reads what
-- they do; the endpoints that answer a constant; the registration of the routes and of static
-- files in src/api/main.py; src/api/logging_config.py; the web viewer.
-- The programs that are called are taken to be installed: the error of a binary that cannot be started
-- is not among the outcomes of a process. Of the errors of the file system, those are modelled that
-- the code catches or ignores, and that of a directory that cannot be made before a stage runs; the
-- directories of the extraction are always made.
-- Requests of src/api/auth.py are steps one after another. The service runs them in threads without a
-- lock, so that other tries of a name may come between the check of a sign-in and its record.
-- Symbolic links do not occur in `resolve`, calls of RQ are logged and not run, and a coroutine runs
-- to its next `await` as one step.
pub mod Prelude
pub mod RateLimit
pub mod Middleware
pub mod Redis
pub mod QueueManager
pub mod JobStore
pub mod Accounts
pub mod Http
pub mod Auth
pub mod Paths
pub mod Messages
pub mod Tasks
pub mod Downloader
pub mod Pipeline
pub mod Jobs
pub mod Cleanup
pub mod Colmap
pub mod Progress
pub mod Files
pub mod Gaussian
pub mod Reconstruct
pub mod Extractor
pub mod Stream
pub mod Config
pub mod Health
pub mod Storage
pub mod Startup

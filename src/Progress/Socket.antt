-- ===== src/Progress/Socket.antt =====
-- `websocket_job_handler` of src/api/ws.py, up to the loop that waits for the client to leave.
-- `JSON` has been parsed: `Message` is what the first message is. JWT and Redis are the parameters
-- of Auth and QueueManager; `none` for the Redis database is an exception of the queue manager.
use extube.Prelude.{
  ℕ, String, Bool, true, false, Option, none, some, List, [], ◌∷◌, map, ltb, str_eq, if◌then◌else◌,
}
use extube.Prelude.Text.{strip}
use extube.JobStore
use extube.JobStore.{JobStatus, completed, failed, pending, Job, Table, RunResult, status_eq}
use extube.Redis.{Redis}
use extube.QueueManager.{JobMeta, get_position}
use extube.Auth.{Crypto, Claims}
use extube.Progress.{Connection, Enriched, Manager, connect, get_current_seq, get_events_since}

-- A JSON object with its `token` and `last_seq`, another JSON value, or a text that is not JSON.
pub data Message : Type 0 where
  timed_out disconnected other_json : Message
  object : Option String → ℕ → Message
  plain : String → Message

unfoldable pub token_of : Message → Option String
token_of (object token last_seq) = token
token_of (plain text) = some (strip text)
token_of _ = none

unfoldable pub last_seq_of : Message → ℕ
last_seq_of (object token last_seq) = last_seq
last_seq_of _ = 0

-- The dictionary of `_build_initial_state`; a key that is left out is `none`.
pub record InitialState : Type 0 where
  pub status : JobStatus
  pub progress : Option JobStore.Progress
  pub seq : ℕ
  pub timestamp : ℕ
  pub result : Option RunResult
  pub error : Option String
  pub queue_position : Option ℕ

-- A message that the handler sends.
pub data Frame (A : Type 0) : Type 0 where
  initial : InitialState → Frame A
  event : Enriched A → Frame A

-- The socket is closed with a code, the client has left, or it has joined and was sent the frames.
pub data Answer (A : Type 0) : Type 0 where
  closed : ℕ → Answer A
  left : Answer A
  joined : List (Frame A) → Answer A

-- The user's id, where the token is an access token.
unfoldable pub user_of : Claims → Option String
user_of payload = elim payload.sub [
  | none ↦ none
  | some user_id ↦ elim payload.type [
    | none ↦ none
    | some t ↦ if str_eq t "access" then some user_id else none
  ]
]

unfoldable pub user_of_claims : Option Claims → Option String
unfolding user_of
user_of_claims none = none
user_of_claims (some payload) = user_of payload

module _ (K : Crypto) where
  unfoldable pub authenticate_ws_token : ℕ → Option String → Option String
  unfolding user_of_claims
  authenticate_ws_token now none = none
  authenticate_ws_token now (some token) =
      if str_eq token "" then none else user_of_claims (K.decode now token)

-- `job.get("user_id") and job["user_id"] != user["id"]`
unfoldable pub is_denied : String → Job → Bool
is_denied user_id job = elim job.user_id [
  | none ↦ false
  | some owner ↦ if str_eq owner "" then false else if str_eq owner user_id then false else true
]

module _ (R : Redis JobMeta) where
  unfoldable pub build_initial_state : Job → ℕ → ℕ → Option R.Db → InitialState
  unfolding status_eq
  build_initial_state job seq now redis = record {
    status = job.status;
    progress = job.progress;
    seq = seq;
    timestamp = now;
    result = if status_eq job.status completed then job.result else none;
    error = if status_eq job.status failed then job.error else none;
    queue_position =
        if status_eq job.status pending
        then elim redis [ none ↦ none | some db ↦ get_position R job.id db ]
        else none;
  }

  module _ {A : Type 0} (K : Crypto) (now : ℕ) (redis : Option R.Db) (ws : Connection) where
    unfoldable pub state_frames : Job → String → Manager A → List (Frame A)
    state_frames job job_id m =
        initial (build_initial_state job (get_current_seq job_id m) now redis) ∷ []

    -- The events that were missed, and the current state where there are none.
    unfoldable pub missed_frames : Job → String → List (Enriched A) → Manager A → List (Frame A)
    unfolding state_frames
    missed_frames job job_id [] m = state_frames job job_id m
    missed_frames job job_id (e ∷ es) m = map event (e ∷ es)

    unfoldable pub first_frames : Job → String → ℕ → Manager A → List (Frame A)
    unfolding missed_frames state_frames
    first_frames job job_id last_seq m =
        if ltb 0 last_seq
        then missed_frames job job_id (get_events_since job_id last_seq m) m
        else state_frames job job_id m

    unfoldable pub join_job : String → ℕ → String → Manager A → Option Job → Manager A × Answer A
    unfolding is_denied first_frames
    join_job job_id last_seq user_id m none = (m, closed 4004)
    join_job job_id last_seq user_id m (some job) =
        if is_denied user_id job
        then (m, closed 4003)
        else (let m' = connect job_id ws m in (m', joined (first_frames job job_id last_seq m')))

    unfoldable pub admit_client : String → Message → Table → Manager A → Manager A × Answer A
    unfolding join_job authenticate_ws_token token_of last_seq_of
    admit_client job_id message t m = elim (authenticate_ws_token K now (token_of message)) [
      | none ↦ (m, closed 4001)
      | some user_id ↦ join_job job_id (last_seq_of message) user_id m (JobStore.get job_id t)
    ]

    unfoldable pub websocket_job_handler :
        String → Message → Table → Manager A → Manager A × Answer A
    unfolding admit_client
    websocket_job_handler job_id timed_out t m = (m, closed 4001)
    websocket_job_handler job_id disconnected t m = (m, left)
    websocket_job_handler job_id other_json t m = admit_client job_id other_json t m
    websocket_job_handler job_id (object token last_seq) t m =
        admit_client job_id (object token last_seq) t m
    websocket_job_handler job_id (plain text) t m = admit_client job_id (plain text) t m

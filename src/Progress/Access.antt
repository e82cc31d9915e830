-- ===== src/Progress/Access.antt =====
-- Who may watch a job: the checks of `websocket_job_handler` (src/api/ws.py).
use extube.Prelude.{
  ℕ, ◌≡◌, String, false, Option, none, some, arith, refl, ◌∙◌, sym, str_eq, eq_iff, if◌then◌else◌,
  Bool-cases, Option-cases, inl, inr,
}
use extube.JobStore
use extube.JobStore.{Job, Table}
use extube.Redis.{Redis}
use extube.QueueManager.{JobMeta}
use extube.Auth.{Crypto, Claims}
use extube.Progress.{Connection, Manager, connect}
use extube.Progress.Socket.{
  Message, timed_out, disconnected, other_json, object, plain, Answer, closed, left, joined,
  token_of, last_seq_of, user_of, user_of_claims, authenticate_ws_token, is_denied, join_job,
  admit_client, websocket_job_handler,
}

-- The two claims that `user_of` reads.
parts_of : Option String → Option String → Option String
parts_of none type = none
parts_of (some user_id) none = none
parts_of (some user_id) (some t) = if str_eq t "access" then some user_id else none

user_of-parts : (payload : Claims) → user_of payload ≡ parts_of payload.sub payload.type
unfolding user_of parts_of
user_of-parts payload = ground arith

parts_of-some :
    (sub type : Option String) (user_id : String)
    → parts_of sub type ≡ some user_id
    → (sub ≡ some user_id) × (type ≡ some "access")
unfolding parts_of
parts_of-some none type user_id h = cc
parts_of-some (some u) none user_id h = cc
parts_of-some (some u) (some t) user_id h = ground (arith, eq_iff t "access")

claims_of :
    (o : Option Claims) (user_id : String)
    → user_of_claims o ≡ some user_id
    → (payload : Claims) × (o ≡ some payload) × (user_of payload ≡ some user_id)
unfolding user_of_claims
claims_of none user_id h = cc
claims_of (some payload) user_id h = (payload, refl, h)

module _ (K : Crypto) (now : ℕ) where
  -- The message carries an access token of a user who may see the job.
  pub record Grants (message : Message) (job_id : String) (t : Table) : Type 0 where
    pub token : String
    pub payload : Claims
    pub user_id : String
    pub job : Job
    pub carried : token_of message ≡ some token
    pub decoded : K.decode now token ≡ some payload
    pub subject : payload.sub ≡ some user_id
    pub access : payload.type ≡ some "access"
    pub found : JobStore.get job_id t ≡ some job
    pub owned : is_denied user_id job ≡ false

  -- The token and its claims, where the message authenticates a user.
  authenticated :
      (o : Option String) (user_id : String)
      → authenticate_ws_token K now o ≡ some user_id
      → (token : String) × (payload : Claims) × (o ≡ some token)
        × (K.decode now token ≡ some payload)
        × (user_of payload ≡ some user_id)
  unfolding authenticate_ws_token
  authenticated none user_id h = cc
  authenticated (some token) user_id h = elim (Bool-cases (str_eq token "")) [
    | inl blank ↦ cc (rw (blank, authenticate_ws_token) at h)
    | inr filled ↦
        let (payload, decoded, user) =
          claims_of (K.decode now token) user_id (rw (filled, authenticate_ws_token) at h) in
        (token, payload, refl, decoded, user)
  ]

  granted :
      (message : Message) (job_id user_id : String) (t : Table) (job : Job)
      → authenticate_ws_token K now (token_of message) ≡ some user_id
      → JobStore.get job_id t ≡ some job
      → is_denied user_id job ≡ false
      → Grants message job_id t
  granted message job_id user_id t job auth found owned =
      let (token, payload, carried, decoded, user) =
        authenticated (token_of message) user_id auth in
      let claims =
        parts_of-some payload.sub payload.type user_id (sym (user_of-parts payload) ∙ user) in
      record {
        token = token;
        payload = payload;
        user_id = user_id;
        job = job;
        carried = carried;
        decoded = decoded;
        subject = claims.0;
        access = claims.1;
        found = found;
        owned = owned;
      }

  module _ (R : Redis JobMeta) {A : Type 0} (redis : Option R.Db) (ws : Connection) where
    -- What an answer says of the request, and what it leaves of the manager.
    abbrev pub Justifies : Message → String → Table → Manager A → Manager A × Answer A → Type 0
    Justifies message job_id t m (m', joined frames) =
        Grants message job_id t × (m' ≡ connect job_id ws m)
    Justifies message job_id t m (m', closed code) = m' ≡ m
    Justifies message job_id t m (m', left) = m' ≡ m

    join-Justifies :
        (message : Message) (job_id user_id : String) (t : Table) (m : Manager A) (o : Option Job)
        → authenticate_ws_token K now (token_of message) ≡ some user_id
        → JobStore.get job_id t ≡ o
        → Justifies message job_id t m
            (join_job R K now redis ws job_id (last_seq_of message) user_id m o)
    unfolding join_job
    join-Justifies message job_id user_id t m none auth found = refl
    join-Justifies message job_id user_id t m (some job) auth found =
        elim (Bool-cases (is_denied user_id job)) [
          | inl denied ↦ rw denied refl
          | inr owned ↦ rw owned (granted message job_id user_id t job auth found owned, refl)
        ]

    admit-Justifies :
        (message : Message) (job_id : String) (t : Table) (m : Manager A)
        → Justifies message job_id t m (admit_client R K now redis ws job_id message t m)
    unfolding admit_client
    admit-Justifies message job_id t m =
        elim (Option-cases (authenticate_ws_token K now (token_of message))) [
          | inl refused ↦ rw (refused, admit_client) refl
          | inr (user_id, auth) ↦
              rw (auth, admit_client)
                (join-Justifies message job_id user_id t m (JobStore.get job_id t) auth refl)
        ]

    -- A client joins only if its first message carries an access token whose subject may see the job
    -- and the job exists; its connection is then added. Any other answer leaves the manager as it was.
    pub websocket_job_handler-Justifies :
        (message : Message) (job_id : String) (t : Table) (m : Manager A)
        → Justifies message job_id t m (websocket_job_handler R K now redis ws job_id message t m)
    unfolding websocket_job_handler
    websocket_job_handler-Justifies timed_out job_id t m = refl
    websocket_job_handler-Justifies disconnected job_id t m = refl
    websocket_job_handler-Justifies other_json job_id t m = admit-Justifies other_json job_id t m
    websocket_job_handler-Justifies (object token last) job_id t m =
        admit-Justifies (object token last) job_id t m
    websocket_job_handler-Justifies (plain text) job_id t m =
        admit-Justifies (plain text) job_id t m

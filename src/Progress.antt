-- ===== src/Progress.antt =====
-- `JobProgressManager` of src/api/ws.py: the connections of each job and the history of its events.
-- A connection is a number, `A` stands for the data of an event, and times are whole ticks.
-- `broadcast` holds the lock twice, with the sends between: those are two steps here (`record_event`
-- and `drop_dead`), so that other calls may come between them.
pub mod History
pub mod Socket
pub mod Channel
pub mod Subscriber
pub mod Delivery
pub mod Broadcasts
pub mod Access
pub mod Replay
mod Tests
use extube.Prelude.{
  ℕ, ◌+◌, String, Bool, true, false, none, some, List, [], ◌∷◌, ◌++◌, ltb, length, keep, map, drop,
  ◌==◌, if◌then◌else◌,
}
use extube.Prelude.Dict
use extube.Prelude.Dict.{Dict}

abbrev pub max_event_history : ℕ
max_event_history = 50

abbrev pub Connection : Type 0
Connection = ℕ

module _ (A : Type 0) where
  -- `{**data, "seq": seq, "timestamp": time.time()}`
  pub record Enriched : Type 0 where
    pub payload : A
    pub seq : ℕ
    pub timestamp : ℕ

  pub record Manager : Type 0 where
    pub connections : Dict (List Connection)
    pub seqs : Dict ℕ
    pub events : Dict (List Enriched)

  -- The calls of `broadcast` that event loops are to run.
  abbrev pub Scheduled : Type 0
  Scheduled = List (String × A)

  abbrev pub new_manager : Manager
  new_manager = record { connections = []; seqs = []; events = [] }

unfoldable pub remove_first : Connection → List Connection → List Connection
remove_first ws [] = []
remove_first ws (c ∷ cs) = let rest = remove_first ws cs in if c == ws then cs else c ∷ rest

-- `if not conns: del self._connections[job_id]`
unfoldable pub keep_unless_empty :
    String → List Connection → Dict (List Connection) → Dict (List Connection)
keep_unless_empty job_id [] connections = Dict.remove job_id connections
keep_unless_empty job_id (c ∷ cs) connections = Dict.put job_id (c ∷ cs) connections

unfoldable pub remove_all : List Connection → List Connection → List Connection
unfolding remove_first
remove_all [] conns = conns
remove_all (ws ∷ dead) conns = remove_all dead (remove_first ws conns)

module _ {A : Type 0} where
  -- `deque(maxlen=_MAX_EVENT_HISTORY).append`
  unfoldable pub push : Enriched A → List (Enriched A) → List (Enriched A)
  push e es =
      let es' = es ++ e ∷ [] in if ltb max_event_history (length es') then drop 1 es' else es'

  unfoldable pub connect : String → Connection → Manager A → Manager A
  connect job_id ws m = record m {
    connections = Dict.put job_id (Dict.get_or [] job_id m.connections ++ ws ∷ []) m.connections;
  }

  unfoldable pub disconnect : String → Connection → Manager A → Manager A
  unfolding keep_unless_empty remove_first
  disconnect job_id ws m = record m {
    connections =
        keep_unless_empty job_id (remove_first ws (Dict.get_or [] job_id m.connections))
          m.connections;
  }

  unfoldable pub get_current_seq : String → Manager A → ℕ
  get_current_seq job_id m = Dict.get_or 0 job_id m.seqs

  unfoldable pub get_events_since : String → ℕ → Manager A → List (Enriched A)
  get_events_since job_id last_seq m =
      keep (λ e. ltb last_seq e.seq) (Dict.get_or [] job_id m.events)

  unfoldable pub has_connections : String → Manager A → Bool
  has_connections job_id m = elim (Dict.get_or [] job_id m.connections) [
    | [] ↦ false
    | c ∷ cs ↦ true
  ]

  -- The first locked part of `broadcast`: the event is numbered and kept.
  unfoldable pub record_event : String → A → ℕ → Manager A → Manager A × Enriched A
  unfolding push get_current_seq
  record_event job_id payload now m =
      let seq = get_current_seq job_id m + 1 in
      let enriched : Enriched A = record { payload = payload; seq = seq; timestamp = now } in
      (
        record m {
          seqs = Dict.put job_id seq m.seqs;
          events = Dict.put job_id (push enriched (Dict.get_or [] job_id m.events)) m.events;
        },
        enriched,
      )

  -- The second: connections whose send failed are dropped. A job without a list gets none.
  unfoldable pub drop_dead : String → List Connection → Manager A → Manager A
  unfolding remove_all
  drop_dead job_id dead m = elim (Dict.get job_id m.connections) [
    | none ↦ m
    | some conns ↦ record m { connections = Dict.put job_id (remove_all dead conns) m.connections }
  ]

  -- `broadcast` with nothing between its parts, and what it sends: `alive` says whose send succeeds.
  unfoldable pub broadcast :
      String → A → ℕ → (Connection → Bool) → Manager A → Manager A × List (Connection × Enriched A)
  unfolding record_event drop_dead
  broadcast job_id payload now alive m =
      let (m₁, enriched) = record_event job_id payload now m in
      let conns = Dict.get_or [] job_id m₁.connections in
      (
        drop_dead job_id (keep (λ ws. if alive ws then false else true) conns) m₁,
        map (λ ws. (ws, enriched)) (keep alive conns),
      )

  -- `broadcast_progress`, by whether an event loop runs in the thread of its caller: elsewhere
  -- `get_running_loop` raises the `RuntimeError` that is passed over. Nothing is scheduled for a job
  -- that nobody watches.
  unfoldable pub broadcast_progress : Bool → String → A → Manager A → Scheduled A → Scheduled A
  unfolding has_connections
  broadcast_progress in_loop job_id payload m scheduled =
      if has_connections job_id m
      then (if in_loop then scheduled ++ (job_id, payload) ∷ [] else scheduled)
      else scheduled

-- ===== src/Progress/Tests.antt =====
-- Progress notices (src/api/ws.py) on one job, with a connection that reads each message.
use extube.Prelude.{
  ℕ, ◌≡◌, ◌-◌, ◌==◌, String, not, eq_iff, true, false, none, some, List, [], ◌∷◌, map, refl, arith,
  length, drop,
}
use Prim.Native.Nat.{max}
use extube.Prelude.Dict
use extube.JobStore
use extube.JobStore.{JobStatus, processing, Job, Table, new_job}
use extube.Redis.{Redis}
use extube.Redis.Model.{redis_model}
use extube.QueueManager.{JobMeta}
use extube.Auth.{Claims, Crypto}
use extube.Paths.{is_valid_job_id}
use extube.Progress.{
  Manager, new_manager, max_event_history, get_current_seq, get_events_since, broadcast_progress,
}
use extube.Progress.History.{
  Step, connects, disconnects, records, perform_all, numbered, get_events_since-numbered,
}
use extube.Progress.Channel.{progress_channel, job_of_channel, job_of_channel-progress_channel}
use extube.Progress.Subscriber.{Poll, nothing, pmessage}
use extube.Progress.Delivery.{received, Watches}
use extube.Progress.Broadcasts.{Call, all_told, broadcast_all, broadcast_all-all_told}
use extube.Progress.Socket.{
  object, event, joined, authenticate_ws_token, is_denied, websocket_job_handler,
}
use extube.Progress.Access.{Justifies, websocket_job_handler-Justifies}
use extube.Progress.Replay.{websocket_job_handler-numbered}

abbrev R : Redis JobMeta
R = redis_model JobMeta

abbrev claims : Claims
claims = record { sub = some "ann"; username = none; jti = none; exp = 100; type = some "access" }

same_claims : (p q : Claims) → some claims ≡ some p → some claims ≡ some q → p ≡ q
same_claims p q d e = cc

abbrev K : Crypto
K = record {
  encode = λ c. "token";
  decode = λ now token. some claims;
  hash = λ p. p;
  verify = λ p h. false;
  decode_stable = λ t u token p q d e. same_claims p q d e;
}

abbrev steps : List (Step ℕ)
steps =
    connects "j" 1 ∷ records "j" 10 5 ∷ records "k" 11 6 ∷ records "j" 12 7 ∷ disconnects "j" 1 ∷ []

abbrev job : Job
job = new_job "j" processing "u" (some "ann")

abbrev table : Table
table = record { job = job; created_at = 0 } ∷ []

get_events_since-numbered_example :
    (get_current_seq "j" (perform_all steps (new_manager ℕ)) ≡ length (numbered "j" 0 steps))
    × (get_events_since "j" 1 (perform_all steps (new_manager ℕ))
        ≡ drop (max (length (numbered "j" 0 steps) - max_event_history) 1) (numbered "j" 0 steps))
get_events_since-numbered_example = get_events_since-numbered "j" 1 steps

job_of_channel-progress_channel_example :
    job_of_channel (progress_channel "0123456789ab") ≡ some "0123456789ab"
unfolding is_valid_job_id
job_of_channel-progress_channel_example = job_of_channel-progress_channel "0123456789ab" refl

websocket_job_handler-Justifies_example :
    Justifies K 5 R none 3
      (object (some "token") 1)
      "j"
      table
      (new_manager ℕ)
      (websocket_job_handler R K 5 none 3 "j" (object (some "token") 1) table (new_manager ℕ))
websocket_job_handler-Justifies_example =
    websocket_job_handler-Justifies K 5 R none 3 (object (some "token") 1) "j" table (new_manager ℕ)

websocket_job_handler-numbered_example :
    (websocket_job_handler R K 5 none 3 "j"
      (object (some "token") 1)
      table
      (perform_all steps (new_manager ℕ))).1
    ≡ joined (map event (drop 1 (numbered "j" 0 steps)))
unfolding authenticate_ws_token JobStore.get new_job is_denied
websocket_job_handler-numbered_example =
    websocket_job_handler-numbered R K 5 none 3 "j" "token" "ann" 1 steps table job refl refl refl
      (omega arith) (omega arith) (omega arith)

-- Two jobs, the first watched by two clients, one of which has gone.
abbrev first_id : String
first_id = "aaaaaaaaaaaa"

abbrev calls : List (Call ℕ)
calls = (first_id, (10, 1)) ∷ ("bbbbbbbbbbbb", (20, 3)) ∷ (first_id, (30, 5)) ∷ []

abbrev watching : Manager ℕ
watching = record {
  connections = (first_id, 7 ∷ 8 ∷ []) ∷ [];
  seqs = (first_id, 4) ∷ [];
  events = [];
}

watches : Watches 8 first_id watching
unfolding Dict.get_or
watches = record {
  here = refl;
  only = λ other differs. ground (arith, differs, eq_iff first_id other, eq_iff other first_id);
}

broadcast_all-all_told_example :
    received 8 (broadcast_all (λ c. not (c == 7)) calls watching).1
    ≡ all_told first_id (get_current_seq first_id watching) calls
broadcast_all-all_told_example =
    broadcast_all-all_told 8 (λ c. not (c == 7)) refl first_id calls watching watches

abbrev polls : List (Poll ℕ × Manager ℕ)
polls =
    (pmessage (progress_channel first_id) (some 10), watching)
    ∷ (nothing, watching)
    ∷ (pmessage (progress_channel first_id) (some 30), watching)
    ∷ []

-- From a thread with an event loop, the same message is broadcast.
scheduled_in_a_loop : broadcast_progress true first_id 10 watching [] ≡ (first_id, 10) ∷ []
unfolding broadcast_progress Dict.get_or
scheduled_in_a_loop = refl

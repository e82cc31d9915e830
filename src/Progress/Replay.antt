-- ===== src/Progress/Replay.antt =====
-- What a client that comes back is sent: the handler of src/api/ws.py after any history of events.
use Prim.Native.Nat.{max}
use extube.Prelude.{
  ℕ, zero, suc, ◌+◌, ◌-◌, ◌≤◌, ◌<◌, ◌≡◌, String, Option, some, false, List, [], ◌∷◌, map, arith,
  refl, ap, ◌∙◌, length, drop,
}
use extube.JobStore
use extube.JobStore.{Job, Table}
use extube.Redis.{Redis}
use extube.QueueManager.{JobMeta}
use extube.Auth.{Crypto}
use extube.Progress.{
  max_event_history, Connection, Enriched, Manager, new_manager, connect, get_events_since,
}
use extube.Progress.History.{Step, perform_all, numbered, get_events_since-numbered, drop_same}
use extube.Progress.Socket.{
  object, event, joined, authenticate_ws_token, is_denied, websocket_job_handler, admit_client,
  join_job, first_frames, missed_frames,
}

module _ (R : Redis JobMeta) {A : Type 0} (K : Crypto) (now : ℕ) (redis : Option R.Db)
    (ws : Connection) where
  drop-cons :
      (d : ℕ) (es : List (Enriched A))
      → d < length es
      → (e : Enriched A) × (rest : List (Enriched A)) × (drop d es ≡ e ∷ rest)
  drop-cons zero [] h = absurd (omega arith)
  drop-cons zero (e ∷ es) h = (e, es, refl)
  drop-cons (suc d) [] h = absurd (omega arith)
  drop-cons (suc d) (e ∷ es) h = drop-cons d es (omega arith)

  missed_events :
      (job : Job) (job_id : String) (es : List (Enriched A)) (m : Manager A)
      → (e : Enriched A) × (rest : List (Enriched A)) × (es ≡ e ∷ rest)
      → missed_frames R K now redis ws job job_id es m ≡ map event es
  unfolding missed_frames
  missed_events job job_id es m (e, rest, h) = rw h refl

  joined_frames :
      (job_id : String) (last : ℕ) (job : Job) (m : Manager A)
      → 0 < last
      → first_frames R K now redis ws job job_id last (connect job_id ws m)
        ≡ missed_frames R K now redis ws job job_id
            (get_events_since job_id last m)
            (connect job_id ws m)
  unfolding first_frames get_events_since connect
  joined_frames job_id last job m pos = ground arith

  join_answer :
      (job_id user_id : String) (last : ℕ) (o : Option Job) (job : Job) (m : Manager A)
      → o ≡ some job
      → is_denied user_id job ≡ false
      → (join_job R K now redis ws job_id last user_id m o).1
        ≡ joined (first_frames R K now redis ws job job_id last (connect job_id ws m))
  unfolding join_job
  join_answer job_id user_id last o job m found owned = rw (found, join_job) (rw owned refl)

  -- A client that presents a valid token and the number of an event of the job, which is not the
  -- last and one of the 50 latest or the one before them, is sent each later event once and in
  -- order, whatever the coroutines did before.
  pub websocket_job_handler-numbered :
      (job_id token user_id : String) (last : ℕ) (ss : List (Step A)) (t : Table) (job : Job)
      → authenticate_ws_token K now (some token) ≡ some user_id
      → JobStore.get job_id t ≡ some job
      → is_denied user_id job ≡ false
      → 0 < last
      → last < length (numbered job_id 0 ss)
      → length (numbered job_id 0 ss) ≤ last + max_event_history
      → (websocket_job_handler R K now redis ws job_id
          (object (some token) last)
          t
          (perform_all ss (new_manager A))).1
        ≡ joined (map event (drop last (numbered job_id 0 ss)))
  unfolding websocket_job_handler admit_client
  websocket_job_handler-numbered job_id token user_id last ss t job auth found owned pos below
        near =
      let m = perform_all ss (new_manager A) in
      let all = numbered job_id 0 ss in
      let missed : get_events_since job_id last m ≡ drop last all =
        (get_events_since-numbered job_id last ss).1
        ∙ drop_same all (max (length all - max_event_history) last) last (omega arith) in
      rw (auth, admit_client)
        (join_answer job_id user_id last (JobStore.get job_id t) job m found owned
          ∙ ap joined (
              joined_frames job_id last job m pos
              ∙ ap (λ es. missed_frames R K now redis ws job job_id es (connect job_id ws m)) missed
              ∙ missed_events job job_id (drop last all) (connect job_id ws m)
                  (drop-cons last all below)))

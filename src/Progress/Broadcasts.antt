-- ===== src/Progress/Broadcasts.antt =====
-- What a series of calls of `JobProgressManager.broadcast` (src/api/ws.py) sends to one client.
use extube.Prelude.{
  ℕ, ◌+◌, ◌≡◌, String, Bool, true, List, [], ◌∷◌, ◌++◌, length, Bool-cases, inl, inr, arith, str_eq,
  eq_iff, refl, ap, ◌∙◌, if◌then◌else◌,
}
use extube.Progress.{Connection, Enriched, Manager, get_current_seq, broadcast}
use extube.Progress.Delivery.{
  received, conns, times, copies, Watches, received-append, broadcast-times, broadcast-received,
  broadcast-seq, numbered,
}

-- The job, the data and the time of a call.
abbrev pub Call : Type 0 → Type 0
Call A = String × (A × ℕ)

-- The calls, one after another, and what they send.
unfoldable pub broadcast_all :
    {A : Type 0}
    → (Connection → Bool)
    → List (Call A)
    → Manager A
    → Manager A × List (Connection × Enriched A)
broadcast_all alive [] m = (m, [])
broadcast_all alive ((job_id, (payload, now)) ∷ calls) m =
    let (m₁, sent) = broadcast job_id payload now alive m in
    let (m₂, rest) = broadcast_all alive calls m₁ in (m₂, sent ++ rest)

-- What a client of a job is owed for a call: the events of its job, numbered on from `n`.
abbrev pub told : {A : Type 0} → String → ℕ → Call A → List (Enriched A)
told job_id n (k, (payload, now)) =
    if str_eq k job_id then record { payload = payload; seq = n + 1; timestamp = now } ∷ [] else []

-- For all calls, in order.
abbrev pub all_told : {A : Type 0} → String → ℕ → List (Call A) → List (Enriched A)
all_told job_id n [] = []
all_told job_id n (call ∷ calls) =
    let events = told job_id n call in events ++ all_told job_id (n + length events) calls

module _ {A : Type 0} (ws : Connection) (alive : Connection → Bool) (lives : alive ws ≡ true)
    (job_id : String) where
  still_Watches :
      (k : String) (payload : A) (now : ℕ) (m : Manager A)
      → Watches ws job_id m
      → Watches ws job_id (broadcast k payload now alive m).0
  still_Watches k payload now m w = record {
    here = broadcast-times ws alive lives k payload now m job_id ∙ w.here;
    only = λ other differs.
        broadcast-times ws alive lives k payload now m other ∙ w.only other differs;
  }

  -- One call: what the client is sent and what the number of its job becomes.
  Sends : String → A → ℕ → Manager A → Type 0
  Sends k payload now m =
      (received ws (broadcast k payload now alive m).1
        ≡ told job_id (get_current_seq job_id m) (k, (payload, now)))
      × (get_current_seq job_id (broadcast k payload now alive m).0
          ≡ get_current_seq job_id m
            + length (told job_id (get_current_seq job_id m) (k, (payload, now))))

  broadcast-Sends :
      (k : String) (payload : A) (now : ℕ) (m : Manager A)
      → Watches ws job_id m
      → Sends k payload now m
  unfolding Sends
  broadcast-Sends k payload now m w = elim (Bool-cases (str_eq k job_id)) [
    | inl hit ↦
        let same : k ≡ job_id = (eq_iff k job_id).0 hit in
        rw hit (
          broadcast-received ws alive lives k payload now m
              ∙ ap (λ n. copies n (numbered ws alive lives k payload now m))
                  (ap (λ i. times ws (conns i m)) same ∙ w.here)
              ∙ ap
                  (λ i.
                    record { payload = payload; seq = get_current_seq i m + 1; timestamp = now }
                    ∷ [])
                  same,
          broadcast-seq ws alive lives k payload now m job_id
              ∙ rw hit (ap (λ i. get_current_seq i m + 1) same),
        )
    | inr miss ↦ rw miss (
      broadcast-received ws alive lives k payload now m
          ∙ ap (λ n. copies n (numbered ws alive lives k payload now m)) (w.only k miss),
      broadcast-seq ws alive lives k payload now m job_id ∙ rw miss (omega arith),
    )
  ]

  -- However many events are broadcast, one call after another, and whoever else watches, a client
  -- that watches one job, once, and whose sends succeed is sent exactly the events of its job, in
  -- the order of the calls and numbered on from the number that the job had.
  pub broadcast_all-all_told :
      (calls : List (Call A)) (m : Manager A)
      → Watches ws job_id m
      → received ws (broadcast_all alive calls m).1
        ≡ all_told job_id (get_current_seq job_id m) calls
  unfolding broadcast_all Sends
  broadcast_all-all_told [] m w = refl
  broadcast_all-all_told ((k, (payload, now)) ∷ calls) m w =
      let (sends, counts) = broadcast-Sends k payload now m w in
      let m₁ = (broadcast k payload now alive m).0 in
      received-append ws (broadcast k payload now alive m).1 (broadcast_all alive calls m₁).1
      ∙ ap (λ l. l ++ received ws (broadcast_all alive calls m₁).1) sends
      ∙ ap (λ l. told job_id (get_current_seq job_id m) (k, (payload, now)) ++ l)
          (broadcast_all-all_told calls m₁ (still_Watches k payload now m w)
            ∙ ap (λ n. all_told job_id n calls) counts)

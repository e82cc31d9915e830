-- ===== src/Progress/History.antt =====
-- What the history of src/api/ws.py holds of the events of a job.
use Prim.Native.Nat.{max}
use extube.Prelude.{
  ℕ, zero, suc, ◌+◌, ◌-◌, ◌≤◌, ◌≡◌, String, false, List, [], ◌∷◌, ◌++◌, arith, refl, ap, ◌∙◌, sym,
  ltb, ltb→lt, length, keep, drop, length-append, str_eq, eq_iff, eq_refl, if◌then◌else◌,
  Bool-cases, inl, inr,
}
use mathlib.Core.Path.{subst}
use mathlib.Core.List.{append-nil, append_assoc}
use extube.Prelude.Dict
use extube.Prelude.Dict.{get_or-put}
use extube.Progress.{
  max_event_history, Connection, Enriched, Manager, new_manager, push, connect, disconnect,
  record_event, drop_dead, get_current_seq, get_events_since,
}

module _ (A : Type 0) where
  -- The steps of all coroutines, in the order in which they hold the lock.
  pub data Step : Type 0 where
    connects disconnects : String → Connection → Step
    records : String → A → ℕ → Step
    drops : String → List Connection → Step

module _ {A : Type 0} where
  unfoldable pub perform : Step A → Manager A → Manager A
  perform (connects j ws) m = connect j ws m
  perform (disconnects j ws) m = disconnect j ws m
  perform (records j payload now) m = (record_event j payload now m).0
  perform (drops j dead) m = drop_dead j dead m

  unfoldable pub perform_all : List (Step A) → Manager A → Manager A
  unfolding perform
  perform_all [] m = m
  perform_all (s ∷ ss) m = perform_all ss (perform s m)

  -- The contract: the events of a job, numbered from `n + 1` on.
  abbrev pub numbered : String → ℕ → List (Step A) → List (Enriched A)
  numbered job_id n [] = []
  numbered job_id n (records j payload now ∷ ss) =
      if str_eq j job_id
      then record { payload = payload; seq = n + 1; timestamp = now } ∷ numbered job_id (n + 1) ss
      else numbered job_id n ss
  numbered job_id n (connects j ws ∷ ss) = numbered job_id n ss
  numbered job_id n (disconnects j ws ∷ ss) = numbered job_id n ss
  numbered job_id n (drops j dead ∷ ss) = numbered job_id n ss

  drop-append :
      (d : ℕ) (xs ys : List (Enriched A)) → d ≤ length xs → drop d (xs ++ ys) ≡ drop d xs ++ ys
  drop-append zero xs ys h = refl
  drop-append (suc d) [] ys h = absurd (omega arith)
  drop-append (suc d) (x ∷ xs) ys h = drop-append d xs ys (omega arith)

  length-drop : (d : ℕ) (xs : List (Enriched A)) → length (drop d xs) ≡ length xs - d
  length-drop zero xs = omega arith
  length-drop (suc d) [] = omega arith
  length-drop (suc d) (x ∷ xs) = omega (arith, length-drop d xs)

  drop-drop : (d : ℕ) (xs : List (Enriched A)) → drop 1 (drop d xs) ≡ drop (suc d) xs
  drop-drop zero xs = refl
  drop-drop (suc d) [] = refl
  drop-drop (suc d) (x ∷ xs) = drop-drop d xs

  pub drop_same : (xs : List (Enriched A)) (d d' : ℕ) → d ≡ d' → drop d xs ≡ drop d' xs
  drop_same xs d d' h = ap (λ n. drop n xs) h

  -- The last 50 of a list.
  abbrev recent : List (Enriched A) → List (Enriched A)
  recent xs = drop (length xs - max_event_history) xs

  push-recent :
      (e : Enriched A) (xs : List (Enriched A)) → push e (recent xs) ≡ recent (xs ++ e ∷ [])
  unfolding push
  push-recent e xs = elim (Bool-cases (ltb max_event_history (length (recent xs ++ e ∷ [])))) [
    | inl full ↦ rw full (
        ap (drop 1) (sym (drop-append (length xs - 50) xs (e ∷ []) (omega arith)))
        ∙ drop-drop (length xs - 50) (xs ++ e ∷ [])
        ∙ drop_same (xs ++ e ∷ []) (suc (length xs - 50)) (length (xs ++ e ∷ []) - 50)
            (omega (arith, sizes, ltb→lt _ _ full)))
    | inr room ↦ rw room (
        sym (drop-append (length xs - 50) xs (e ∷ []) (omega arith))
        ∙ drop_same (xs ++ e ∷ []) (length xs - 50) (length (xs ++ e ∷ []) - 50)
            (ground (arith, sizes, room)))
  ]
    where
      sizes :
          (length (recent xs ++ e ∷ []) ≡ length xs - (length xs - 50) + 1)
          × (length (xs ++ e ∷ []) ≡ length xs + 1)
      sizes = (
        omega (arith, length-append (recent xs) (e ∷ []), length-drop (length xs - 50) xs),
        omega (arith, length-append xs (e ∷ [])),
      )

  module _ (job_id : String) where
    -- What the manager holds of a job whose events so far are `past`.
    abbrev Holds : List (Enriched A) → Manager A → Type 0
    Holds past m =
        (Dict.get_or [] job_id m.events ≡ recent past) × (get_current_seq job_id m ≡ length past)

    own_seq :
        (past : List (Enriched A)) (e : Enriched A) (payload : A) (now : ℕ) (m : Manager A)
        → get_current_seq job_id m ≡ length past
        → get_current_seq job_id (record_event job_id payload now m).0 ≡ length (past ++ e ∷ [])
    unfolding record_event get_current_seq
    own_seq past e payload now m h =
        rw get_or-put (rw (eq_refl job_id) (omega (arith, h, length-append past (e ∷ []))))

    own-Holds :
        (past : List (Enriched A)) (payload : A) (now : ℕ) (m : Manager A)
        → Holds past m
        → Holds
            (past ++ record { payload = payload; seq = length past + 1; timestamp = now } ∷ [])
            (record_event job_id payload now m).0
    unfolding record_event
    own-Holds past payload now m (events, seq) = (
      rw get_or-put (rw (eq_refl job_id) (rw (seq, events) (push-recent _ past))),
      own_seq past _ payload now m seq,
    )

    other-Holds :
        (past : List (Enriched A)) (j : String) (payload : A) (now : ℕ) (m : Manager A)
        → str_eq j job_id ≡ false
        → Holds past m
        → Holds past (record_event j payload now m).0
    unfolding record_event get_current_seq
    other-Holds past j payload now m other (events, seq) =
        (rw get_or-put (rw other events), rw get_or-put (rw other seq))

    record-Holds :
        (past : List (Enriched A)) (j : String) (payload : A) (now : ℕ) (m : Manager A)
        → Holds past m
        → Holds
            (past ++ numbered job_id (length past) (records j payload now ∷ []))
            (record_event j payload now m).0
    record-Holds past j payload now m h = elim (Bool-cases (str_eq j job_id)) [
      | inl same ↦ rw same (
          subst
            (λ k.
              Holds
                (past ++ record { payload = payload; seq = length past + 1; timestamp = now } ∷ [])
                (record_event k payload now m).0)
            (sym ((eq_iff j job_id).0 same)) (own-Holds past payload now m h))
      | inr other ↦ rw (other, append-nil) (other-Holds past j payload now m other h)
    ]

    drop_dead-kept :
        (j : String) (dead : List Connection) (m : Manager A)
        → ((drop_dead j dead m).events ≡ m.events) × ((drop_dead j dead m).seqs ≡ m.seqs)
    unfolding drop_dead
    drop_dead-kept j dead m = ground arith

    step-Holds :
        (past : List (Enriched A)) (s : Step A) (m : Manager A)
        → Holds past m
        → Holds (past ++ numbered job_id (length past) (s ∷ [])) (perform s m)
    unfolding perform connect disconnect get_current_seq
    step-Holds past (connects j ws) m h = rw append-nil h
    step-Holds past (disconnects j ws) m h = rw append-nil h
    step-Holds past (records j payload now) m h = record-Holds past j payload now m h
    step-Holds past (drops j dead) m h = rw append-nil (
      ap (Dict.get_or [] job_id) (drop_dead-kept j dead m).0 ∙ h.0,
      ap (Dict.get_or 0 job_id) (drop_dead-kept j dead m).1 ∙ h.1,
    )

    numbered-cons :
        (n : ℕ) (s : Step A) (ss : List (Step A))
        → numbered job_id n (s ∷ ss)
          ≡ numbered job_id n (s ∷ [])
            ++ numbered job_id (n + length (numbered job_id n (s ∷ []))) ss
    numbered-cons n (connects j ws) ss = ap (λ k. numbered job_id k ss) (omega arith)
    numbered-cons n (disconnects j ws) ss = ap (λ k. numbered job_id k ss) (omega arith)
    numbered-cons n (drops j dead) ss = ap (λ k. numbered job_id k ss) (omega arith)
    numbered-cons n (records j payload now) ss = elim (Bool-cases (str_eq j job_id)) [
      | inl same ↦ rw same refl
      | inr other ↦ rw other (ap (λ k. numbered job_id k ss) (omega arith))
    ]

    numbered_after :
        (past : List (Enriched A)) (s : Step A) (ss : List (Step A))
        → (past ++ numbered job_id (length past) (s ∷ []))
            ++ numbered job_id (length (past ++ numbered job_id (length past) (s ∷ []))) ss
          ≡ past ++ numbered job_id (length past) (s ∷ ss)
    numbered_after past s ss =
        let new = numbered job_id (length past) (s ∷ []) in
        append_assoc past new _
        ∙ ap (λ k. past ++ (new ++ numbered job_id k ss)) (length-append past new)
        ∙ ap (λ es. past ++ es) (sym (numbered-cons (length past) s ss))

    all-Holds :
        (past : List (Enriched A)) (ss : List (Step A)) (m : Manager A)
        → Holds past m
        → Holds (past ++ numbered job_id (length past) ss) (perform_all ss m)
    unfolding perform_all
    all-Holds past [] m h = rw append-nil h
    all-Holds past (s ∷ ss) m h =
        subst (λ xs. Holds xs (perform_all ss (perform s m))) (numbered_after past s ss)
          (all-Holds (past ++ numbered job_id (length past) (s ∷ [])) ss (perform s m)
            (step-Holds past s m h))

  -- The numbers run on from `n`.
  abbrev Runs : ℕ → List (Enriched A) → Type 0
  Runs n [] = Unit
  Runs n (e ∷ es) = (e.seq ≡ n + 1) × Runs (n + 1) es

  Runs-numbered : (job_id : String) (n : ℕ) (ss : List (Step A)) → Runs n (numbered job_id n ss)
  Runs-numbered job_id n [] = tt
  Runs-numbered job_id n (connects j ws ∷ ss) = Runs-numbered job_id n ss
  Runs-numbered job_id n (disconnects j ws ∷ ss) = Runs-numbered job_id n ss
  Runs-numbered job_id n (drops j dead ∷ ss) = Runs-numbered job_id n ss
  Runs-numbered job_id n (records j payload now ∷ ss) = elim (Bool-cases (str_eq j job_id)) [
    | inl same ↦ rw same (refl, Runs-numbered job_id (n + 1) ss)
    | inr other ↦ rw other (Runs-numbered job_id n ss)
  ]

  drop_nil : (d : ℕ) → ◌≡◌ {A = List (Enriched A)} [] (drop d [])
  drop_nil zero = refl
  drop_nil (suc d) = refl

  keep-drop :
      (last n d : ℕ) (es : List (Enriched A))
      → Runs n es
      → keep (λ e. ltb last e.seq) (drop d es) ≡ drop (max d (last - n)) es
  keep-drop last n zero [] r = drop_nil (max 0 (last - n))
  keep-drop last n (suc d) [] r = drop_nil (max (suc d) (last - n))
  keep-drop last n zero (e ∷ es) r = elim (Bool-cases (ltb last e.seq)) [
    | inl new ↦ rw new (
        ap (λ xs. e ∷ xs)
          (keep-drop last (n + 1) zero es r.1
            ∙ drop_same es (max 0 (last - (n + 1))) 0 (ground (arith, new, r.0)))
        ∙ drop_same (e ∷ es) 0 (max 0 (last - n)) (ground (arith, new, r.0)))
    | inr old ↦ rw old (
        keep-drop last (n + 1) zero es r.1
        ∙ drop_same (e ∷ es) (suc (max 0 (last - (n + 1)))) (max 0 (last - n))
            (ground (arith, old, r.0)))
  ]
  keep-drop last n (suc d) (e ∷ es) r =
      keep-drop last (n + 1) d es r.1
      ∙ drop_same (e ∷ es) (suc (max d (last - (n + 1)))) (max (suc d) (last - n)) (omega arith)

  start-Holds : (job_id : String) → Holds job_id [] (new_manager A)
  unfolding Dict.get_or get_current_seq
  start-Holds job_id = (refl, refl)

  -- After any steps of the coroutines, in any order: the current number of a job is the number of its
  -- events, and the events since `last` are those numbered after `last`, each once and in order, as
  -- far as they are among the 50 latest.
  pub get_events_since-numbered :
      (job_id : String) (last : ℕ) (ss : List (Step A))
      → let m = perform_all ss (new_manager A) in
        let all = numbered job_id 0 ss in
        (get_current_seq job_id m ≡ length all)
        × (get_events_since job_id last m ≡ drop (max (length all - max_event_history) last) all)
  unfolding get_events_since
  get_events_since-numbered job_id last ss =
      let held = all-Holds job_id [] ss (new_manager A) (start-Holds job_id) in
      (
        held.1,
        ap (keep (λ e. ltb last e.seq)) held.0
            ∙ keep-drop last 0 (length (numbered job_id 0 ss) - 50) (numbered job_id 0 ss)
                (Runs-numbered job_id 0 ss)
            ∙ drop_same (numbered job_id 0 ss) (max (length (numbered job_id 0 ss) - 50) (last - 0))
                (max (length (numbered job_id 0 ss) - 50) last) (omega arith),
      )

-- ===== src/Stream/Shown.antt =====
-- What a client of the stream of src/api/routers/jobs.py knows of the job.
use mathlib.Core.List.{append_assoc}
use extube.Prelude.{
  ltb, ℕ, ◌==◌, ◌&&◌, ◌≡◌, String, Bool, true, false, Option, none, some, List, [], ◌∷◌, ◌++◌,
  arith, refl, sym, ap, ◌∙◌, str_eq, eq_iff, if◌then◌else◌, Bool-cases, inl, inr,
}
use mathlib.Core.Path.{subst}
use extube.JobStore.{
  JobStatus, pending, processing, completed, failed, retrying, cancelled, Progress, Job, status_eq,
}
use extube.Stream.{
  Look, Event, timeout, final, changed, progress_eq, same_progress, option_eq, end_of, change_of,
  last_of, event_generator, end_of_row, is_terminal, final_of,
}

-- The events with which a job in a status ends its stream: those of the three in which a job has
-- ended tell all of it.
abbrev pub ended_by : Job → JobStatus → Option (List Event)
ended_by job completed = some (final completed job.progress job.result job.error ∷ [])
ended_by job failed = some (final failed job.progress job.result job.error ∷ [])
ended_by job cancelled = some (final cancelled job.progress job.result job.error ∷ [])
ended_by job pending = none
ended_by job processing = none
ended_by job retrying = none

-- The events that a look owes its client if it is the last.
abbrev pub ending_of : ℕ → Look → Option (List Event)
ending_of limit look =
    if ltb limit look.elapsed
    then some (timeout ∷ [])
    else elim look.row [ none ↦ some [] | some job ↦ ended_by job job.status ]

end_of_row-ended_by :
    (job : Job) (status : JobStatus)
    → job.status ≡ status
    → end_of_row (some job) ≡ ended_by job status
unfolding end_of_row is_terminal final_of status_eq
end_of_row-ended_by job completed e = rw e refl
end_of_row-ended_by job failed e = rw e refl
end_of_row-ended_by job cancelled e = rw e refl
end_of_row-ended_by job pending e = rw e refl
end_of_row-ended_by job processing e = rw e refl
end_of_row-ended_by job retrying e = rw e refl

end_of-ending_of : (limit : ℕ) (look : Look) → end_of limit look ≡ ending_of limit look
unfolding end_of
end_of-ending_of limit look =
    ap (λ o. if ltb limit look.elapsed then some (timeout ∷ []) else o) (of_row look.row)
  where
    of_row :
        (row : Option Job)
        → end_of_row row ≡ (elim row [ none ↦ some [] | some job ↦ ended_by job job.status ])
    of_row none = unfold end_of_row in refl
    of_row (some job) = end_of_row-ended_by job job.status refl

-- A look that does not end the stream.
abbrev pub AllOpen : ℕ → List Look → Type 0
AllOpen limit [] = Unit
AllOpen limit (look ∷ looks) = (ending_of limit look ≡ none) × AllOpen limit looks

-- The progress of a client that knew `last` before the events.
abbrev pub shown : Option Progress → List Event → Option Progress
shown last [] = last
shown last (changed status progress ∷ events) = shown progress events
shown last (timeout ∷ events) = shown last events
shown last (final status progress result error ∷ events) = shown progress events

-- Each event tells the client something new.
abbrev pub News : Option Progress → List Event → Type 0
News last [] = Unit
News last (changed status progress ∷ events) =
    (same_progress progress last ≡ false) × News progress events
News last (timeout ∷ events) = News last events
News last (final status progress result error ∷ events) = News progress events

-- The progress of the last row.
abbrev pub latest : Option Progress → List Look → Option Progress
latest last [] = last
latest last (look ∷ looks) = latest (elim look.row [ none ↦ last | some job ↦ job.progress ]) looks

and_both : (a b : Bool) → (a && b) ≡ true → (a ≡ true) × (b ≡ true)
and_both true b h = (refl, h)
and_both false b h = cc

str_same : (a b : String) → str_eq a b ≡ true → a ≡ b
str_same a b h = ground (arith, eq_iff a b)

nat_same : (a b : ℕ) → (a == b) ≡ true → a ≡ b
nat_same a b h = ground arith

option_eq-eq :
    {A : Type 0} (eq : A → A → Bool)
    → ((a b : A) → eq a b ≡ true → a ≡ b)
    → (o u : Option A) → option_eq eq o u ≡ true
    → o ≡ u
unfolding option_eq
option_eq-eq eq sound none none h = refl
option_eq-eq eq sound none (some b) h = cc
option_eq-eq eq sound (some a) none h = cc
option_eq-eq eq sound (some a) (some b) h = ap some (sound a b h)

progress_eq-eq : (p q : Progress) → progress_eq p q ≡ true → p ≡ q
unfolding progress_eq
progress_eq-eq p q h =
    let (a, b) = and_both _ (option_eq ◌==◌ p.max_retries q.max_retries) h in
    let (c, d) = and_both _ (option_eq ◌==◌ p.attempt q.attempt) a in
    let (e, f) = and_both _ (option_eq str_eq p.colmap_step q.colmap_step) c in
    let (g, k) = and_both _ (str_eq p.message q.message) e in
    let (l, m) = and_both (str_eq p.stage q.stage) (p.percent == q.percent) g in
    same_fields p q (str_same _ _ l) (nat_same _ _ m) (str_same _ _ k)
      (option_eq-eq str_eq str_same _ _ f) (option_eq-eq ◌==◌ nat_same _ _ d)
      (option_eq-eq ◌==◌ nat_same _ _ b)
  where
    same_fields :
        (p q : Progress)
        → p.stage ≡ q.stage
        → p.percent ≡ q.percent
        → p.message ≡ q.message
        → p.colmap_step ≡ q.colmap_step
        → p.attempt ≡ q.attempt
        → p.max_retries ≡ q.max_retries
        → p ≡ q
    same_fields p q a b c d e f = cc

same_progress-eq : (o u : Option Progress) → same_progress o u ≡ true → o ≡ u
unfolding same_progress
same_progress-eq = option_eq-eq progress_eq progress_eq-eq

last_of-eq : (last : Option Progress) (job : Job) → last_of last (some job) ≡ job.progress
unfolding last_of
last_of-eq last job = elim (Bool-cases (same_progress job.progress last)) [
  | inl same ↦ rw same (sym (same_progress-eq job.progress last same))
  | inr new ↦ rw new refl
]

last_of-row :
    (last : Option Progress) (row : Option Job)
    → last_of last row ≡ (elim row [ none ↦ last | some job ↦ job.progress ])
unfolding last_of
last_of-row last none = refl
last_of-row last (some job) = last_of-eq last job

shown-change :
    (last : Option Progress) (row : Option Job) (events : List Event)
    → shown last (change_of last row ++ events) ≡ shown (last_of last row) events
unfolding change_of last_of
shown-change last none events = refl
shown-change last (some job) events = elim (Bool-cases (same_progress job.progress last)) [
  | inl same ↦ rw same refl
  | inr new ↦ rw new refl
]

News-change :
    (last : Option Progress) (row : Option Job) (events : List Event)
    → News (last_of last row) events
    → News last (change_of last row ++ events)
unfolding change_of last_of
News-change last none events h = h
News-change last (some job) events h = of_test (same_progress job.progress last) refl h
  where
    of_test :
        (b : Bool)
        → same_progress job.progress last ≡ b
        → News (if b then last else job.progress) events
        → News last ((if b then [] else changed job.status job.progress ∷ []) ++ events)
    of_test true e k = k
    of_test false e k = (e, k)

module _ (limit : ℕ) where
  abbrev pub events_of : Option Progress → List Look → List Event
  events_of last looks = (event_generator limit last looks).0

  goes_on :
      (look : Look) (looks : List Look) (last : Option Progress)
      → end_of limit look ≡ none
      → event_generator limit last (look ∷ looks) ≡ (
        change_of last look.row ++ events_of (last_of last look.row) looks,
        (event_generator limit (last_of last look.row) looks).1,
      )
  unfolding event_generator
  goes_on look looks last h = rw (h, event_generator) refl

  open_looks :
      (looks : List Look) (last : Option Progress)
      → AllOpen limit looks
      → News last (events_of last looks) × (shown last (events_of last looks) ≡ latest last looks)
  unfolding event_generator
  open_looks [] last h = (tt, refl)
  open_looks (look ∷ looks) last (open_here, h) =
      let (news, known) = open_looks looks (last_of last look.row) h in
      subst
        (λ (r : List Event × Bool). News last r.0 × (shown last r.0 ≡ latest last (look ∷ looks)))
        (sym (goes_on look looks last (end_of-ending_of limit look ∙ open_here)))
        (
          News-change last look.row (events_of (last_of last look.row) looks) news,
          shown-change last look.row (events_of (last_of last look.row) looks)
              ∙ known
              ∙ ap (λ p. latest p looks) (last_of-row last look.row),
        )

  ends_at :
      (looks : List Look) (look : Look) (more : List Look) (ending : List Event)
      (last : Option Progress)
      → AllOpen limit looks
      → end_of limit look ≡ some ending
      → event_generator limit last (looks ++ look ∷ more) ≡ (events_of last looks ++ ending, true)
  unfolding event_generator
  ends_at [] look more ending last h e = rw (e, event_generator) refl
  ends_at (first ∷ looks) look more ending last (open_here, h) e =
      goes_on first (looks ++ look ∷ more) last (end_of-ending_of limit first ∙ open_here)
      ∙ ap (λ (r : List Event × Bool). (change_of last first.row ++ r.0, r.1))
          (ends_at looks look more ending (last_of last first.row) h e)
      ∙ ap (λ (es : List Event). (es, true))
          (sym (
            append_assoc (change_of last first.row) (events_of (last_of last first.row) looks)
              ending))
      ∙ ap (λ (r : List Event × Bool). (r.0 ++ ending, true))
          (sym (goes_on first looks last (end_of-ending_of limit first ∙ open_here)))

  -- Up to the first look at which the job is gone, has ended or has taken too long, each event that
  -- is sent differs from what the client knew, and the client knows the progress of the latest row;
  -- at that look the stream ends, with the event of a time limit, with nothing where the job is gone,
  -- or with the status, progress, result and error of a completed, failed or cancelled job.
  pub event_generator-shown :
      (looks : List Look) (look : Look) (more : List Look) (ending : List Event)
      → AllOpen limit looks
      → ending_of limit look ≡ some ending
      → News none (events_of none looks)
        × (shown none (events_of none looks) ≡ latest none looks)
        × (event_generator limit none (looks ++ look ∷ more)
            ≡ (events_of none looks ++ ending, true))
  event_generator-shown looks look more ending h e =
      let (news, known) = open_looks looks none h in
      (news, known, ends_at looks look more ending none h (end_of-ending_of limit look ∙ e))

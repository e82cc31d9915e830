-- ===== src/Colmap/Attempts.antt =====
-- How often `_run_colmap` (src/reconstruction/reconstruction.py) runs its command, and how it ends.
use extube.Prelude.{
  ℕ, zero, suc, ◌+◌, ◌≤◌, ◌<◌, ◌≡◌, String, Bool, false, Option, none, some, List, arith, refl, ap,
  sym, ◌∙◌, ltb, length, Bool-cases, inl, inr, if◌then◌else◌,
}
use extube.Tasks.Errors.{is_colmap_retryable_error}
use extube.Colmap.{
  ColmapRetryConfig, Process, Retry, Ending, returned, raised, failure_at, goes_on, after_attempt,
  run_attempts, run_colmap,
}

-- How an attempt that is the last one ends.
abbrev pub ending_of : Option String → Ending
ending_of none = returned
ending_of (some message) = raised message

-- Whether an attempt failed in a way that is worth another one.
abbrev pub is_transient : Option String → Bool
is_transient none = false
is_transient (some message) = is_colmap_retryable_error message

module _ (c : ColmapRetryConfig) (command : String) (timeout : ℕ) (process : ℕ → Process) where
  abbrev pub error_at : ℕ → Option String
  error_at = failure_at c command timeout process

  -- From the attempt `attempt` on, the contract: the number of retries.
  abbrev pub retries_from : ℕ → ℕ → ℕ
  retries_from zero attempt = 0
  retries_from (suc left) attempt =
      let rest = retries_from left (attempt + 1) in
      if is_transient (error_at attempt) then suc rest else 0

  -- The retries and the ending of a loop that starts at `attempt` with `left` retries.
  abbrev Follows : ℕ → ℕ → List Retry × Ending → Type 0
  Follows left attempt r =
      (length r.0 ≡ retries_from left attempt) × (r.1 ≡ ending_of (error_at (attempt + length r.0)))

  at : (o : Option String) (i j : ℕ) → error_at i ≡ o → j ≡ i → error_at j ≡ o
  at o i j e h = ap error_at h ∙ e

  last-Follows :
      (attempt : ℕ) (o : Option String) (rest : List Retry × Ending)
      → attempt ≡ c.max_retries
      → error_at attempt ≡ o
      → Follows zero attempt (after_attempt c command timeout process attempt o rest)
  unfolding after_attempt goes_on
  last-Follows attempt none rest h e =
      (refl, ap ending_of (sym (at none attempt _ e (omega arith))))
  last-Follows attempt (some message) rest h e =
      rw (not_below attempt h)
        (refl, ap ending_of (sym (at (some message) attempt _ e (omega arith))))
    where
      not_below : (n : ℕ) → n ≡ c.max_retries → ltb n c.max_retries ≡ false
      not_below n same = ground arith

  next-Follows :
      (left attempt : ℕ) (o : Option String) (rest : List Retry × Ending)
      → attempt < c.max_retries
      → error_at attempt ≡ o
      → Follows left (attempt + 1) rest
      → Follows (suc left) attempt (after_attempt c command timeout process attempt o rest)
  unfolding after_attempt goes_on
  next-Follows left attempt none rest h e k = (
    ap (λ o. if is_transient o then suc (retries_from left (attempt + 1)) else 0) (sym e),
    ap ending_of (sym (at none attempt _ e (omega arith))),
  )
  next-Follows left attempt (some message) rest h e k =
      elim (Bool-cases (is_colmap_retryable_error message)) [
        | inl again ↦ rw (goes attempt message h) (
            rw again (
              ap suc k.0 ∙ sym (counted again),
              k.1 ∙ ap (λ n. ending_of (error_at n)) (omega arith),
            ))
        | inr over ↦ rw (goes attempt message h) (
            rw over (
              sym (counted over),
              ap ending_of (sym (at (some message) attempt _ e (omega arith))),
            ))
      ]
    where
      goes :
          (n : ℕ) (m : String)
          → n < c.max_retries
          → goes_on c command timeout process n m ≡ is_colmap_retryable_error m
      goes n m below = ground arith

      counted :
          {b : Bool}
          → is_colmap_retryable_error message ≡ b
          → retries_from (suc left) attempt
            ≡ (if b then suc (retries_from left (attempt + 1)) else 0)
      counted h' =
          ap (λ o. if is_transient o then suc (retries_from left (attempt + 1)) else 0) e
          ∙ ap (λ b. if b then suc (retries_from left (attempt + 1)) else 0) h'

  run_attempts-Follows :
      (left attempt : ℕ) (last : String)
      → attempt + left ≡ c.max_retries
      → Follows left attempt (run_attempts c command timeout process (suc left) attempt last)
  unfolding run_attempts
  run_attempts-Follows zero attempt last h =
      last-Follows attempt (error_at attempt) _ (omega arith) refl
  run_attempts-Follows (suc left) attempt last h =
      next-Follows left attempt (error_at attempt) _ (omega arith) refl
        (run_attempts-Follows left (attempt + 1) _ (omega arith))

  retries_from-le : (left attempt : ℕ) → retries_from left attempt ≤ left
  retries_from-le zero attempt = omega arith
  retries_from-le (suc left) attempt = ground (arith, retries_from-le left (attempt + 1))

  -- The command is run again as long as its attempts fail in a transient way, at most `max_retries`
  -- times, with one retry reported for each, and the loop ends as its last attempt did: it returns
  -- what succeeded, or raises the message of what failed.
  pub run_colmap-retries :
      (length (run_colmap c command timeout process).0 ≡ retries_from c.max_retries 0)
      × (length (run_colmap c command timeout process).0 ≤ c.max_retries)
      × ((run_colmap c command timeout process).1
          ≡ ending_of (error_at (length (run_colmap c command timeout process).0)))
  unfolding run_colmap
  run_colmap-retries =
      let follows = run_attempts-Follows c.max_retries 0 "" (omega arith) in
      (
        follows.0,
        omega (arith, follows.0, retries_from-le c.max_retries 0),
        follows.1 ∙ ap (λ n. ending_of (error_at n)) (omega arith),
      )

-- ===== src/RateLimit/Window.antt =====
-- One window of src/api/rate_limit.py: what `admit` does to its time stamps.
use extube.Prelude.{
  ℕ, ◌+◌, ◌*◌, ◌≤◌, ◌≡◌, Bool, ◌&&◌, List, [], ◌∷◌, arith, ltb, leb, length, count, keep,
  length-append, count-append, length-keep-le, inl, inr, Bool-cases, refl,
}
use extube.RateLimit.{RateLimitRule, SlidingWindow, Reply, passed, second, is_recent, refuse, admit}

-- The time `t` lies in the window of length `w` that ends at `to`.
abbrev pub within : ℕ → ℕ → ℕ → Bool
within w to t = leb t to && ltb to (t + w)

abbrev pub width : RateLimitRule → ℕ
width rule = rule.window_seconds * second

abbrev pub times_passed : Reply → ℕ → List ℕ
times_passed passed now = now ∷ []
times_passed _ now = []

-- Cleaning at `now` drops nothing that a window ending later still holds.
count-keep :
    (w now to : ℕ) (ts : List ℕ)
    → now ≤ to
    → count (within w to) (keep (is_recent now w) ts) ≡ count (within w to) ts
unfolding is_recent
count-keep w now to [] h = refl
count-keep w now to (t ∷ ts) h = ground (arith, count-keep w now to ts)

times_passed-refuse : (now w : ℕ) (ts : List ℕ) → times_passed (refuse now w ts) now ≡ []
unfolding refuse
times_passed-refuse now w [] = refl
times_passed-refuse now w (t ∷ ts) = refl

module _ (rule : RateLimitRule) (w : SlidingWindow) (now : ℕ) where
  abbrev kept : List ℕ
  kept = keep (is_recent now (width rule)) w.timestamps

  pub admit-length :
      length w.timestamps ≤ rule.max_requests
      → length (admit rule w now).0.timestamps ≤ rule.max_requests
  unfolding admit
  admit-length h = ground (
    arith,
    length-keep-le (is_recent now (width rule)) w.timestamps,
    length-append (keep (is_recent now (width rule)) w.timestamps) (now ∷ []),
  )

  pub admit-count :
      (to : ℕ)
      → now ≤ to
      → count (within (width rule) to) (times_passed (admit rule w now).1 now)
          + count (within (width rule) to) w.timestamps
        ≡ count (within (width rule) to) (admit rule w now).0.timestamps
  unfolding admit
  admit-count to h = elim (Bool-cases (leb rule.max_requests (length kept))) [
    | inl full ↦ rw full (
        rw (times_passed-refuse now (width rule) kept)
          (omega (arith, count-keep (width rule) now to w.timestamps h)))
    | inr room ↦ rw room (
        ground (
          arith,
          count-append (within (width rule) to) kept (now ∷ []),
          count-keep (width rule) now to w.timestamps,
        ))
  ]

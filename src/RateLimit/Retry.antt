-- ===== src/RateLimit/Retry.antt =====
-- The `Retry-After` header of src/api/rate_limit.py is long enough.
use extube.Prelude.{
  ℕ, ◌+◌, ◌*◌, ◌≤◌, ◌≡◌, Bool, true, false, inl, inr, List, [], ◌∷◌, arith, leb, length, keep,
  length-keep-le, Bool-cases,
}
use extube.RateLimit.{
  RateLimitRule, SlidingWindow, passed, too_many, second, is_recent, retry_after, refuse, admit,
}
use extube.RateLimit.Window.{width}

-- No time stamp lies in the future.
abbrev pub Past : ℕ → List ℕ → Type 0
Past now [] = Unit
Past now (t ∷ ts) = (t ≤ now) × Past now ts

Past-keep : (now : ℕ) (p : ℕ → Bool) (ts : List ℕ) → Past now ts → Past now (keep p ts)
Past-keep now p [] h = tt
Past-keep now p (t ∷ ts) h = elim (Bool-cases (p t)) [
  | inl e ↦ rw e (h.0, Past-keep now p ts h.1)
  | inr e ↦ rw e (Past-keep now p ts h.1)
]

-- The oldest time stamp has left the window when the header's time is over.
oldest_leaves :
    (now w oldest later : ℕ)
    → oldest ≤ now
    → now + retry_after now w oldest * second ≤ later
    → is_recent later w oldest ≡ false
unfolding retry_after is_recent
oldest_leaves now w oldest later past h = ground arith

room_after_refuse :
    (rule : RateLimitRule) (now later d : ℕ) (ts : List ℕ)
    → length ts ≤ rule.max_requests
    → Past now ts
    → refuse now (width rule) ts ≡ too_many d
    → now + d * second ≤ later
    → leb rule.max_requests (length (keep (is_recent later (width rule)) ts)) ≡ false
unfolding refuse
room_after_refuse rule now later d [] l past e h = cc
room_after_refuse rule now later d (t ∷ ts) l past e h = ground (
  arith,
  oldest_leaves now (width rule) t later,
  length-keep-le (is_recent later (width rule)) ts,
)

-- A request that is refused with `Retry-After: d` is passed on `d` seconds later or at any time
-- after that, if no other request came between and the window was within its rule.
pub admit-retry_after :
    (rule : RateLimitRule) (w : SlidingWindow) (now later d : ℕ)
    → length w.timestamps ≤ rule.max_requests
    → Past now w.timestamps
    → (admit rule w now).1 ≡ too_many d
    → now + d * second ≤ later
    → (admit rule (admit rule w now).0 later).1 ≡ passed
unfolding admit
admit-retry_after rule w now later d l past e h =
    elim (Bool-cases (leb rule.max_requests (length kept))) [
      | inl full ↦ rw full (rw (room full))
      | inr free ↦ absurd (ground arith)
    ]
  where
    kept : List ℕ
    kept = keep (is_recent now (width rule)) w.timestamps

    room :
        leb rule.max_requests (length kept) ≡ true
        → leb rule.max_requests (length (keep (is_recent later (width rule)) kept)) ≡ false
    room full =
        room_after_refuse rule now later d kept
          (ground (arith, length-keep-le (is_recent now (width rule)) w.timestamps))
          (Past-keep now (is_recent now (width rule)) w.timestamps past) (rw full at e) h

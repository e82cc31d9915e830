-- ===== src/RateLimit.antt =====
-- src/api/rate_limit.py: the sliding-window limiter. Times are whole ticks of the monotonic clock,
-- `second` of them to a second; the source's floats are only compared, added and subtracted.
-- The request is what the limiter reads of it. `_lock` makes one dispatch one step.
pub mod Window
pub mod Limits
pub mod Retry
mod Tests
use Prim.Native.Nat.{max}
use extube.Prelude.{
  ℕ, ◌+◌, ◌-◌, ◌*◌, ◌/◌, String, Bool, ◌&&◌, Option, none, some, List, [], ◌∷◌, ◌++◌, ltb, leb,
  length, keep, str_eq, if◌then◌else◌,
}
use extube.Prelude.Dict
use extube.Prelude.Dict.{Dict}
use extube.Prelude.Text.{concat, before, strip, upper_eq}

abbrev pub second : ℕ
second = 1000000

pub record RateLimitRule : Type 0 where
  pub max_requests : ℕ
  pub window_seconds : ℕ

pub record SlidingWindow : Type 0 where
  pub timestamps : List ℕ

-- `t > now - window`
unfoldable pub is_recent : ℕ → ℕ → ℕ → Bool
is_recent now window t = ltb now (t + window)

unfoldable pub count_and_clean : SlidingWindow → ℕ → ℕ → SlidingWindow × ℕ
unfolding is_recent
count_and_clean w now window =
    let kept = keep (is_recent now window) w.timestamps in
    (record { timestamps = kept }, length kept)

unfoldable pub add : SlidingWindow → ℕ → SlidingWindow
add w now = record { timestamps = w.timestamps ++ now ∷ [] }

pub record Request : Type 0 where
  pub method : String
  pub path : String
  pub forwarded_for : Option String
  pub client_host : Option String

pub record PathRule : Type 0 where
  pub method : String
  pub path : String
  pub rule : RateLimitRule

pub record Middleware : Type 0 where
  pub default_rule : RateLimitRule
  pub path_rules : List PathRule
  pub windows : Dict SlidingWindow

unfoldable pub reset : Middleware → Middleware
reset m = record m { windows = [] }

host_or_unknown : Option String → String
host_or_unknown none = "unknown"
host_or_unknown (some host) = host

-- An empty header is falsy.
unfoldable pub get_client_ip : Request → String
unfolding host_or_unknown before strip
get_client_ip request = elim request.forwarded_for [
  | none ↦ host_or_unknown request.client_host
  | some forwarded ↦
      if str_eq forwarded ""
      then host_or_unknown request.client_host
      else strip (before b',' forwarded)
]

-- The rule that a path has of its own; `none` stands for `default_rule`.
unfoldable pub get_rule : List PathRule → String → String → Option RateLimitRule
unfolding upper_eq
get_rule [] method path = none
get_rule (r ∷ rs) method path =
    let rest = get_rule rs method path in
    if upper_eq method r.method && str_eq path r.path then some r.rule else rest

unfoldable pub rule_of : Middleware → Request → RateLimitRule
rule_of m request = elim (get_rule m.path_rules request.method request.path) [
  | none ↦ m.default_rule
  | some rule ↦ rule
]

unfoldable pub key_of : Middleware → Request → String
key_of m request = elim (get_rule m.path_rules request.method request.path) [
  | none ↦ concat (get_client_ip request ∷ ":default" ∷ [])
  | some rule ↦ concat (get_client_ip request ∷ ":" ∷ request.method ∷ ":" ∷ request.path ∷ [])
]

-- `call_next` was called, or the response is 429 with its `Retry-After`, or `timestamps[0]` of an
-- empty window raised.
pub data Reply : Type 0 where
  passed : Reply
  too_many : ℕ → Reply
  index_error : Reply

-- `max(1, int(window_seconds - elapsed) + 1)`. A kept time stamp is less than a window old.
unfoldable pub retry_after : ℕ → ℕ → ℕ → ℕ
retry_after now window oldest = max 1 ((window - (now - oldest)) / second + 1)

refuse : ℕ → ℕ → List ℕ → Reply
unfolding retry_after
refuse now window [] = index_error
refuse now window (oldest ∷ rest) = too_many (retry_after now window oldest)

-- The body of the `with self._lock` block, on the window of one key.
unfoldable pub admit : RateLimitRule → SlidingWindow → ℕ → SlidingWindow × Reply
unfolding count_and_clean add refuse
admit rule w now =
    let window = rule.window_seconds * second in
    let (cleaned, count) = count_and_clean w now window in
    if leb rule.max_requests count
    then (cleaned, refuse now window cleaned.timestamps)
    else (add cleaned now, passed)

abbrev pub no_requests : SlidingWindow
no_requests = record { timestamps = [] }

unfoldable pub dispatch : Middleware → Request → ℕ → Middleware × Reply
dispatch m request now =
    let key = key_of m request in
    let (w, reply) = admit (rule_of m request) (Dict.get_or no_requests key m.windows) now in
    (record m { windows = Dict.put key w m.windows }, reply)

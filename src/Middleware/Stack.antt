-- ===== src/Middleware/Stack.antt =====
-- The middleware of src/api/main.py, the one that is added last outermost, around an application.
use extube.Prelude.{
  ℕ, String, true, false, Option, none, some, List, [], ◌∷◌, ◌++◌, map, any, str_eq, if◌then◌else◌,
}
use extube.Prelude.Text.{decimal}
use extube.RateLimit
use extube.RateLimit.{RateLimitRule, Request, passed, too_many, index_error, dispatch}
use extube.Middleware.{
  Header, Scope, Message, start, other, Sent, App, security_headers_middleware, Entry,
  request_logging_middleware, Starlette, json_response, unhandled_exception_handler, is_start,
}

-- CORS: whether it answers a scope itself, and what it makes of the headers of an answer.
pub record Cors : Type 0 where
  pub preflight : Scope → Option Sent
  pub adds : Scope → List Header → List Header

unfoldable pub cors_message : Cors → Scope → Message → Message
cors_message cors scope (start status headers) = start status (cors.adds scope headers)
cors_message cors scope (other kind body) = other kind body

unfoldable pub cors_middleware : Cors → App → App
unfolding cors_message
cors_middleware cors app scope = elim (cors.preflight scope) [
  | some sent ↦ sent
  | none ↦
      let sent = app scope in record sent { messages = map (cors_message cors scope) sent.messages }
]

-- The rules of the limiter, before any request.
abbrev pub limiter : RateLimit.Middleware
limiter = record {
  default_rule = record { max_requests = 100; window_seconds = 60 };
  path_rules =
      record {
        method = "POST";
        path = "/api/jobs";
        rule = record { max_requests = 5; window_seconds = 3600 };
      }
      ∷ [];
  windows = [];
}

abbrev pub request_of : Scope → Request
request_of scope = record {
  method = scope.method;
  path = scope.path;
  forwarded_for = scope.forwarded_for;
  client_host = scope.client;
}

unfoldable pub limited : Starlette → RateLimit.Reply → App → App
unfolding json_response decimal
limited starlette passed app scope = starlette.call_next (app scope)
limited starlette (too_many retry_after) app scope = record {
  messages =
      json_response starlette 429 (("retry-after", decimal retry_after) ∷ [])
        (("detail", some "Too Many Requests") ∷ []);
  raised = false;
}
limited starlette index_error app scope = record { messages = []; raised = true }

-- What stands between the limiter and the routes.
unfoldable pub inner_app : String → Cors → App → App
unfolding cors_middleware security_headers_middleware
inner_app environment cors routes =
    cors_middleware cors (security_headers_middleware environment routes)

-- An exception before any start is answered by the handler; the scope is the one that the logging
-- has put the id of the request into.
unfoldable pub handled : Starlette → Option String → Sent → Sent
unfolding unhandled_exception_handler is_start
handled starlette request_id sent =
    if sent.raised
    then (if any is_start sent.messages then sent else record sent {
      messages = sent.messages ++ unhandled_exception_handler starlette request_id;
    })
    else sent

-- A request that comes at `now` and is given an id.
unfoldable pub serve :
    String
    → Starlette
    → Cors
    → App
    → String
    → ℕ
    → RateLimit.Middleware
    → Scope
    → RateLimit.Middleware × (Sent × List Entry)
unfolding dispatch limited inner_app request_logging_middleware handled
serve environment starlette cors routes request_id now m scope =
    if str_eq scope.kind "http"
    then (let (m₁, reply) = dispatch m (request_of scope) now in
        let (sent, log) =
          request_logging_middleware request_id
            (limited starlette reply (inner_app environment cors routes)) scope in
        (m₁, (handled starlette (some request_id) sent, log)))
    else (m, (inner_app environment cors routes scope, []))

-- ===== src/Middleware.antt =====
-- src/api/middleware.py, and the stack that src/api/main.py makes of it with the rate limiter and
-- CORS. An ASGI application stands as the messages that it sends for a scope, and whether it raises.
-- Starlette and its CORS middleware are parameters; the instrumentator, which measures, is left out.
pub mod Stack
pub mod Names
pub mod Headers
mod Tests
use extube.Prelude.{
  ℕ, String, Bool, true, false, ◌||◌, not, Option, none, some, List, [], ◌∷◌, ◌++◌, map, any, keep,
  str_eq, if◌then◌else◌,
}
use extube.Prelude.Text.{upper_eq}

abbrev pub Header : Type 0
Header = String × String

-- What is read of a scope; `request_id` stands in its `state`.
pub record Scope : Type 0 where
  pub kind : String
  pub method : String
  pub path : String
  pub client : Option String
  pub forwarded_for : Option String
  pub request_id : Option String

-- `http.response.start`, and any other message with its type.
pub data Message : Type 0 where
  start : ℕ → List Header → Message
  other : String → String → Message

pub record Sent : Type 0 where
  pub messages : List Message
  pub raised : Bool

abbrev pub App : Type 0
App = Scope → Sent

abbrev pub base_headers : List Header
base_headers =
    ("x-content-type-options", "nosniff")
    ∷ ("x-frame-options", "DENY")
    ∷ ("x-xss-protection", "0")
    ∷ ("referrer-policy", "strict-origin-when-cross-origin")
    ∷ ("permissions-policy", "camera=(), microphone=(), geolocation=()")
    ∷ []

abbrev pub prod_headers : List Header
prod_headers =
    ("strict-transport-security", "max-age=31536000; includeSubDomains")
    ∷ (
      "content-security-policy",
      "default-src 'self'; script-src 'self'; style-src 'self' 'unsafe-inline'; img-src 'self' data: blob:; connect-src 'self'; font-src 'self'; object-src 'none'; frame-ancestors 'none'; base-uri 'self'",
    )
    ∷ []

unfoldable pub headers_for : String → List Header
headers_for environment =
    base_headers ++ (if str_eq environment "production" then prod_headers else [])

-- `k.lower() == b"server"`, on bytes.
unfoldable pub is_server : Header → Bool
unfolding upper_eq
is_server header = upper_eq header.0 "server"

unfoldable pub secured : List Header → Message → Message
unfolding is_server
secured security_headers (start status headers) =
    start status (keep (λ h. not (is_server h)) headers ++ security_headers)
secured security_headers (other kind body) = other kind body

unfoldable pub security_headers_middleware : String → App → App
unfolding headers_for secured
security_headers_middleware environment app scope =
    let sent = app scope in
    if str_eq scope.kind "http"
    then record sent { messages = map (secured (headers_for environment)) sent.messages }
    else sent

-- The lines that are logged of a request.
pub data Entry : Type 0 where
  request_started : String → String → Option String → Entry
  request_completed : String → String → Option ℕ → Entry

unfoldable pub numbered : String → Message → Message
numbered request_id (start status headers) =
    start status (headers ++ ("x-request-id", request_id) ∷ [])
numbered request_id (other kind body) = other kind body

-- `status_code`: that of the last start.
unfoldable pub status_code : List Message → Option ℕ → Option ℕ
status_code [] found = found
status_code (start status headers ∷ messages) found = status_code messages (some status)
status_code (other kind body ∷ messages) found = status_code messages found

-- `request_id` is what `generate_request_id` makes; an exception goes past the last line.
unfoldable pub request_logging_middleware : String → App → Scope → Sent × List Entry
unfolding numbered status_code
request_logging_middleware request_id app scope =
    let sent = app scope in
    let inner = app (record scope { request_id = some request_id }) in
    if str_eq scope.kind "http"
    then (
      record inner { messages = map (numbered request_id) inner.messages },
      request_started scope.method scope.path scope.client
          ∷ (if inner.raised
              then []
              else request_completed scope.method scope.path (status_code inner.messages none)
                ∷ []),
    )
    else (sent, [])

-- `JSONResponse`: the text of its content, and the headers that it adds for a text; and the limiter's
-- base class.
pub record Starlette : Type 0 where
  pub render : List (String × Option String) → String
  pub content_headers : String → List Header
  -- What `BaseHTTPMiddleware` makes of an answer that it passes on.
  pub call_next : Sent → Sent

unfoldable pub json_response :
    Starlette → ℕ → List Header → List (String × Option String) → List Message
json_response starlette status headers content =
    let body = starlette.render content in
    start status (headers ++ starlette.content_headers body) ∷ other "http.response.body" body ∷ []

unfoldable pub unhandled_exception_handler : Starlette → Option String → List Message
unfolding json_response
unhandled_exception_handler starlette request_id =
    json_response starlette 500 []
      (("detail", some "서버 내부 오류가 발생했습니다") ∷ ("request_id", request_id) ∷ [])

unfoldable pub is_start : Message → Bool
is_start (start status headers) = true
is_start (other kind body) = false

-- ===== src/Middleware/Headers.antt =====
-- Which headers the answers of src/api/main.py carry, by the way that they take through its stack.
use extube.Prelude.{
  ℕ, ◌≡◌, String, true, false, not, none, some, List, [], ◌∷◌, ◌++◌, map, any, keep, str_eq,
  eq_refl, refl, ap, ◌∙◌,
}
use extube.Prelude.Text.{decimal}
use extube.RateLimit
use extube.RateLimit.{passed, too_many, dispatch}
use extube.Middleware.{
  Sent, Header, Scope, Message, start, other, App, headers_for, is_server, secured,
  security_headers_middleware, numbered, request_logging_middleware, Starlette, json_response,
}
use extube.Middleware.Stack.{
  Cors, cors_message, cors_middleware, request_of, limited, inner_app, handled, serve,
}
use extube.Middleware.Names.{
  same, has, any-append, none_kept, no_server, or_left, or_right, both_false, same_refl, one_header,
  unnamed, no_retry, no_id, is_of_cors, not_of_cors,
}

-- What a message becomes: the same, but for the headers of a start, which have all that the
-- environment demands and the id of the request, and none that names the server.
abbrev pub IsSecured : String → String → Message → Message → Type 0
IsSecured environment request_id (start n before) (start m after) =
    (m ≡ n)
    × ((h : Header) → has h (headers_for environment) ≡ true → has h after ≡ true)
    × (has ("x-request-id", request_id) after ≡ true)
    × (any is_server after ≡ false)
IsSecured environment request_id (other kind body) (other kind' body') =
    (kind' ≡ kind) × (body' ≡ body)
IsSecured environment request_id _ _ = ⊥

-- Two lists of one length, related entry by entry.
abbrev pub Pairwise : (Message → Message → Type 0) → List Message → List Message → Type 0
Pairwise R [] [] = Unit
Pairwise R (m ∷ ms) (n ∷ ns) = R m n × Pairwise R ms ns
Pairwise R _ _ = ⊥

-- What CORS is relied on for: it keeps the headers whose names it does not set, and adds none that
-- names the server.
pub record Adds (cors : Cors) : Type 0 where
  pub keeps :
      (scope : Scope) (h : Header) (headers : List Header)
      → is_of_cors h ≡ false
      → has h headers ≡ true
      → has h (cors.adds scope headers) ≡ true
  pub unnamed :
      (scope : Scope) (headers : List Header)
      → any is_server headers ≡ false
      → any is_server (cors.adds scope headers) ≡ false

-- What the limiter's base class is relied on for: it passes the messages of an answer on in order,
-- and may send more of the body after them.
pub record Streams (starlette : Starlette) : Type 0 where
  pub more : Sent → List (String × String)
  pub streams :
      (sent : Sent)
      → sent.raised ≡ false
      → starlette.call_next sent ≡ record {
        messages = sent.messages ++ map (λ m. other m.0 m.1) (more sent);
        raised = false;
      }

module _ (environment : String) (cors : Cors) (laws : Adds cors) (request_id : String) where
  message-IsSecured :
      (scope : Scope) (m : Message)
      → IsSecured environment request_id m
          (numbered request_id (cors_message cors scope (secured (headers_for environment) m)))
  unfolding numbered cors_message secured
  message-IsSecured scope (other kind body) = (refl, refl)
  message-IsSecured scope (start n headers) =
      let kept = keep (λ h. not (is_server h)) headers in
      let own = headers_for environment in
      let sent = cors.adds scope (kept ++ own) in
      (
        refl,
        λ h demanded.
            any-append (same h) sent (("x-request-id", request_id) ∷ [])
            ∙ or_left _ _ (
                laws.keeps scope h (kept ++ own) (not_of_cors environment h demanded)
                  (any-append (same h) kept own ∙ or_right _ _ demanded)),
        any-append (same ("x-request-id", request_id)) sent (("x-request-id", request_id) ∷ [])
            ∙ or_right _ _ (same_refl "x-request-id" request_id),
        any-append is_server sent (("x-request-id", request_id) ∷ [])
            ∙ both_false _ _
                (laws.unnamed scope (kept ++ own) (
                  any-append is_server kept own
                  ∙ both_false _ _ (none_kept is_server headers) (no_server environment)))
                (one_header request_id),
      )

  messages-IsSecured :
      (scope : Scope) (ms : List Message)
      → Pairwise (IsSecured environment request_id) ms (
          map
            (numbered request_id)
            (map (cors_message cors scope) (map (secured (headers_for environment)) ms)))
  messages-IsSecured scope [] = tt
  messages-IsSecured scope (m ∷ ms) = (message-IsSecured scope m, messages-IsSecured scope ms)

  -- More of the body goes through the logging as it is.
  streamed-IsSecured :
      (before after : List Message) (more : List (String × String))
      → Pairwise (IsSecured environment request_id) before (map (numbered request_id) after)
      → Pairwise
          (IsSecured environment request_id)
          (before ++ map (λ m. other m.0 m.1) more)
          (map (numbered request_id) (after ++ map (λ m. other m.0 m.1) more))
  unfolding numbered
  streamed-IsSecured [] [] [] h = tt
  streamed-IsSecured [] [] ((kind, body) ∷ more) h =
      ((refl, refl), streamed-IsSecured [] [] more tt)
  streamed-IsSecured [] (n ∷ after) more h = absurd h
  streamed-IsSecured (m ∷ before) [] more h = absurd h
  streamed-IsSecured (m ∷ before) (n ∷ after) more h =
      (h.0, streamed-IsSecured before after more h.1)

module _ (environment : String) (starlette : Starlette) (cors : Cors) (routes : App)
    (request_id : String) (now : ℕ) (m : RateLimit.Middleware) (scope : Scope) where
  -- The scope that the limiter and what it passes on are given.
  abbrev pub identified : Scope
  identified = record scope { request_id = some request_id }

  is_http : scope.kind ≡ "http" → str_eq scope.kind "http" ≡ true
  is_http http = ap (λ kind. str_eq kind "http") http

  -- What the application sends through CORS and the security headers.
  abbrev pub passed_on : Sent
  passed_on = record {
    messages =
        map (cors_message cors identified)
          (map (secured (headers_for environment)) (routes identified).messages);
    raised = (routes identified).raised;
  }

  inner_sends :
      scope.kind ≡ "http"
      → cors.preflight identified ≡ none
      → limited starlette passed (inner_app environment cors routes) identified
        ≡ starlette.call_next passed_on
  unfolding limited inner_app cors_middleware security_headers_middleware
  inner_sends http simple =
      rw (limited, inner_app, cors_middleware, simple, security_headers_middleware, is_http http)
        refl

  -- An answer of the routes to an HTTP request that the limiter passes on, that CORS does not answer
  -- itself and on which the routes do not raise, is sent message by message, with its status, and
  -- with what the limiter's base class sends of the body after them: each start has all the security
  -- headers of the environment and the id of the request, and no header that names the server,
  -- whatever the case of its name, for a CORS that keeps the headers whose names it does not set and
  -- adds none that names the server.
  pub serve-IsSecured :
      Adds cors
      → (base : Streams starlette) → scope.kind ≡ "http"
      → (dispatch m (request_of scope) now).1 ≡ passed
      → cors.preflight identified ≡ none
      → (routes identified).raised ≡ false
      → Pairwise
          (IsSecured environment request_id)
          ((routes identified).messages ++ map (λ m. other m.0 m.1) (base.more passed_on))
          (serve environment starlette cors routes request_id now m scope).1.0.messages
  unfolding serve handled request_logging_middleware
  serve-IsSecured laws base http passes simple returns =
      rw (is_http http, passes, inner_sends http simple ∙ base.streams passed_on returns)
        (streamed-IsSecured environment cors laws request_id (routes identified).messages
          passed_on.messages (base.more passed_on)
          (messages-IsSecured environment cors laws request_id identified
            (routes identified).messages))

  -- A refusal, for the seconds to wait: its two messages, which tell how long and which request, and
  -- have none of the security headers.
  pub record Refuses (retry_after : ℕ) (messages : List Message) : Type 0 where
    pub headers : List Header
    pub body : String
    pub sends : messages ≡ start 429 headers ∷ other "http.response.body" body ∷ []
    pub waits : has ("retry-after", decimal retry_after) headers ≡ true
    pub identifies : has ("x-request-id", request_id) headers ≡ true
    pub insecure : (h : Header) → has h (headers_for environment) ≡ true → has h headers ≡ false

  -- An HTTP request that the limiter refuses is answered with 429, the seconds to wait and the id of
  -- the request, and without any of the security headers, where the headers that Starlette gives a
  -- JSON text are none of them.
  pub serve-Refuses :
      (retry_after : ℕ)
      → ((body : String) (h : Header)
          → has h (headers_for environment) ≡ true
          → has h (starlette.content_headers body) ≡ false)
      → scope.kind ≡ "http"
      → (dispatch m (request_of scope) now).1 ≡ too_many retry_after
      → Refuses retry_after
          (serve environment starlette cors routes request_id now m scope).1.0.messages
  unfolding serve handled request_logging_middleware limited json_response numbered
  serve-Refuses retry_after plain http refused =
      let body = starlette.render (("detail", some "Too Many Requests") ∷ []) in
      let added = starlette.content_headers body in
      rw (is_http http, refused)
        (record {
          headers =
              (("retry-after", decimal retry_after) ∷ added) ++ ("x-request-id", request_id) ∷ [];
          body = body;
          sends = refl;
          waits = rw (eq_refl (decimal retry_after)) refl;
          identifies =
              any-append (same ("x-request-id", request_id))
                (("retry-after", decimal retry_after) ∷ added) (("x-request-id", request_id) ∷ [])
              ∙ or_right _ _ (same_refl "x-request-id" request_id);
          insecure = λ h demanded.
              rw
                (unnamed h "retry-after" (decimal retry_after) (headers_for environment)
                  (no_retry environment) demanded)
                (any-append (same h) added (("x-request-id", request_id) ∷ [])
                  ∙ both_false _ _ (plain body h demanded) (
                      rw
                        (unnamed h "x-request-id" request_id (headers_for environment)
                          (no_id environment) demanded)
                        refl));
        })

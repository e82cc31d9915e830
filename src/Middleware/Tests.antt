-- ===== src/Middleware/Tests.antt =====
-- One request in production, one that is refused, and one on which the routes raise.
use extube.Prelude.{String, true, false, ◌≡◌, arith, none, some, [], ◌∷◌, ◌++◌, refl, if◌then◌else◌}
use extube.Prelude.Text.{concat, upper_eq}
use extube.Prelude.Dict
use extube.RateLimit
use extube.RateLimit.{dispatch}
use extube.Middleware.{
  Header, Scope, start, other, App, Starlette, request_started, request_completed, headers_for,
  is_server,
}
use extube.Middleware.Stack.{Cors, limiter, serve}
use extube.Middleware.Names.{has, unnamed}
use extube.Middleware.Headers.{
  Streams, Adds, IsSecured, Pairwise, Refuses, serve-IsSecured, serve-Refuses,
}

abbrev starlette : Starlette
starlette = record {
  render = λ content. "{}";
  content_headers = λ body. ("content-length", "2") ∷ ("content-type", "application/json") ∷ [];
  call_next = λ sent.
      if sent.raised
      then sent
      else record sent { messages = sent.messages ++ other "http.response.body" "" ∷ [] };
}

abbrev cors : Cors
cors = record {
  preflight = λ _. none;
  adds = λ _ headers. ("access-control-allow-credentials", "true") ∷ headers;
}

abbrev routes : App
routes _ = record {
  messages =
      start 200 (("Server", "uvicorn") ∷ ("content-type", "text/plain") ∷ [])
      ∷ other "http.response.body" "ok"
      ∷ [];
  raised = false;
}

abbrev scope : Scope
scope = record {
  kind = "http";
  method = "POST";
  path = "/api/jobs";
  client = some "10.0.0.7";
  forwarded_for = none;
  request_id = none;
}

-- Five requests a moment ago.
abbrev busy : RateLimit.Middleware
busy = record limiter {
  windows = ("10.0.0.7:POST:/api/jobs", record { timestamps = 1 ∷ 2 ∷ 3 ∷ 4 ∷ 5 ∷ [] }) ∷ [];
}

adds : Adds cors
unfolding is_server upper_eq
adds = record {
  keeps = λ _ h headers own found. rw found (ground arith);
  unnamed = λ _ headers none_named. none_named;
}

base : Streams starlette
base = record {
  more = λ sent. ("http.response.body", "") ∷ [];
  streams = λ sent returns. rw returns refl;
}

plain :
    (body : String) (h : Header)
    → has h (headers_for "production") ≡ true
    → has h (starlette.content_headers body) ≡ false
unfolding headers_for
plain body h demanded =
    rw
      (
        unnamed h "content-length" "2" (headers_for "production") refl demanded,
        unnamed h "content-type" "application/json" (headers_for "production") refl demanded,
      )
      refl

serve-IsSecured_example :
    Pairwise
      (IsSecured "production" "id")
      ((routes (record scope { request_id = some "id" })).messages
        ++ other "http.response.body" "" ∷ [])
      (serve "production" starlette cors routes "id" 9 limiter scope).1.0.messages
unfolding base dispatch RateLimit.admit RateLimit.rule_of RateLimit.get_rule Dict.get_or
serve-IsSecured_example =
    serve-IsSecured "production" starlette cors routes "id" 9 limiter scope adds base refl refl refl
      refl

serve-Refuses_example :
    Refuses "production" starlette cors routes "id" 9 busy scope 3600
      (serve "production" starlette cors routes "id" 9 busy scope).1.0.messages
unfolding dispatch RateLimit.admit RateLimit.rule_of RateLimit.get_rule Dict.get_or RateLimit.key_of
    concat RateLimit.get_client_ip
serve-Refuses_example =
    serve-Refuses "production" starlette cors routes "id" 9 busy scope 3600 plain refl refl

logs :
    (serve "production" starlette cors routes "id" 9 limiter scope).1.1
    ≡ request_started "POST" "/api/jobs" (some "10.0.0.7")
      ∷ request_completed "POST" "/api/jobs" (some 200)
      ∷ []
unfolding serve RateLimit.admit RateLimit.rule_of RateLimit.get_rule Dict.get_or
logs = refl

abbrev raises : App
raises _ = record { messages = []; raised = true }

-- The handler's answer has no id among its headers.
answers_500 :
    (serve "production" starlette cors raises "id" 9 limiter scope).1.0.messages
    ≡ start 500 (("content-length", "2") ∷ ("content-type", "application/json") ∷ [])
      ∷ other "http.response.body" "{}"
      ∷ []
unfolding serve RateLimit.admit RateLimit.rule_of RateLimit.get_rule Dict.get_or
answers_500 = refl

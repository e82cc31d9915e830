-- ===== src/RateLimit/Tests.antt =====
-- The limiter of src/api/rate_limit.py on concrete requests.
use extube.Prelude.{◌≤◌, ◌≡◌, some, none, [], ◌∷◌, refl, arith}
use extube.Prelude.Dict
use extube.Prelude.Text.{concat}
use extube.RateLimit.{
  RateLimitRule, SlidingWindow, Request, Middleware, passed, key_of, rule_of, admit, get_client_ip,
  get_rule,
}
use extube.RateLimit.Window.{width}
use extube.RateLimit.Limits.{serve, hits, serve-le-max_requests}
use extube.RateLimit.Retry.{admit-retry_after}

abbrev rule : RateLimitRule
rule = record { max_requests = 2; window_seconds = 10 }

abbrev middleware : Middleware
middleware = record { default_rule = rule; path_rules = []; windows = [] }

abbrev request : Request
request = record {
  method = "GET";
  path = "/api/jobs";
  forwarded_for = some " 10.0.0.1 , 10.0.0.2";
  client_host = none;
}

key_of-request : key_of middleware request ≡ "10.0.0.1:default"
unfolding key_of get_client_ip get_rule concat
key_of-request = refl

serve-le-max_requests_example :
    hits "10.0.0.1:default"
      (width rule)
      30
      (serve middleware ((request, 10) ∷ (request, 20) ∷ (request, 30) ∷ []))
    ≤ 2
unfolding rule_of get_rule Dict.get_or
serve-le-max_requests_example =
    serve-le-max_requests "10.0.0.1:default" rule 30 middleware 0
      ((request, 10) ∷ (request, 20) ∷ (request, 30) ∷ [])
      (omega arith, (omega arith, (omega arith, tt)))
      ((λ _. refl), ((λ _. refl), ((λ _. refl), tt))) (omega arith)

abbrev full : SlidingWindow
full = record { timestamps = 1000000 ∷ 2000000 ∷ [] }

admit-retry_after_example : (admit rule (admit rule full 3000000).0 12000000).1 ≡ passed
unfolding admit
admit-retry_after_example =
    admit-retry_after rule full 3000000 12000000 9 (omega arith) (omega arith, (omega arith, tt))
      refl (omega arith)

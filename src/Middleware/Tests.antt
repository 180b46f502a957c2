-- ===== src/Middleware/Tests.antt =====
-- Concrete chains and configurations.
use cyclone_httpserver.Common.{ℕ, ◌+◌, ◌≡◌, ◌⊎◌, refl, [], ◌∷◌, some, none, true, false, arith}
use cyclone_httpserver.Common.Bytes.{codes}
use cyclone_httpserver.Common.Dict.{lookup}
use cyclone_httpserver.Http.Request.{HttpRequest, new_request, get_header}
use cyclone_httpserver.Http.Response.{HttpResponse}
use cyclone_httpserver.Http.Tests.{ok_response}
use cyclone_httpserver.Http.Types.{options}
use cyclone_httpserver.Middleware.{
  Middleware, passed, refused, response, exception, add_middleware, process_after, after_loop,
}
use cyclone_httpserver.Middleware.Chain.{Ended, process_after_cases}
use cyclone_httpserver.Middleware.Cors.{
  CorsConfig, default_config, is_options, before, after, join, join_loop,
}
use cyclone_httpserver.Middleware.Cors.Laws.{Answers, before_lem, after-origin, origin_key}

-- Counts the requests and the responses that it sees.
abbrev counter : Middleware ℕ
counter = record {
  before = λ w req. (w + 1, passed req);
  after = λ w r. (w + 10, record { result = r; thrown = none });
}

-- Throws at every response.
abbrev thrower : Middleware ℕ
thrower = record {
  before = λ w req. (w, passed req);
  after = λ w r. (w + 100, record { result = r; thrown = some (exception (codes "no")) });
}

process_after_cases_example :
    Ended
      (add_middleware thrower (counter ∷ []))
      0
      ok_response
      (process_after (add_middleware thrower (counter ∷ [])) 0 ok_response).0
      (process_after (add_middleware thrower (counter ∷ [])) 0 ok_response).1
process_after_cases_example =
    process_after_cases (add_middleware thrower (counter ∷ [])) 0 ok_response

-- The counter before the one that throws is not reached.
after_test :
    process_after (add_middleware thrower (counter ∷ [])) 0 ok_response
    ≡ (100, record { result = ok_response; thrown = none })
unfolding process_after after_loop
after_test = refl

abbrev pub two_origins : CorsConfig
two_origins = record default_config { allowed_origins = codes "http://a" ∷ codes "http://b" ∷ [] }

abbrev pub preflight : HttpRequest
preflight = record (new_request 0) {
  method = options;
  headers = (codes "Origin", codes "http://c") ∷ [];
}

before_example :
    ((is_options preflight.method ≡ false) × (before two_origins preflight ≡ passed preflight))
    ⊎ ((r : HttpResponse) × (is_options preflight.method ≡ true)
        × (before two_origins preflight ≡ refused (response r))
        × Answers two_origins (get_header (codes "Origin") preflight) r)
before_example = before_lem two_origins preflight

-- The second origin is allowed, but a response names the first one to it too.
after-origin_example :
    lookup origin_key (after two_origins ok_response).headers ≡ some (codes "http://a")
after-origin_example =
    after-origin two_origins ok_response (codes "http://a") (codes "http://b" ∷ []) refl
      (ground arith, (ground arith, tt)) (ground arith) (ground arith)

join_test : join (codes "GET" ∷ codes "PUT" ∷ []) (codes ", ") ≡ codes "GET, PUT"
unfolding join join_loop
join_test = refl

-- ===== src/Server/Preflight.antt =====
-- The server with the CORS middleware in front of its chain.
use cyclone_httpserver.Common.{◌≡◌, ap, refl, true, List, ◌∷◌, inl, inr}
use cyclone_httpserver.Common.Bytes.{codes}
use cyclone_httpserver.Http.Request.{HttpRequest, get_header}
use cyclone_httpserver.Http.Response.{HttpResponse}
use cyclone_httpserver.Middleware.{response, refused, Middleware, process_before}
use cyclone_httpserver.Middleware.Cors.{CorsConfig, cors_middleware, is_options}
use cyclone_httpserver.Middleware.Cors.Laws.{Answers, before_lem}
use cyclone_httpserver.Server.{Routed, http_handle_request}

module _ {W : Type 0} (route : W → HttpRequest → HttpResponse → W × Routed) where
  -- With the CORS middleware first in the chain, an OPTIONS request never reaches the router, nor
  -- the middlewares behind it, before or after: HttpHandleRequest leaves the application's state as it
  -- is, and the response is the answer to the preflight request, which refuses a denied origin
  -- with 403 and allows any other with 204.
  pub http_handle_request-preflight :
      (config : CorsConfig) (ms : List (Middleware W)) (w : W) (req : HttpRequest)
      (resp : HttpResponse)
      → is_options req.method ≡ true
      → (r : HttpResponse) × (http_handle_request route (cors_middleware config ∷ ms) w req resp
          ≡ (w, r))
        × Answers config (get_header (codes "Origin") req) r
  unfolding http_handle_request process_before
  http_handle_request-preflight config ms w req resp h = elim (before_lem config req) [
    | inl (other, _) ↦ absurd (cc)
    | inr (r, _, e, a) ↦
        let k : process_before (cors_middleware config ∷ ms) w req ≡ (w, refused (response r)) =
          rw (e, process_before) refl in
        (r, rw (ap (λ x. x.1) k, http_handle_request) (rw (ap (λ x. x.0) k) refl), a)
  ]

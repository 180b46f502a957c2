-- ===== src/Middleware/Cors.antt =====
-- HttpServer/include/CorsConfig.hpp, CorsMiddleware.hpp and HttpServer/src/CorsMiddleware.cpp.
pub mod Laws
use cyclone_httpserver.Common.{
  ℕ, suc, zero, Bool, true, false, not, ◌&&◌, ◌||◌, none, List, [], ◌∷◌, ◌++◌, if◌then◌else◌, ltb,
  ◌==◌,
}
use cyclone_httpserver.Common.Bytes.{Text, codes, text_eq, is_empty}
use cyclone_httpserver.Common.Decimal.{ℤ, pos, int_to_text}
use cyclone_httpserver.Http.Request.{HttpRequest, get_header}
use cyclone_httpserver.Http.Response.{
  HttpResponse, new_response, add_header, set_status_code, set_status_message, set_status_line,
  set_body, set_content_type,
}
use cyclone_httpserver.Http.Types.{
  HttpMethod, options, HttpStatusCode, forbidden, no_content, status_number,
}
use cyclone_httpserver.Middleware.{Middleware, Before, passed, refused, response, Filled}

pub record CorsConfig : Type 0 where
  pub allowed_origins : List Text
  pub allowed_methods : List Text
  pub allowed_headers : List Text
  pub allow_credentials : Bool
  pub max_age : ℤ

abbrev pub default_config : CorsConfig
default_config = record {
  allowed_origins = codes "*" ∷ [];
  allowed_methods =
      codes "GET" ∷ codes "POST" ∷ codes "PUT" ∷ codes "DELETE" ∷ codes "OPTIONS" ∷ [];
  allowed_headers = codes "Content-Type" ∷ codes "Authorization" ∷ codes "Cookie" ∷ [];
  allow_credentials = false;
  max_age = pos 3600;
}

-- `std::find` in a list of strings, compared with its end.
abbrev pub contains : List Text → Text → Bool
contains [] s = false
contains (x ∷ xs) s = text_eq x s || contains xs s

abbrev pub is_nil : List Text → Bool
is_nil [] = true
is_nil (x ∷ xs) = false

-- The loop of `join`, at its index and the text written so far.
unfoldable pub join_loop : ℕ → Text → List Text → Text → Text
join_loop i result [] delimiter = result
join_loop i result (s ∷ ss) delimiter =
    join_loop (suc i) ((if ltb 0 i then result ++ delimiter else result) ++ s) ss delimiter

unfoldable pub join : List Text → Text → Text
join strings delimiter = join_loop 0 [] strings delimiter

unfoldable pub is_origin_allowed : CorsConfig → Text → Bool
is_origin_allowed config origin =
    is_nil config.allowed_origins
    || (contains config.allowed_origins (codes "*") || contains config.allowed_origins origin)

-- A header that is added under a condition.
abbrev add_if : Bool → Text → Text → HttpResponse → HttpResponse
add_if true key value r = add_header key value r
add_if false key value r = r

unfoldable pub add_cors_headers : CorsConfig → HttpResponse → Text → HttpResponse
add_cors_headers config r origin =
    let r1 = add_if (not (is_empty origin)) (codes "Access-Control-Allow-Origin") origin r in
    let r2 =
      add_if config.allow_credentials (codes "Access-Control-Allow-Credentials") (codes "true")
        r1 in
    let r3 =
      add_if (not (is_nil config.allowed_methods)) (codes "Access-Control-Allow-Methods")
        (join config.allowed_methods (codes ", ")) r2 in
    let r4 =
      add_if (not (is_nil config.allowed_headers)) (codes "Access-Control-Allow-Headers")
        (join config.allowed_headers (codes ", ")) r3 in
    add_header (codes "Access-Control-Max-Age") (int_to_text config.max_age) r4

unfoldable pub handle_preflight_request : CorsConfig → HttpRequest → HttpResponse → HttpResponse
handle_preflight_request config req r =
    let origin = get_header (codes "Origin") req in
    let effective = if is_empty origin then codes "*" else origin in
    if not (is_empty origin) && not (is_origin_allowed config origin)
    then set_content_type (codes "text/plain") (
        set_body (codes "Origin not allowed")
          (set_status_line req.version forbidden (codes "Forbidden") r))
    else set_status_message (codes "No Content")
        (set_status_code no_content (add_cors_headers config r effective))

abbrev pub is_options : HttpMethod → Bool
is_options options = true
is_options _ = false

-- `before`, which throws the response to a preflight request.
unfoldable pub before : CorsConfig → HttpRequest → Before
before config req =
    if is_options req.method
    then refused (response (handle_preflight_request config req (new_response true)))
    else passed req

abbrev is_no_content : HttpStatusCode → Bool
is_no_content code = status_number code == 204

unfoldable pub after : CorsConfig → HttpResponse → HttpResponse
after config r = if is_no_content r.status_code then r else elim config.allowed_origins [
  | [] ↦ r
  | first ∷ others ↦
      if contains (first ∷ others) (codes "*")
      then add_cors_headers config r (codes "*")
      else add_cors_headers config r first
]

-- The class, as a middleware of a chain; it keeps no state.
abbrev pub cors_middleware : {W : Type 0} → CorsConfig → Middleware W
cors_middleware config = record {
  before = λ w req. (w, before config req);
  after = λ w r. (w, record { result = after config r; thrown = none });
}

-- ===== src/Server/Tests.antt =====
-- A concrete application, and connections to it.
use cyclone_httpserver.Common.{ℕ, ◌+◌, ◌≡◌, refl, List, [], ◌∷◌, ◌++◌, some, false}
use cyclone_httpserver.Common.Bytes.{Text, codes}
use cyclone_httpserver.Http.Buffer.{bytes}
use cyclone_httpserver.Http.Context.{HttpContext, new_context}
use cyclone_httpserver.Http.Context.Message.{received, print_message}
use cyclone_httpserver.Http.Context.Roundtrip.Headers.{start}
use cyclone_httpserver.Http.Request.{HttpRequest, new_request, get_header, method_of, parse_target}
use cyclone_httpserver.Http.Response.{HttpResponse, set_status_line, set_body, new_response}
use cyclone_httpserver.Http.Response.Wire.{wire}
use cyclone_httpserver.Http.Tests.{post_message, post_message-IsPlain}
use cyclone_httpserver.Http.Types.{http_1_1, HttpStatusCode}
use cyclone_httpserver.Middleware.{Middleware}
use cyclone_httpserver.Middleware.Cors.{cors_middleware}
use cyclone_httpserver.Middleware.Cors.Laws.{Answers}
use cyclone_httpserver.Middleware.Tests.{two_origins, preflight}
use cyclone_httpserver.Server.{
  Routed, found, served, crashed, Connection, on_message, http_handle_request, send_by, shutdown_if,
  bad_request,
}
use cyclone_httpserver.Server.Crash.{IsBadLine, at_line, on_message_crashes}
use cyclone_httpserver.Server.Preflight.{http_handle_request-preflight}
use cyclone_httpserver.Server.Reply.{reply, on_message-print_message}

-- Counts the requests and answers each with its body.
abbrev pub echo : ℕ → HttpRequest → HttpResponse → ℕ × Routed
echo w req resp = (
  w + 1,
  found (set_body req.content (set_status_line http_1_1 HttpStatusCode.ok (codes "OK") resp)),
)

abbrev plain : Connection
plain = record { use_ssl = false; has_ssl = false }

abbrev pub chain : List (Middleware ℕ)
chain = cors_middleware two_origins ∷ []

abbrev request : HttpRequest
request = received post_message [] 0 5

on_message-print_message_example :
    (b' : Text) × (on_message echo chain bytes plain 0
        (new_context 0)
        (print_message post_message (codes "GET /"))
        5
      ≡ some (
          served (reply echo chain 0 request).0 (start (codes "hi") 2) b' (
            send_by plain (wire (reply echo chain 0 request).1)
            ++ shutdown_if (reply echo chain 0 request).1.close_connection)))
    × (b' ≡ codes "GET /")
on_message-print_message_example =
    on_message-print_message echo chain bytes plain 0 post_message [] 0 5
      (print_message post_message (codes "GET /")) (codes "GET /") post_message-IsPlain refl

http_handle_request-preflight_example :
    (r : HttpResponse) × (http_handle_request echo chain 3 preflight (new_response false) ≡ (3, r))
    × Answers two_origins (get_header (codes "Origin") preflight) r
http_handle_request-preflight_example =
    http_handle_request-preflight echo two_origins [] 3 preflight (new_response false) refl

-- A request line without a version.
abbrev bad : Text
bad = codes "GET /x" ++ 13 ∷ 10 ∷ []

bad-IsBadLine : IsBadLine (codes "GET /x")
unfolding method_of parse_target
bad-IsBadLine = record {
  name = codes "GET";
  behind = codes "/x";
  parts = refl;
  known = refl;
  wrong = λ r. refl;
}

on_message_crashes_example :
    (c : HttpContext) × (on_message echo chain bytes plain 0 (at_line (new_request 0)) bad 5
      ≡ some (served 0 c bad bad_request))
    × ((w' : ℕ) (y : Text) (time' : ℕ)
        → on_message echo chain bytes plain w' c (bad ++ y) time' ≡ some crashed)
on_message_crashes_example =
    on_message_crashes echo chain bytes plain 0 (new_request 0) bad 5 6 refl refl bad-IsBadLine

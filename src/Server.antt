-- ===== src/Server.antt =====
-- HttpServer/include/HttpServer.hpp and HttpServer/src/HttpServer.cpp: what the server does with the
-- bytes that arrive on a connection. The router is a parameter here: `route` is Router::route with the
-- handlers that are registered, over the application's state `W`.
pub mod Reply
pub mod Crash
pub mod Preflight
pub mod Tls
pub mod Tests
use cyclone_httpserver.Common.{
  ℕ, Bool, true, false, not, ◌&&◌, ◌||◌, Option, none, some, List, [], ◌∷◌, ◌++◌, if◌then◌else◌,
}
use cyclone_httpserver.Common.Bytes.{Text, codes, text_eq}
use cyclone_httpserver.Http.Buffer.{BufferApi}
use cyclone_httpserver.Http.Context.{
  HttpContext, Step, Verdict, good, bad, threw, aborted, is_complete, parse_request, reset,
}
use cyclone_httpserver.Http.Request.{HttpRequest, get_header}
use cyclone_httpserver.Http.Response.{
  HttpResponse, new_response, append_to_buffer, set_status_code, set_status_message,
  set_close_connection, set_body,
}
use cyclone_httpserver.Http.Types.{HttpVersion, http_1_0, not_found, internal_server_error}
use cyclone_httpserver.Middleware.{
  Thrown, response, exception, Before, passed, refused, Filled, Middleware, process_before,
  process_after,
}

-- How a call of `route` ends: with the response as it leaves it, and `true` or `false`, or what a
-- handler throws.
pub data Routed : Type 0 where
  found missed : HttpResponse → Routed
  failed : HttpResponse → Thrown → Routed

-- What a connection is told to do.
pub data Action : Type 0 where
  -- `conn->send` of plain bytes, and `send` of the connection's `SslConnection`.
  send ssl_send : Text → Action
  shutdown : Action

-- The two `catch` clauses of `HttpHandleRequest`.
abbrev pub catch_thrown : HttpResponse → Thrown → HttpResponse
catch_thrown resp (response r) = r
catch_thrown resp (exception what) = set_body what (set_status_code internal_server_error resp)

-- What `HttpHandleRequest` makes of a response where no route was found.
abbrev pub to_not_found : HttpResponse → HttpResponse
to_not_found resp =
    set_close_connection true
      (set_status_message (codes "Not Found") (set_status_code not_found resp))

-- The end of a function that fills in a response, inside the `try`.
abbrev pub catch_filled : Filled → HttpResponse
catch_filled end = elim end.thrown [ none ↦ end.result | some t ↦ catch_thrown end.result t ]

-- Whether the connection closes after the response.
unfoldable pub wants_close : HttpRequest → Bool
wants_close req =
    let connection = get_header (codes "Connection") req in
    text_eq connection (codes "close")
    || is_1_0 req.version && not (text_eq connection (codes "Keep-Alive"))
  where
    is_1_0 : HttpVersion → Bool
    is_1_0 http_1_0 = true
    is_1_0 _ = false

module _ {W : Type 0} (route : W → HttpRequest → HttpResponse → W × Routed)
    (chain : List (Middleware W)) where
  -- The part of the `try` behind `processBefore`.
  unfoldable pub route_and_after : W → HttpRequest → HttpResponse → W × HttpResponse
  route_and_after w req resp =
      let (w', end) = route w req resp in
      elim end [
        | found r ↦ let (w'', f) = process_after chain w' r in (w'', catch_filled f)
        | missed r ↦ let (w'', f) = process_after chain w' (to_not_found r) in (w'', catch_filled f)
        | failed r t ↦ (w', catch_thrown r t)
      ]

  -- `HttpHandleRequest`.
  unfoldable pub http_handle_request : W → HttpRequest → HttpResponse → W × HttpResponse
  http_handle_request w req resp =
      let (w', end) = process_before chain w req in
      elim end [
        | passed req' ↦ route_and_after w' req' resp
        | refused t ↦ (w', catch_thrown resp t)
      ]

-- Whether the server uses SSL, and whether the connection stands in `sslConns_`.
pub record Connection : Type 0 where
  pub use_ssl : Bool
  pub has_ssl : Bool

-- How the bytes of a response are sent.
abbrev pub send_by : Connection → Text → List Action
send_by conn out =
    if conn.use_ssl then (if conn.has_ssl then ssl_send out ∷ [] else []) else send out ∷ []

abbrev pub shutdown_if : Bool → List Action
shutdown_if true = shutdown ∷ []
shutdown_if false = []

abbrev pub bad_request : List Action
bad_request = send (codes "HTTP/1.1 400 Bad Request" ++ 13 ∷ 10 ∷ 13 ∷ 10 ∷ []) ∷ shutdown ∷ []

-- The end of `onMessage`: the application's state, the context and the buffer of the connection, and what
-- it is told to do; or the end of the process by a failed assertion.
pub data Served (W Buf : Type 0) : Type 0 where
  served : W → HttpContext → Buf → List Action → Served W Buf
  crashed : Served W Buf

module _ {W : Type 0} (route : W → HttpRequest → HttpResponse → W × Routed)
    (chain : List (Middleware W)) (api : BufferApi) (conn : Connection) where
  open api use {Buf, content, empty}

  -- `onRequest`.
  unfoldable pub on_request : W → HttpRequest → W × List Action
  on_request w req =
      let (w', resp) = http_handle_request route chain w req (new_response (wants_close req)) in
      (
        w',
        send_by conn (content (append_to_buffer api resp empty))
            ++ shutdown_if resp.close_connection,
      )

  -- The end of the `try` of `onMessage`, after what is sent already.
  unfoldable pub finish_message : W → HttpContext → Buf → List Action → Served W Buf
  finish_message w c b sent =
      if is_complete c
      then (let (w', actions) = on_request w c.request in served w' (reset c) b (sent ++ actions))
      else served w c b sent

  -- What `onMessage` does after the parsing; `threw` is its `catch`.
  unfoldable pub answer : W → Step Buf → Served W Buf
  answer w s = elim s.verdict [
    | good ↦ finish_message w s.context s.buffer []
    | bad ↦ finish_message w s.context s.buffer bad_request
    | threw ↦ served w s.context s.buffer bad_request
    | aborted ↦ crashed
  ]

  -- `onMessage`; `none` where the fuel of the parser runs out.
  unfoldable pub on_message : W → HttpContext → Buf → ℕ → Option (Served W Buf)
  on_message w c b time = elim (parse_request api c b time) [
    | none ↦ none
    | some s ↦ some (answer w s)
  ]

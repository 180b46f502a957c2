-- ===== src/Server/Reply.antt =====
-- From the bytes of a connection to the bytes of the response.
use cyclone_httpserver.Common.{
  ℕ, ◌≡◌, refl, sym, ap, ◌∙◌, none, some, List, ◌++◌, inl, inr, Option-cases,
}
use mathlib.Core.Option.{some-injective}
use cyclone_httpserver.Common.Bytes.{Text}
use cyclone_httpserver.Http.Buffer.{BufferApi}
use cyclone_httpserver.Http.Context.{HttpContext, Step, good, parse_request, reset}
use cyclone_httpserver.Http.Context.Pieces.{parse_request_total}
use cyclone_httpserver.Http.Context.View.{view, view_option}
use cyclone_httpserver.Http.Context.Message.{Message, IsPlain, received, print_message}
use cyclone_httpserver.Http.Context.Roundtrip.Headers.{start, completed}
use cyclone_httpserver.Http.Context.Roundtrip.{parse_start}
use cyclone_httpserver.Http.Request.{HttpRequest}
use cyclone_httpserver.Http.Response.{HttpResponse, new_response, append_to_buffer}
use cyclone_httpserver.Http.Response.Wire.{wire, append_to_buffer-wire}
use cyclone_httpserver.Middleware.{Middleware}
use cyclone_httpserver.Http.Types.{got_all}
use cyclone_httpserver.Server.{
  Routed, send_by, shutdown_if, Served, served, Connection, wants_close, http_handle_request,
  on_request, finish_message, answer, on_message,
}

none-absurd {ℓ κ} : {A : Type ℓ} {P : Type κ} {a : A} → none ≡ some a → P
none-absurd h = absurd (cc)

module _ {W : Type 0} (route : W → HttpRequest → HttpResponse → W × Routed)
    (chain : List (Middleware W)) where
  -- The response to a request, made from a new one that closes the connection if the request asks for it.
  abbrev pub reply : W → HttpRequest → W × HttpResponse
  reply w req = http_handle_request route chain w req (new_response (wants_close req))

module _ {W : Type 0} (route : W → HttpRequest → HttpResponse → W × Routed)
    (chain : List (Middleware W)) (api : BufferApi) (conn : Connection) where
  open api use {Buf, content, empty, content-empty}

  -- onMessage always comes to an end.
  pub on_message_total :
      (w : W) (c : HttpContext) (b : Buf) (time : ℕ)
      → (s : Served W Buf) × (on_message route chain api conn w c b time ≡ some s)
  unfolding on_message
  on_message_total w c b time =
      let (s, e, _) = parse_request_total api c b time in
      (answer route chain api conn w s, rw (e, on_message))

  on_request-reply :
      (w : W) (req : HttpRequest)
      → on_request route chain api conn w req ≡ (
        (reply route chain w req).0,
        send_by conn (wire (reply route chain w req).1)
            ++ shutdown_if (reply route chain w req).1.close_connection,
      )
  unfolding on_request
  on_request-reply w req =
      let r = (reply route chain w req).1 in
      let out : content (append_to_buffer api r empty) ≡ wire r =
        append_to_buffer-wire api r empty ∙ ap (λ s. s ++ wire r) content-empty in
      rw out

  -- A step that completed a request is answered by its response.
  answer-completed :
      (w : W) (s : Step Buf) (req : HttpRequest) (rest : Text)
      → view api s ≡ completed req rest
      → answer route chain api conn w s
        ≡ served
            (reply route chain w req).0
            (reset (record { state = got_all; request = req }))
            s.buffer
            (send_by conn (wire (reply route chain w req).1)
              ++ shutdown_if (reply route chain w req).1.close_connection)
  unfolding answer finish_message
  answer-completed w s req rest e =
      let c : s.context ≡ record { state = got_all; request = req } = ap (λ v. v.context) e in
      let v : s.verdict ≡ good = ap (λ v. v.verdict) e in
      rw (v, answer, c) (rw (on_request-reply w req) refl)

  -- A connection whose context is that of a new one, or one that was reset with the content left
  -- of the request before, gets a well-formed message with further bytes behind it: the message is
  -- answered by exactly one response, the text of what http_handle_request makes of its
  -- request, and by a shutdown after it if the response says so; the context is reset, and the
  -- further bytes stay in the buffer, not even looked at if they hold another whole request.
  pub on_message-print_message :
      (w : W) (m : Message) (left : Text) (unset time : ℕ) (b : Buf) (rest : Text)
      → IsPlain m
      → content b ≡ print_message m rest
      → (b' : Buf) × (on_message route chain api conn w (start left unset) b time
          ≡ some (
              served
                (reply route chain w (received m left unset time)).0
                (start
                  (received m left unset time).content
                  (received m left unset time).content_length)
                b'
                (send_by conn (wire (reply route chain w (received m left unset time)).1)
                  ++ shutdown_if
                      (reply route chain w (received m left unset time)).1.close_connection)))
        × (content b' ≡ rest)
  unfolding on_message reset
  on_message-print_message w m left unset time b rest h e =
      let p = parse_start api m left unset time b rest h e in
      elim (Option-cases (parse_request api (start left unset) b time)) [
        | inl none' ↦ none-absurd (sym (ap (view_option api) none') ∙ p)
        | inr (s, done) ↦
            let q : view api s ≡ completed (received m left unset time) rest =
              some-injective _ _ (sym (ap (view_option api) done) ∙ p) in
            (
              s.buffer,
              rw (done, on_message) (ap some (answer-completed w s _ rest q)),
              ap (λ v. v.buffer) q,
            )
      ]

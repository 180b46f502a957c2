-- ===== src/Server/Tls.antt =====
-- HttpServer/src/HttpServer.cpp with TLS: `onConnection`, and `onMessage` as the message callback of a
-- connection's SslConnection. What `onRead` decrypts is in a buffer of its own, which is gone when
-- `onRead` returns; the context stays with the connection.
use cyclone_httpserver.Common.{
  ℕ, ◌≡◌, ◌≢◌, ◌⊎◌, inl, inr, refl, sym, ap, ◌∙◌, Bool, true, false, Option, none, some, List, [],
  ◌∷◌, ◌++◌,
}
use cyclone_httpserver.Common.Bytes.{Text}
use cyclone_httpserver.Http.Buffer.{BufferApi}
use cyclone_httpserver.Http.Context.{HttpContext, new_context}
use cyclone_httpserver.Http.Request.{HttpRequest}
use cyclone_httpserver.Http.Response.{HttpResponse}
use cyclone_httpserver.Middleware.{Middleware}
use cyclone_httpserver.Server.{
  Routed, Action, send, ssl_send, shutdown, Served, served, crashed, Connection, on_message,
}
use cyclone_httpserver.Ssl
use cyclone_httpserver.Ssl.{
  OpenSsl, SslConnection, Event, tcp_send, tcp_shutdown, message, new_connection,
  set_message_callback, start_handshake, on_read,
}
pub mod Deliver
pub mod Lost
pub mod Answer
mod Tests

-- The application, and what the server keeps of one connection: its context and its SslConnection.
pub record TlsState (W S : Type 0) : Type 0 where
  pub app : W
  pub context : HttpContext
  pub ssl : SslConnection S

-- How the handling of some bytes ends: with what went out, or with the end of the process.
pub data End (W S : Type 0) : Type 0 where
  running : TlsState W S → List Event → End W S
  ended : End W S

-- What `sslConns_` says of a connection that uses TLS.
abbrev pub over_tls : Connection
over_tls = record { use_ssl = true; has_ssl = true }

abbrev pub before : {W S : Type 0} → List Event → Option (End W S) → Option (End W S)
before es none = none
before es (some ended) = some ended
before es (some (running t fs)) = some (running t (es ++ fs))

module _ {W S : Type 0} (openssl : OpenSsl S) (route : W → HttpRequest → HttpResponse → W × Routed)
    (chain : List (Middleware W)) (api : BufferApi) where
  open api use {Buf, append, empty}

  -- The actions of `onMessage` on the connection, in order.
  unfoldable pub perform :
      List Action → SslConnection S → List Event → Option (SslConnection S × List Event)
  perform [] c es = some (c, es)
  perform (send out ∷ actions) c es = perform actions c (es ++ tcp_send out ∷ [])
  perform (shutdown ∷ actions) c es = perform actions c (es ++ tcp_shutdown ∷ [])
  perform (ssl_send out ∷ actions) c es = elim (Ssl.send openssl c out) [
    | none ↦ none
    | some (c', fs) ↦ perform actions c' (es ++ fs)
  ]

  abbrev performed : W → HttpContext → Option (SslConnection S × List Event) → Option (End W S)
  performed w c none = none
  performed w c (some (ssl, es)) = some (running (record { app = w; context = c; ssl = ssl }) es)

  abbrev after_message : SslConnection S → Option (Served W Buf) → Option (End W S)
  after_message ssl none = none
  after_message ssl (some crashed) = some ended
  after_message ssl (some (served w c b actions)) = performed w c (perform actions ssl [])

  -- The message callback, on a buffer with the decrypted text.
  unfoldable pub deliver : TlsState W S → Text → ℕ → Option (End W S)
  deliver t text time =
      after_message t.ssl
        (on_message route chain api over_tls t.app t.context (append text empty) time)

  abbrev pub and_then : Option (End W S) → (TlsState W S → Option (End W S)) → Option (End W S)
  and_then none f = none
  and_then (some ended) f = some ended
  and_then (some (running t es)) f = before es (f t)

  -- What `onRead` did, with its calls of the message callback.
  unfoldable pub pass_on : TlsState W S → List Event → ℕ → Option (End W S)
  pass_on t [] time = some (running t [])
  pass_on t (message text ∷ es) time = and_then (deliver t text time) λ t'. pass_on t' es time
  pass_on t (tcp_send out ∷ es) time = before (tcp_send out ∷ []) (pass_on t es time)
  pass_on t (tcp_shutdown ∷ es) time = before (tcp_shutdown ∷ []) (pass_on t es time)

  abbrev after_read : TlsState W S → ℕ → Option (SslConnection S × List Event) → Option (End W S)
  after_read t time none = none
  after_read t time (some (ssl, es)) = pass_on (record t { ssl = ssl }) es time

  -- Bytes that arrive on the connection.
  unfoldable pub arrive : TlsState W S → Text → ℕ → Option (End W S)
  arrive t bytes time = after_read t time (on_read openssl t.ssl bytes)

  abbrev connected : W → ℕ → Option (SslConnection S × List Event) → Option (End W S)
  connected w unset r = performed w (new_context unset) r

  -- `onConnection` of a new connection with TLS; `none` also where the constructor of SslConnection fails, whose
  -- null `ssl_` the handshake then uses.
  pub on_connection : W → Option S → Bool → Bool → ℕ → Option (End W S)
  on_connection w object read_bio write_bio unset =
      elim (new_connection object read_bio write_bio) [
        | none ↦ none
        | some c ↦ connected w unset (start_handshake openssl (set_message_callback c))
      ]

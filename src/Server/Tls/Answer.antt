-- ===== src/Server/Tls/Answer.antt =====
-- A request that arrives whole over TLS.
use cyclone_httpserver.Common.{
  ℕ, ◌≡◌, ◌≢◌, refl, sym, ap, ◌∙◌, Bool, true, false, some, List, [], ◌∷◌, ◌++◌,
}
use mathlib.Core.List.{append-nil, append_assoc}
use cyclone_httpserver.Common.Bytes.{Text}
use cyclone_httpserver.Http.Buffer.{BufferApi}
use cyclone_httpserver.Http.Context.Message.{Message, IsPlain, received, print_message}
use cyclone_httpserver.Http.Context.Roundtrip.Headers.{start}
use cyclone_httpserver.Http.Request.{HttpRequest}
use cyclone_httpserver.Http.Response.{HttpResponse}
use cyclone_httpserver.Http.Response.Wire.{wire}
use cyclone_httpserver.Middleware.{Middleware}
use cyclone_httpserver.Server.{Routed, send_by, shutdown_if, on_message}
use cyclone_httpserver.Server.Reply.{reply, on_message-print_message}
use cyclone_httpserver.Ssl
use cyclone_httpserver.Ssl.{
  OpenSsl, SslConnection, established, Event, tcp_send, tcp_shutdown, message, on_read, encrypt,
  and_send_pending, send_pending_data,
}
use cyclone_httpserver.Ssl.Pending.{sent, send_pending_data-outgoing}
use cyclone_httpserver.Server.Tls.{
  TlsState, running, over_tls, after_message, performed, perform, deliver, arrive,
}
use cyclone_httpserver.Server.Tls.Deliver.{Delivered, arrive-Delivered}

sent-append : (es fs : List Event) → sent (es ++ fs) ≡ sent es ++ sent fs
sent-append [] fs = refl
sent-append (tcp_send t ∷ es) fs =
    ap (λ s. t ++ s) (sent-append es fs) ∙ sym (append_assoc t (sent es) (sent fs))
sent-append (tcp_shutdown ∷ es) fs = sent-append es fs
sent-append (Event.message t ∷ es) fs = sent-append es fs

-- What `onMessage` does behind the response.
abbrev pub closing : Bool → List Event
closing true = tcp_shutdown ∷ []
closing false = []

line_not_empty : (l : Text) (x : ℕ) (z : Text) → l ++ x ∷ z ≢ []
line_not_empty [] x z h = cc
line_not_empty (y ∷ l) x z h = cc

module _ {S : Type 0} (openssl : OpenSsl S) where
  open openssl use {ssl_write, outgoing}

  -- `send` of text that OpenSSL takes.
  record Encrypted (c : SslConnection S) (out : Text) : Type 0 where
    after : SslConnection S
    events : List Event
    runs : Ssl.send openssl c out ≡ some (after, events)
    whole : sent events ≡ outgoing (ssl_write out c.ssl_object).1
    still : after.state ≡ established

  encrypts :
      (c : SslConnection S) (out : Text)
      → c.state ≡ established
      → (ssl_write out c.ssl_object).0 ≡ true
      → Encrypted c out
  unfolding Ssl.send Ssl.send_by encrypt and_send_pending
  encrypts c out est taken =
      let (s', es, e, whole, emptied, pieces) =
        send_pending_data-outgoing openssl (ssl_write out c.ssl_object).1 in
      record {
        after = record c { ssl_object = s' };
        events = es;
        runs =
            ap (λ st. Ssl.send_by openssl st c out) est
            ∙ rw (taken, encrypt, and_send_pending, e) refl;
        whole = whole;
        still = est;
      }

module _ {W S : Type 0} (openssl : OpenSsl S) (route : W → HttpRequest → HttpResponse → W × Routed)
    (chain : List (Middleware W)) (api : BufferApi) where
  open openssl use {receive, plain, ssl_write, outgoing}
  open api use {Buf, content, append, empty, content-append, content-empty}

  performs :
      (c : SslConnection S) (out : Text) (close : Bool)
      → (e : Encrypted openssl c out)
      → (perform openssl route chain api (send_by over_tls out ++ shutdown_if close) c []
          ≡ some (e.after, e.events ++ closing close))
        × (sent (e.events ++ closing close) ≡ sent e.events)
  unfolding perform
  performs c out true e = (rw (e.runs, perform) refl, sent-append e.events _ ∙ append-nil _)
  performs c out false e = (
    rw (e.runs, perform) (ap (λ es. some (e.after, es)) (sym (append-nil e.events))),
    ap sent (append-nil e.events),
  )

  -- A well-formed message that is what can be decrypted of the bytes that arrive, on an established connection with a
  -- message callback, whose context is that of a new one or was reset, is handed over whole, and nothing is
  -- left to decrypt. If OpenSSL, as onRead leaves it, takes the text of the response, the response
  -- is sent as `send` sends it then, and the bytes that go to the TCP connection are exactly those
  -- that OpenSSL has for it behind that SSL_write; a shutdown follows if the response closes; the
  -- connection stays established, and the context is reset and holds nothing of what is behind the message.
  pub arrive-print_message :
      (t : TlsState W S) (bytes : Text) (time : ℕ) (m : Message) (left : Text) (unset : ℕ)
      (rest : Text) (read : SslConnection S) (handed : List Event)
      → t.ssl.state ≡ established
      → t.ssl.message_callback ≡ true
      → t.context ≡ start left unset
      → IsPlain m
      → plain (receive bytes t.ssl.ssl_object) ≡ print_message m rest
      → on_read openssl t.ssl bytes ≡ some (read, handed)
      → (ssl_write
          (wire (reply route chain t.app (received m left unset time)).1)
          read.ssl_object).0
        ≡ true
      → (let answer = reply route chain t.app (received m left unset time) in
          (c : SslConnection S) × (es : List Event) × (Ssl.send openssl read (wire answer.1)
            ≡ some (c, es))
          × (arrive openssl route chain api t bytes time
              ≡ some (
                  running
                    (record {
                      app = answer.0;
                      context =
                          start
                            (received m left unset time).content
                            (received m left unset time).content_length;
                      ssl = c;
                    })
                    (es ++ closing answer.1.close_connection)))
          × (sent (es ++ closing answer.1.close_connection)
              ≡ outgoing (ssl_write (wire answer.1) read.ssl_object).1)
          × (handed ≡ message (print_message m rest) ∷ [])
          × (plain read.ssl_object ≡ [])
          × (c.state ≡ established))
  unfolding deliver
  arrive-print_message t bytes time m left unset rest read handed est set fresh h text reads takes =
      let r : W × HttpResponse = reply route chain t.app (received m left unset time) in
      let d : Delivered openssl route chain api t bytes (plain (receive bytes t.ssl.ssl_object))
          time (read, handed) =
        arrive-Delivered openssl route chain api t bytes time (read, handed) est set
          (λ z. line_not_empty _ 13 _ (sym text ∙ z)) reads in
      let b : Buf = append (plain (receive bytes t.ssl.ssl_object)) empty in
      let e : content b ≡ print_message m rest =
        content-append _ empty
        ∙ ap (λ s. s ++ plain (receive bytes t.ssl.ssl_object)) content-empty
        ∙ text in
      let (b', run, _) =
        on_message-print_message route chain api over_tls t.app m left unset time b rest h e in
      let enc : Encrypted openssl read (wire r.1) =
        encrypts openssl read (wire r.1) d.still takes in
      let after : TlsState W S = record {
        app = r.0;
        context =
            start (received m left unset time).content (received m left unset time).content_length;
        ssl = enc.after;
      } in
      let (p, q) = performs read (wire r.1) r.1.close_connection enc in
      (
        enc.after,
        enc.events,
        enc.runs,
        d.arrives {t' = after} {es = enc.events ++ closing r.1.close_connection} (
              ap
                (λ c.
                  after_message openssl route chain api read
                    (on_message route chain api over_tls t.app c b time))
                fresh
              ∙ ap (after_message openssl route chain api read) run
              ∙ rw (p, after_message, performed) refl)
            ∙ ap (λ es. some (running after es))
                (append-nil (enc.events ++ closing r.1.close_connection)),
        q ∙ enc.whole,
        d.called ∙ ap (λ x. message x ∷ []) text,
        d.emptied,
        enc.still,
      )

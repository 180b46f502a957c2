-- ===== src/Server/Tls/Lost.antt =====
-- A request that arrives in pieces over TLS.
use cyclone_httpserver.Common.{
  ℕ, ◌≡◌, ◌≢◌, ◌⊎◌, inl, inr, refl, ap, ◌∙◌, true, false, none, some, List, [], ◌++◌, arith,
}
use cyclone_httpserver.Common.Bytes.{Text, line_end}
use cyclone_httpserver.Http.Buffer.{BufferApi}
use cyclone_httpserver.Http.Types.{expect_request_line, expect_headers}
use cyclone_httpserver.Http.Context.{
  HttpContext, parse_request, parse_loop, parse_step, parse_request_line, parse_headers,
  is_complete, stop, good,
}
use cyclone_httpserver.Http.Request.{HttpRequest}
use cyclone_httpserver.Http.Response.{HttpResponse}
use cyclone_httpserver.Middleware.{Middleware}
use cyclone_httpserver.Server.{Routed, served, on_message, answer, finish_message}
use cyclone_httpserver.Ssl.{OpenSsl, SslConnection, established}
use cyclone_httpserver.Ssl.Read.{on_read-plain}
use cyclone_httpserver.Server.Tls.Deliver.{Delivered, arrive-Delivered}
use cyclone_httpserver.Server.Tls.{TlsState, running, over_tls, perform, deliver, arrive}

-- The context waits for a line.
abbrev pub IsAtLine : HttpContext → Type 0
IsAtLine c = (c.state ≡ expect_request_line) ⊎ (c.state ≡ expect_headers)

module _ (api : BufferApi) where
  open api use {
    Buf, content, find_crlf, find_crlf-content, append, empty, content-append, content-empty,
  }

  parse_step_waits :
      (c : HttpContext) (b : Buf) (time : ℕ)
      → IsAtLine c
      → line_end (content b) ≡ none
      → parse_step api c b time ≡ stop good c b
  unfolding parse_step parse_request_line parse_headers
  parse_step_waits c b time (inl e) h = ground (arith, find_crlf-content b)
  parse_step_waits c b time (inr e) h = ground (arith, find_crlf-content b)

  parse_request_waits :
      (c : HttpContext) (b : Buf) (time : ℕ)
      → IsAtLine c
      → line_end (content b) ≡ none
      → parse_request api c b time ≡ some (stop good c b)
  unfolding parse_request parse_loop
  parse_request_waits c b time l h = rw (parse_step_waits c b time l h) refl

  is_complete_not : (c : HttpContext) → IsAtLine c → is_complete c ≡ false
  is_complete_not c (inl e) = rw e refl
  is_complete_not c (inr e) = rw e refl

  module _ {W S : Type 0} (openssl : OpenSsl S)
      (route : W → HttpRequest → HttpResponse → W × Routed) (chain : List (Middleware W)) where
    open openssl use {receive, plain}

    on_message_waits :
        (w : W) (c : HttpContext) (b : Buf) (time : ℕ)
        → IsAtLine c
        → line_end (content b) ≡ none
        → on_message route chain api over_tls w c b time ≡ some (served w c b [])
    unfolding on_message answer finish_message
    on_message_waits w c b time l h =
        rw (parse_request_waits c b time l h, on_message)
          (rw (is_complete_not c l, answer, finish_message) refl)

    -- A part of a request without the end of its line, on a connection that waits for a line: nothing goes out,
    -- and the connection is as it was but for the state of OpenSSL, from which nothing of the
    -- part can be had any more.
    pub arrive-lost :
        (t : TlsState W S) (bytes : Text) (time : ℕ)
        → t.ssl.state ≡ established
        → t.ssl.message_callback ≡ true
        → IsAtLine t.context
        → plain (receive bytes t.ssl.ssl_object) ≢ []
        → line_end (plain (receive bytes t.ssl.ssl_object)) ≡ none
        → (c : SslConnection S) × (arrive openssl route chain api t bytes time
            ≡ some (running (record t { ssl = c }) []))
          × (plain c.ssl_object ≡ [])
          × (c.state ≡ established)
    unfolding deliver perform
    arrive-lost t bytes time est set line text no_end =
        let (c, es, reads, _) = on_read-plain openssl t.ssl bytes est set in
        let d : Delivered openssl route chain api t bytes (plain (receive bytes t.ssl.ssl_object))
            time (c, es) =
          arrive-Delivered openssl route chain api t bytes time (c, es) est set text reads in
        let b : Buf = append (plain (receive bytes t.ssl.ssl_object)) empty in
        let e : content b ≡ plain (receive bytes t.ssl.ssl_object) =
          content-append _ empty
          ∙ ap (λ s. s ++ plain (receive bytes t.ssl.ssl_object)) content-empty in
        (
          c,
          d.arrives {t' = record t { ssl = c }} {es = []} (
              rw (on_message_waits t.app t.context b time line (ap line_end e ∙ no_end), deliver)
                refl),
          d.emptied,
          d.still,
        )

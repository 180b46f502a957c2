-- ===== src/Server/Tls/Deliver.antt =====
-- The decrypted text on its way to `onMessage`.
use cyclone_httpserver.Common.{ℕ, ◌≡◌, ◌≢◌, refl, sym, ◌∙◌, true, some, List, [], ◌++◌, ◌∷◌}
use mathlib.Core.Option.{some-injective}
use mathlib.Core.Path.{subst}
use cyclone_httpserver.Common.Bytes.{Text}
use cyclone_httpserver.Http.Buffer.{BufferApi}
use cyclone_httpserver.Http.Request.{HttpRequest}
use cyclone_httpserver.Http.Response.{HttpResponse}
use cyclone_httpserver.Middleware.{Middleware}
use cyclone_httpserver.Server.{Routed}
use cyclone_httpserver.Ssl.{OpenSsl, SslConnection, established, Event, message, on_read}
use cyclone_httpserver.Ssl.Read.{on_read-plain}
use cyclone_httpserver.Server.Tls.{TlsState, running, pass_on, deliver, arrive}

module _ {W S : Type 0} (openssl : OpenSsl S) (route : W → HttpRequest → HttpResponse → W × Routed)
    (chain : List (Middleware W)) (api : BufferApi) where
  open openssl use {receive, plain}

  -- Text that can be decrypted is delivered, by a connection that has nothing left to decrypt.
  pub record Delivered (t : TlsState W S) (bytes text : Text) (time : ℕ)
      (result : SslConnection S × List Event) : Type 0 where
    pub emptied : plain result.0.ssl_object ≡ []
    pub still : result.0.state ≡ established
    pub called : result.1 ≡ message text ∷ []
    pub arrives :
        {t' : TlsState W S} {es : List Event}
        → deliver openssl route chain api (record t { ssl = result.0 }) text time
          ≡ some (running t' es)
        → arrive openssl route chain api t bytes time ≡ some (running t' (es ++ []))

  pub arrive-Delivered :
      (t : TlsState W S) (bytes : Text) (time : ℕ) (result : SslConnection S × List Event)
      → t.ssl.state ≡ established
      → t.ssl.message_callback ≡ true
      → plain (receive bytes t.ssl.ssl_object) ≢ []
      → on_read openssl t.ssl bytes ≡ some result
      → Delivered t bytes (plain (receive bytes t.ssl.ssl_object)) time result
  unfolding arrive pass_on
  arrive-Delivered t bytes time result est set text h =
      let (c, es, e, a) = on_read-plain openssl t.ssl bytes est set in
      let (called, still) = a.handed text in
      let made : Delivered t bytes (plain (receive bytes t.ssl.ssl_object)) time (c, es) = record {
        emptied = a.emptied;
        still = still;
        called = called;
        arrives = λ k. rw (e, called, arrive) (rw (k, pass_on) refl);
      } in
      subst (Delivered t bytes (plain (receive bytes t.ssl.ssl_object)) time)
        (some-injective (c, es) result (sym e ∙ h)) made

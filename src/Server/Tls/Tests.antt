-- ===== src/Server/Tls/Tests.antt =====
-- A client over a transparent cipher.
use cyclone_httpserver.Common.{ℕ, ◌≡◌, refl, true, some, List, [], ◌++◌, inl, ◌∷◌}
use cyclone_httpserver.Common.Decimal.{to_text, digits_onto}
use cyclone_httpserver.Http.Types.{method_to_string, version_to_string}
use cyclone_httpserver.Common.Bytes.{Text, codes}
use cyclone_httpserver.Http.Buffer.{bytes}
use cyclone_httpserver.Http.Context.{new_context}
use cyclone_httpserver.Http.Context.Message.{received, print_message}
use cyclone_httpserver.Http.Context.Roundtrip.Headers.{start}
use cyclone_httpserver.Http.Request.{HttpRequest}
use cyclone_httpserver.Http.Response.Wire.{wire}
use cyclone_httpserver.Http.Tests.{post_message, post_message-IsPlain}
use cyclone_httpserver.Server.Reply.{reply}
use cyclone_httpserver.Server.Tests.{echo, chain}
use cyclone_httpserver.Server.Tls.{TlsState, running, arrive}
use cyclone_httpserver.Server.Tls.Lost.{arrive-lost}
use cyclone_httpserver.Server.Tls.Answer.{closing, arrive-print_message}
use cyclone_httpserver.Http.Response.{HttpResponse}
use cyclone_httpserver.Ssl
use cyclone_httpserver.Ssl.{
  SslConnection, established, Event, read_by, on_data, read_loop, read_more, hand_over, on_read,
  message,
}
use cyclone_httpserver.Ssl.Pending.{sent}
use cyclone_httpserver.Ssl.Tests.{Pipe, transparent}

abbrev shaken : TlsState ℕ Pipe
shaken = record {
  app = 0;
  context = new_context 0;
  ssl = record { ssl_object = ([], []); state = established; message_callback = true };
}

abbrev request : HttpRequest
request = received post_message [] 0 5

-- What `onRead` leaves of the connection.
abbrev read : SslConnection Pipe
read = record { ssl_object = ([], []); state = established; message_callback = true }

read_lem :
    on_read transparent shaken.ssl (print_message post_message [])
    ≡ some (read, message (print_message post_message []) ∷ [])
unfolding on_read read_by on_data read_loop read_more hand_over to_text digits_onto method_to_string
    version_to_string
read_lem = refl

abbrev answer : ℕ × HttpResponse
answer = reply echo chain 0 request

arrive-print_message_example :
    (c : SslConnection Pipe) × (es : List Event) × (Ssl.send transparent read (wire answer.1)
      ≡ some (c, es))
    × (arrive transparent echo chain bytes shaken (print_message post_message []) 5
        ≡ some (
            running
              (record {
                app = answer.0;
                context = start request.content request.content_length;
                ssl = c;
              })
              (es ++ closing answer.1.close_connection)))
    × (sent (es ++ closing answer.1.close_connection) ≡ wire answer.1)
    × (message (print_message post_message []) ∷ [] ≡ message (print_message post_message []) ∷ [])
    × (◌≡◌ {A = Text} [] [])
    × (c.state ≡ established)
arrive-print_message_example =
    arrive-print_message transparent echo chain bytes shaken (print_message post_message []) 5
      post_message [] 0 [] read (message (print_message post_message []) ∷ []) refl refl refl
      post_message-IsPlain refl read_lem refl

arrive-lost_example :
    (c : SslConnection Pipe) × (arrive transparent echo chain bytes shaken (codes "GET /in") 5
      ≡ some (running (record shaken { ssl = c }) []))
    × (c.ssl_object.0 ≡ [])
    × (c.state ≡ established)
arrive-lost_example =
    arrive-lost bytes transparent echo chain shaken (codes "GET /in") 5 refl refl (inl refl)
      (λ e. cc) refl

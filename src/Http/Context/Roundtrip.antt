-- ===== src/Http/Context/Roundtrip.antt =====
-- Parsing a printed message, and what `reset` leaves for the next one.
pub mod Headers
pub mod Line
pub mod Whole
use cyclone_httpserver.Common.{ℕ, ◌≡◌, refl, sym, ap, ◌∙◌, some, if◌then◌else◌, ◌++◌, Option, []}
use cyclone_httpserver.Common.Bytes.{Text}
use cyclone_httpserver.Http.Buffer.{BufferApi, bytes}
use cyclone_httpserver.Http.Request.{HttpRequest, new_request, swap}
use cyclone_httpserver.Http.Context.{HttpContext, parse_request, new_context, reset}
use cyclone_httpserver.Http.Context.View.{view_option, parse_request-view}
use cyclone_httpserver.Http.Context.Message.{Message, IsPlain, received, print_message}
use cyclone_httpserver.Http.Context.Roundtrip.Headers.{start, completed}
use cyclone_httpserver.Http.Context.Roundtrip.Whole.{parse_bytes-print_message}

module _ (api : BufferApi) where
  open api use {Buf, content}

  pub parse_start :
      (m : Message) (left : Text) (unset time : ℕ) (b : Buf) (rest : Text)
      → IsPlain m
      → content b ≡ print_message m rest
      → view_option api (parse_request api (start left unset) b time)
        ≡ some (completed (received m left unset time) rest)
  parse_start m left unset time b rest h e =
      parse_request-view api (start left unset) b time
      ∙ ap (λ x. parse_request bytes (start left unset) x time) e
      ∙ parse_bytes-print_message m left unset time rest h

  -- In the context of a new connection, a buffer that holds a well-formed message and further
  -- bytes behind it is parsed to the request that the message says, which is complete, and the
  -- further bytes stay unread in the buffer. (A message is well formed where its method and version are
  -- known, its texts hold none of the bytes that end them, its header values have no white space
  -- at the ends, and a POST or PUT names the length of its body, an int, while another method
  -- has no body.)
  pub parse_request-print_message :
      (m : Message) (unset time : ℕ) (b : Buf) (rest : Text)
      → IsPlain m
      → content b ≡ print_message m rest
      → view_option api (parse_request api (new_context unset) b time)
        ≡ some (completed (received m [] unset time) rest)
  parse_request-print_message m unset time b rest h e = parse_start m [] unset time b rest h e

  -- After reset, a well-formed message is parsed like the first one of the connection, but
  -- where it has no body, the content of its request is that of the request before.
  pub parse_request-reset :
      (c : HttpContext) (m : Message) (time : ℕ) (b : Buf) (rest : Text)
      → IsPlain m
      → content b ≡ print_message m rest
      → view_option api (parse_request api (reset c) b time)
        ≡ some (completed (received m c.request.content c.request.content_length time) rest)
  unfolding reset
  parse_request-reset c m time b rest h e =
      parse_start m c.request.content c.request.content_length time b rest h e

-- ===== src/Http/Context/Roundtrip/Whole.antt =====
-- The rounds of the loop for a whole printed message, on its bytes.
use cyclone_httpserver.Common.{ℕ, suc, ◌≡◌, refl, ◌∙◌, Bool, true, false, [], ◌++◌, some}
use cyclone_httpserver.Common.Bytes.{Text}
use cyclone_httpserver.Http.Buffer.{bytes}
use cyclone_httpserver.Http.Request.{HttpRequest}
use cyclone_httpserver.Http.Context.{parse_loop, parse_request, needs_request_body}
use cyclone_httpserver.Http.Context.Failed.{parse_request_of_loop}
use cyclone_httpserver.Http.Context.Resume.{loop_more, loop_done}
use cyclone_httpserver.Http.Context.Message.{
  Message, IsPlain, print_line, print_message, set_all, received, BodyFits,
}
use cyclone_httpserver.Http.Context.Roundtrip.Headers.{
  start, in_headers, headers_loop, blank_step, completed, transition_end, body_loop,
}
use cyclone_httpserver.Http.Context.Roundtrip.Line.{line_read, with_time, line_step}

-- The request that the lines have made, before the body.
abbrev lines_read : Message → Text → ℕ → ℕ → HttpRequest
lines_read m left unset time = record (line_read m left unset) {
  recv_time = time;
  headers = set_all [] m.headers;
}

finish_by :
    (b : Bool) (m : Message) (left : Text) (unset time : ℕ) (rest : Text)
    → needs_request_body m.method ≡ b
    → BodyFits b m
    → parse_loop bytes 2
        (in_headers (lines_read m left unset time))
        (print_line [] (m.body ++ rest))
        time
      ≡ some (completed (received m left unset time) rest)
finish_by true m left unset time rest e fits =
    body_loop (lines_read m left unset time) m.body rest time e fits.0 fits.1 ∙ rw e
finish_by false m left unset time rest e fits =
    loop_done 1 (in_headers (lines_read m left unset time)) _ time
      (blank_step (lines_read m left unset time) _ time
        ∙ transition_end (lines_read m left unset time) _ e)
      refl
    ∙ rw (fits, e)

finish_loop :
    (m : Message) (left : Text) (unset time : ℕ) (rest : Text)
    → IsPlain m
    → parse_loop bytes 2
        (in_headers (lines_read m left unset time))
        (print_line [] (m.body ++ rest))
        time
      ≡ some (completed (received m left unset time) rest)
finish_loop m left unset time rest h =
    finish_by (needs_request_body m.method) m left unset time rest refl h.body_fits

pub parse_bytes-print_message :
    (m : Message) (left : Text) (unset time : ℕ) (rest : Text)
    → IsPlain m
    → parse_request bytes (start left unset) (print_message m rest) time
      ≡ some (completed (received m left unset time) rest)
parse_bytes-print_message m left unset time rest h =
    let (g, done) =
      headers_loop m.headers (with_time (line_read m left unset) time)
        (print_line [] (m.body ++ rest)) time 2 h.header_texts
        (finish_loop m left unset time rest h) in
    parse_request_of_loop (suc g) (start left unset) (print_message m rest) time (
      loop_more g (start left unset) (print_message m rest) time (line_step m left unset time _ h)
        refl
      ∙ done)

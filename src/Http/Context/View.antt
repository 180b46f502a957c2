-- ===== src/Http/Context/View.antt =====
-- Only the readable bytes of the buffer matter to the parser: on any buffer it does what it does
-- on their list.
use cyclone_httpserver.Common.{
  ℕ, zero, suc, ◌+◌, ◌≤◌, ◌≡◌, refl, inl, inr, Option, none, some, length, arith, Option-cases,
}
use cyclone_httpserver.Common.Bytes.{Text}
use cyclone_httpserver.Http.Buffer.{BufferApi, bytes}
use cyclone_httpserver.Http.Context.{
  HttpContext, Step, setup_body_parsing, transition_after_headers, take_request_line,
  parse_request_line, process_header_line, parse_headers, parse_body, parse_step, parse_loop,
  parse_request,
}
use cyclone_httpserver.Http.Context.Total.{find_crlf-le}

module _ (api : BufferApi) where
  open api use {Buf, content, find_crlf, retrieve, find_crlf-content, content-retrieve}

  abbrev pub view : Step Buf → Step Text
  view s = record {
    context = s.context;
    buffer = content s.buffer;
    has_more = s.has_more;
    verdict = s.verdict;
  }

  abbrev pub view_option : Option (Step Buf) → Option (Step Text)
  view_option none = none
  view_option (some s) = some (view s)

  setup-view :
      (c : HttpContext) (b : Buf) → view (setup_body_parsing c b) ≡ setup_body_parsing c (content b)
  unfolding setup_body_parsing
  setup-view c b = ground arith

  transition-view :
      (c : HttpContext) (b : Buf)
      → view (transition_after_headers c b) ≡ transition_after_headers c (content b)
  unfolding transition_after_headers
  transition-view c b = ground (arith, setup-view c b)

  process_header_line-view :
      (c : HttpContext) (b : Buf) (n : ℕ)
      → n + 2 ≤ length (content b)
      → view (process_header_line api c b n) ≡ process_header_line bytes c (content b) n
  unfolding process_header_line
  process_header_line-view c b n h =
      ground (arith, content-retrieve (n + 2) b h, transition-view c (retrieve (n + 2) b))

  take_request_line-view :
      (c : HttpContext) (b : Buf) (time n : ℕ)
      → n + 2 ≤ length (content b)
      → view (take_request_line api c b time n) ≡ take_request_line bytes c (content b) time n
  unfolding take_request_line
  take_request_line-view c b time n h = ground (arith, content-retrieve (n + 2) b h)

  parse_body-view :
      (c : HttpContext) (b : Buf) → view (parse_body api c b) ≡ parse_body bytes c (content b)
  unfolding parse_body
  parse_body-view c b = ground (arith, content-retrieve c.request.content_length b)

  parse_step-view :
      (c : HttpContext) (b : Buf) (time : ℕ)
      → view (parse_step api c b time) ≡ parse_step bytes c (content b) time
  unfolding parse_step parse_request_line parse_headers
  parse_step-view c b time = elim (Option-cases (find_crlf b)) [
    | inl e ↦ ground (arith, find_crlf-content b, parse_body-view c b)
    | inr (n, e) ↦ ground (
      arith,
      find_crlf-content b,
      find_crlf-le api b e,
      parse_body-view c b,
      process_header_line-view c b n,
      take_request_line-view c b time n,
    )
  ]

  parse_loop-view :
      (fuel : ℕ) (c : HttpContext) (b : Buf) (time : ℕ)
      → view_option (parse_loop api fuel c b time) ≡ parse_loop bytes fuel c (content b) time
  unfolding parse_loop
  parse_loop-view zero c b time = refl
  parse_loop-view (suc fuel) c b time =
      let s = parse_step api c b time in
      ground (arith, parse_step-view c b time, parse_loop-view fuel s.context s.buffer time)

  -- Whatever the buffer's representation, parsing it leaves the same context, end and readable bytes as
  -- parsing the list of its readable bytes.
  pub parse_request-view :
      (c : HttpContext) (b : Buf) (time : ℕ)
      → view_option (parse_request api c b time) ≡ parse_request bytes c (content b) time
  unfolding parse_request
  parse_request-view c b time = parse_loop-view (suc (length (content b))) c b time

-- ===== src/Http/Context.antt =====
-- HttpServer/include/HttpContext.hpp and HttpServer/src/HttpContext.cpp: the state machine that
-- parses the requests of a connection from its buffer.
pub mod Total
pub mod View
pub mod Resume
pub mod Failed
pub mod Pieces
pub mod Message
pub mod Roundtrip
use cyclone_httpserver.Common.{
  ℕ, zero, suc, ◌+◌, Bool, true, false, ◌&&◌, ◌==◌, Option, none, some, if◌then◌else◌, length, take,
  ltb,
}
use cyclone_httpserver.Common.Bytes.{codes, cut, is_empty}
use cyclone_httpserver.Common.Decimal.{stoi, to_u64}
use cyclone_httpserver.Http.Buffer.{BufferApi}
use cyclone_httpserver.Http.Request
use cyclone_httpserver.Http.Request.{
  HttpRequest, new_request, add_header, get_header, set_body, set_content_length, swap,
}
use cyclone_httpserver.Http.Types.{
  HttpMethod, post, put, HttpRequestParseState, expect_request_line, expect_headers, expect_body,
  got_all,
}

pub record HttpContext : Type 0 where
  pub state : HttpRequestParseState
  pub request : HttpRequest

-- The constructor; the argument is what stands in the unset `contentLength_`.
abbrev pub new_context : ℕ → HttpContext
new_context unset = record { state = expect_request_line; request = new_request unset }

abbrev pub is_got_all : HttpRequestParseState → Bool
is_got_all got_all = true
is_got_all _ = false

abbrev pub is_complete : HttpContext → Bool
is_complete c = is_got_all c.state

-- `reset`, whose local `dummyData` takes the old fields away.
unfoldable pub reset : HttpContext → HttpContext
unfolding swap
reset c = record { state = expect_request_line; request = (swap c.request (new_request 0)).0 }

-- How a handler of a state ends: it returns `true`, or `false`, `std::stoi` throws, or an assertion
-- fails and the process with it.
pub data Verdict : Type 0 where
  good bad threw aborted : Verdict

abbrev pub is_good : Verdict → Bool
is_good good = true
is_good _ = false

-- What a handler of a state leaves: the context, the buffer, `hasMore` and its end.
pub record Step (Buf : Type 0) : Type 0 where
  pub context : HttpContext
  pub buffer : Buf
  pub has_more : Bool
  pub verdict : Verdict

abbrev pub needs_request_body : HttpMethod → Bool
needs_request_body post = true
needs_request_body put = true
needs_request_body _ = false

module _ {Buf : Type 0} where
  -- The handler returns, and leaves `hasMore` as it is, or false.
  abbrev pub go_on : HttpContext → Buf → Step Buf
  go_on c b = record { context = c; buffer = b; has_more = true; verdict = good }

  abbrev pub stop : Verdict → HttpContext → Buf → Step Buf
  stop v c b = record { context = c; buffer = b; has_more = false; verdict = v }

  unfoldable pub setup_body_parsing : HttpContext → Buf → Step Buf
  setup_body_parsing c b =
      let text = get_header (codes "Content-Length") c.request in
      if is_empty text then stop bad c b else elim (stoi text) [
        | none ↦ stop threw c b
        | some i ↦
            let r = set_content_length (to_u64 i) c.request in
            if ltb 0 r.content_length
            then go_on (record { state = expect_body; request = r }) b
            else stop good (record { state = got_all; request = r }) b
      ]

  unfoldable pub transition_after_headers : HttpContext → Buf → Step Buf
  transition_after_headers c b =
      if needs_request_body c.request.method
      then setup_body_parsing c b
      else stop good (record c { state = got_all }) b

module _ (api : BufferApi) where
  open api use {Buf, content, find_crlf, retrieve}

  -- The line that ends at the CR LF at `n`: as a request line.
  unfoldable pub take_request_line : HttpContext → Buf → ℕ → ℕ → Step Buf
  take_request_line c b time n = elim (Request.parse_request_line (take n (content b)) c.request) [
    | none ↦ stop aborted c b
    | some (r, ok) ↦
        if ok
        then go_on (record { state = expect_headers; request = record r { recv_time = time } })
            (retrieve (n + 2) b)
        else stop bad (record c { request = r }) b
  ]

  unfoldable pub parse_request_line : HttpContext → Buf → ℕ → Step Buf
  parse_request_line c b time = elim (find_crlf b) [
    | none ↦ stop good c b
    | some n ↦ take_request_line c b time n
  ]

  unfoldable pub process_header_line : HttpContext → Buf → ℕ → Step Buf
  process_header_line c b n = elim (cut b':' (take n (content b))) [
    | some (key, value) ↦
        go_on (record c { request = add_header key value c.request }) (retrieve (n + 2) b)
    | none ↦ if n == 0 then transition_after_headers c (retrieve (n + 2) b) else stop bad c b
  ]

  unfoldable pub parse_headers : HttpContext → Buf → Step Buf
  parse_headers c b = elim (find_crlf b) [
    | none ↦ stop good c b
    | some n ↦ process_header_line c b n
  ]

  unfoldable pub parse_body : HttpContext → Buf → Step Buf
  parse_body c b =
      let n = c.request.content_length in
      if ltb (length (content b)) n
      then stop good c b
      else stop good (record { state = got_all; request = set_body (take n (content b)) c.request })
          (retrieve n b)

  -- One round of the loop of `parseRequest`: the switch on the state.
  unfoldable pub parse_step : HttpContext → Buf → ℕ → Step Buf
  parse_step c b time = elim c.state [
    | expect_request_line ↦ parse_request_line c b time
    | expect_headers ↦ parse_headers c b
    | expect_body ↦ parse_body c b
    | got_all ↦ stop good c b
  ]

  -- `while (hasMore && ok)`; `none` where the fuel runs out.
  unfoldable pub parse_loop : ℕ → HttpContext → Buf → ℕ → Option (Step Buf)
  parse_loop zero c b time = none
  parse_loop (suc fuel) c b time =
      let s = parse_step c b time in
      let rest = parse_loop fuel s.context s.buffer time in
      if s.has_more && is_good s.verdict then rest else some s

  -- `parseRequest`. A round that goes on takes two bytes at least from the buffer.
  unfoldable pub parse_request : HttpContext → Buf → ℕ → Option (Step Buf)
  parse_request c b time = parse_loop (suc (length (content b))) c b time

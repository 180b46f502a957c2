-- ===== src/Http/Context/Total.antt =====
-- The loop of `parseRequest` ends.
use cyclone_httpserver.Common.{
  ℕ, zero, suc, ◌+◌, ◌≤◌, ◌<◌, ◌≡◌, sym, ap, ◌∙◌, inl, inr, Bool, true, false, ◌&&◌, some, length,
  length-drop, arith, Option-cases, Bool-cases,
}
use cyclone_httpserver.Common.Bytes.{line_end-le}
use cyclone_httpserver.Http.Buffer.{BufferApi}
use cyclone_httpserver.Http.Context.{
  HttpContext, Step, is_good, setup_body_parsing, transition_after_headers, take_request_line,
  parse_request_line, process_header_line, parse_headers, parse_body, parse_step, parse_loop,
}

-- The handler asks for another round.
abbrev pub continues : {Buf : Type 0} → Step Buf → Bool
continues s = s.has_more && is_good s.verdict

module _ {Buf : Type 0} where
  setup_body_parsing-buffer : (c : HttpContext) (b : Buf) → (setup_body_parsing c b).buffer ≡ b
  unfolding setup_body_parsing
  setup_body_parsing-buffer c b = ground arith

  transition-buffer : (c : HttpContext) (b : Buf) → (transition_after_headers c b).buffer ≡ b
  unfolding transition_after_headers
  transition-buffer c b = ground (arith, setup_body_parsing-buffer c b)

module _ (api : BufferApi) where
  open api use {Buf, content, find_crlf, retrieve, find_crlf-content, content-retrieve}

  pub find_crlf-le : (b : Buf) {n : ℕ} → find_crlf b ≡ some n → n + 2 ≤ length (content b)
  find_crlf-le b h = line_end-le (content b) (sym (find_crlf-content b) ∙ h)

  length-retrieve :
      (n : ℕ) (b : Buf)
      → n ≤ length (content b)
      → length (content (retrieve n b)) + n ≡ length (content b)
  length-retrieve n b h =
      omega (arith, ap length (content-retrieve n b h), length-drop n (content b))

  abbrev Shrinks : Buf → Step Buf → Type 0
  Shrinks b s = continues s ≡ true → length (content s.buffer) + 2 ≤ length (content b)

  process_header_line-Shrinks :
      (c : HttpContext) (b : Buf) (n : ℕ)
      → n + 2 ≤ length (content b)
      → Shrinks b (process_header_line api c b n)
  unfolding process_header_line
  process_header_line-Shrinks c b n h =
      ground (arith, length-retrieve (n + 2) b h, transition-buffer c (retrieve (n + 2) b))

  take_request_line-Shrinks :
      (c : HttpContext) (b : Buf) (time n : ℕ)
      → n + 2 ≤ length (content b)
      → Shrinks b (take_request_line api c b time n)
  unfolding take_request_line
  take_request_line-Shrinks c b time n h = ground (arith, length-retrieve (n + 2) b h)

  parse_step-Shrinks : (c : HttpContext) (b : Buf) (time : ℕ) → Shrinks b (parse_step api c b time)
  unfolding parse_step parse_request_line parse_headers parse_body
  parse_step-Shrinks c b time = elim (Option-cases (find_crlf b)) [
    | inl e ↦ ground arith
    | inr (n, e) ↦ ground (
      arith,
      find_crlf-le b e,
      process_header_line-Shrinks c b n,
      take_request_line-Shrinks c b time n,
    )
  ]

  -- With more fuel than there are bytes, the loop ends, on a round that asks for no other.
  pub parse_loop_total :
      (fuel : ℕ) (c : HttpContext) (b : Buf) (time : ℕ)
      → length (content b) < fuel
      → (s : Step Buf) × (parse_loop api fuel c b time ≡ some s) × (continues s ≡ false)
  unfolding parse_loop
  parse_loop_total zero c b time h = elim h [ ]
  parse_loop_total (suc fuel) c b time h =
      let s = parse_step api c b time in
      elim (Bool-cases (continues s)) [
        | inl e ↦ rw e (
            parse_loop_total fuel s.context s.buffer time
              (omega (arith, parse_step-Shrinks c b time e)))
        | inr e ↦ (s, rw e, e)
      ]

-- ===== src/Http/Context/Roundtrip/Headers.antt =====
-- The rounds of the loop that read the headers and the body of a printed message.
use cyclone_httpserver.Common.{
  drop-append_self, length-append, ℕ, suc, ◌+◌, ◌≤◌, ◌≡◌, ◌≢◌, refl, ◌∙◌, true, false, List, [],
  ◌∷◌, ◌++◌, some, length, All, All-append, if◌then◌else◌, arith, drop, take-append_self, ltb,
}
use mathlib.Core.List.{reverse-reverse}
use native.Mathlib.Nat.{suc-add}
use cyclone_httpserver.Common.Bytes.{Text, codes, Free, cut_at, line_end_line, is_empty}
use cyclone_httpserver.Common.Decimal.{to_text-ne-nil, stoi-to_text, int_max, to_text}
use cyclone_httpserver.Common.Dict.{assign, lookup}
use cyclone_httpserver.Http.Buffer.{bytes}
use cyclone_httpserver.Http.Request.{HttpRequest, trim, add_header}
use cyclone_httpserver.Http.Types.{expect_request_line, expect_headers, expect_body, got_all}
use cyclone_httpserver.Http.Context.{
  HttpContext, Step, go_on, stop, good, parse_step, parse_loop, parse_headers, process_header_line,
  transition_after_headers, parse_body, setup_body_parsing, needs_request_body,
}
use cyclone_httpserver.Http.Context.Resume.{loop_more, loop_done}
use cyclone_httpserver.Http.Context.Message.{
  IsPlainHeader, IsTrimmed, header_line, print_line, print_headers, set_all, blank,
}

abbrev pub start : Text → ℕ → HttpContext
start left unset = record { state = expect_request_line; request = blank left unset }

abbrev pub in_headers : HttpRequest → HttpContext
in_headers r = record { state = expect_headers; request = r }

pub drop_line : (l z : Text) → drop (length l + 2) (print_line l z) ≡ z
drop_line [] z = refl
drop_line (x ∷ l) z = rw suc-add (drop_line l z)

pub trim_lem : (v : Text) → IsTrimmed v → trim (32 ∷ v) ≡ v
unfolding trim
trim_lem v h = rw (h.0, h.1) (reverse-reverse v)

pub Free-header_line : (h : Text × Text) → IsPlainHeader h → Free 13 (header_line h)
Free-header_line (key, value) (_, k, v, _) =
    All-append (λ x. x ≢ 13) key (b':' ∷ 32 ∷ value) k (omega arith, (omega arith, v))

-- A header line is one round of the loop.
pub header_step :
    (r : HttpRequest) (h : Text × Text) (z : Text) (time : ℕ)
    → IsPlainHeader h
    → parse_step bytes (in_headers r) (print_line (header_line h) z) time
      ≡ go_on (in_headers (record r { headers = assign h.0 h.1 r.headers })) z
unfolding parse_step parse_headers process_header_line add_header
header_step r (key, value) z time h =
    let l = header_line (key, value) in
    ground (
      arith,
      line_end_line l z (Free-header_line (key, value) h),
      take-append_self l (13 ∷ 10 ∷ z),
      drop_line l z,
      cut_at b':' key (32 ∷ value) h.0,
      trim_lem value h.3,
    )

pub headers_loop :
    (hs : List (Text × Text)) (r : HttpRequest) (z : Text) (time f : ℕ) {p : Step Text}
    → All IsPlainHeader hs
    → parse_loop bytes f (in_headers (record r { headers = set_all r.headers hs })) z time ≡ some p
    → (g : ℕ) × (parse_loop bytes g (in_headers r) (print_headers hs z) time ≡ some p)
headers_loop [] r z time f h e = (f, e)
headers_loop (k ∷ hs) r z time f h e =
    let (g, done) =
      headers_loop hs (record r { headers = assign k.0 k.1 r.headers }) z time f h.1 e in
    (
      suc g,
      loop_more g (in_headers r) _ time (header_step r k (print_headers hs z) time h.0) refl ∙ done,
    )

-- The line behind the headers, and the body.
pub blank_step :
    (r : HttpRequest) (z : Text) (time : ℕ)
    → parse_step bytes (in_headers r) (print_line [] z) time
      ≡ transition_after_headers (in_headers r) z
unfolding parse_step parse_headers process_header_line
blank_step r z time = refl

abbrev pub completed : HttpRequest → Text → Step Text
completed r z = stop good (record { state = got_all; request = r }) z

pub body_step :
    (r : HttpRequest) (body z : Text) (time : ℕ)
    → r.content_length ≡ length body
    → parse_step bytes (record { state = expect_body; request = r }) (body ++ z) time
      ≡ completed (record r { content = body }) z
unfolding parse_step parse_body
body_step r body z time h =
    ground (arith, h, length-append body z, take-append_self body z, drop-append_self body z)

abbrev pub in_body : HttpRequest → HttpContext
in_body r = record { state = expect_body; request = r }

-- After the headers of a request with a body: what `Content-Length` says.
pub setup_lem :
    (r : HttpRequest) (n : ℕ) (z : Text)
    → lookup (codes "Content-Length") r.headers ≡ some (to_text n)
    → n ≤ int_max
    → setup_body_parsing (in_headers r) z ≡ (
        if ltb 0 n
        then go_on (in_body (record r { content_length = n })) z
        else completed (record r { content_length = n }) z)
unfolding setup_body_parsing
setup_lem r n z h le = ground (arith, stoi-to_text n le, to_text-ne-nil n)

pub transition_body :
    (r : HttpRequest) (z : Text)
    → needs_request_body r.method ≡ true
    → transition_after_headers (in_headers r) z ≡ setup_body_parsing (in_headers r) z
unfolding transition_after_headers
transition_body r z h = rw h

pub transition_end :
    (r : HttpRequest) (z : Text)
    → needs_request_body r.method ≡ false
    → transition_after_headers (in_headers r) z ≡ completed r z
unfolding transition_after_headers
transition_end r z h = rw h

pub ltb-suc : (n : ℕ) (a b : Step Text) → (if ltb 0 (suc n) then a else b) ≡ a
ltb-suc n a b = ground arith

-- The rest of the headers' text for a request with a body.
pub body_loop :
    (r : HttpRequest) (body z : Text) (time : ℕ)
    → needs_request_body r.method ≡ true
    → lookup (codes "Content-Length") r.headers ≡ some (to_text (length body))
    → length body ≤ int_max
    → parse_loop bytes 2 (in_headers r) (print_line [] (body ++ z)) time
      ≡ some (
          completed
            (record r {
              content = if is_empty body then r.content else body;
              content_length = length body;
            })
            z)
body_loop r [] z time needs h le =
    loop_done 1 (in_headers r) (print_line [] z) time
      (blank_step r z time ∙ transition_body r z needs ∙ setup_lem r 0 z h le) refl
body_loop r (x ∷ body) z time needs h le =
    let n = length (x ∷ body) in
    let c = in_body (record r { content_length = n }) in
    loop_more 1 (in_headers r) (print_line [] (x ∷ body ++ z)) time {q = go_on c (x ∷ body ++ z)}
      (blank_step r (x ∷ body ++ z) time
        ∙ transition_body r _ needs
        ∙ setup_lem r n _ h le
        ∙ ltb-suc (length body) _ _)
      refl
    ∙ loop_done 0 c (x ∷ body ++ z) time (body_step c.request (x ∷ body) z time refl) refl

-- ===== src/Server/Crash.antt =====
-- A malformed request line, and the assertion of `setMethod`.
use cyclone_httpserver.Common.{
  zero, Option-cases, inl, inr, ℕ, suc, true, false, ◌≡◌, refl, sym, ap, ◌∙◌, none, some, List, [],
  ◌∷◌, arith, length, take, take-append_le,
}
use cyclone_httpserver.Common.Bytes.{Text, cut, line_end, line_end_append, line_end-le}
use cyclone_httpserver.Http.Buffer.{BufferApi}
use cyclone_httpserver.Http.Context.{
  HttpContext, Step, stop, bad, aborted, parse_step, parse_loop, parse_request, parse_request_line,
  take_request_line,
}
use cyclone_httpserver.Http.Context.Total.{continues}
use cyclone_httpserver.Http.Request
use cyclone_httpserver.Http.Request.{
  HttpRequest, set_method, method_of, parse_target, parse_query_param, parse_query_loop,
  parse_query_params, set_target, set_version,
}
use cyclone_httpserver.Http.Response.{HttpResponse}
use cyclone_httpserver.Http.Types.{is_invalid, expect_request_line}
use cyclone_httpserver.Middleware.{Middleware}
use cyclone_httpserver.Server.{
  Routed, bad_request, served, crashed, Connection, answer, finish_message, on_message,
}

-- The line has a method that is known, and then no target with a version that is known.
pub record IsBadLine (l : Text) : Type 0 where
  pub name : Text
  pub behind : Text
  pub parts : cut b' ' l ≡ some (name, behind)
  pub known : is_invalid (method_of name) ≡ false
  pub wrong : (r : HttpRequest) → (parse_target behind r).1 ≡ false

bad_parse :
    (l : Text) (r : HttpRequest) (h : IsBadLine l)
    → is_invalid r.method ≡ true
    → Request.parse_request_line l r
      ≡ some ((parse_target h.behind (record r { method = method_of h.name })).0, false)
unfolding Request.parse_request_line set_method
bad_parse l r h i =
    ground (arith, h.parts, h.known, h.wrong (record r { method = method_of h.name }))

-- The target and the version leave the method alone.
parse_query_param-method : (s : Text) (r : HttpRequest) → (parse_query_param s r).method ≡ r.method
unfolding parse_query_param
parse_query_param-method s r = ground arith

parse_query_loop-method :
    (fuel : ℕ) (s : Text) (r : HttpRequest) → (parse_query_loop fuel s r).method ≡ r.method
unfolding parse_query_loop
parse_query_loop-method zero s r = refl
parse_query_loop-method (suc fuel) [] r = refl
parse_query_loop-method (suc fuel) (x ∷ s) r = elim (Option-cases (cut b'&' (x ∷ s))) [
  | inl e ↦ rw (e, parse_query_loop) (parse_query_param-method (x ∷ s) r)
  | inr ((piece, rest), e) ↦
      rw (e, parse_query_loop)
        (parse_query_loop-method fuel rest (parse_query_param piece r)
          ∙ parse_query_param-method piece r)
]

set_target-method : (s : Text) (r : HttpRequest) → (set_target s r).method ≡ r.method
unfolding set_target parse_query_params
set_target-method s r = elim (Option-cases (cut b'?' s)) [
  | inl e ↦ rw (e, set_target)
  | inr ((path, query), e) ↦
      rw (e, set_target) (parse_query_loop-method (length query) query (record r { path = path }))
]

parse_target-method : (s : Text) (r : HttpRequest) → (parse_target s r).0.method ≡ r.method
unfolding parse_target set_version
parse_target-method s r = elim (Option-cases (cut b' ' s)) [
  | inl e ↦ rw (e, parse_target)
  | inr ((target, version), e) ↦ rw (e, parse_target) (set_target-method target r)
]

again_parse :
    (l : Text) (r : HttpRequest)
    → IsBadLine l
    → is_invalid r.method ≡ false
    → Request.parse_request_line l r ≡ none
unfolding Request.parse_request_line set_method
again_parse l r h i = ground (arith, h.parts)

-- A context that waits for a request line.
abbrev pub at_line : HttpRequest → HttpContext
at_line r = record { state = expect_request_line; request = r }

module _ (api : BufferApi) where
  open api use {Buf, content, find_crlf, append, find_crlf-content, content-append}

  once :
      (c : HttpContext) (b : Buf) (time : ℕ) {s : Step Buf}
      → parse_step api c b time ≡ s
      → continues s ≡ false
      → parse_request api c b time ≡ some s
  unfolding parse_request parse_loop
  once c b time e h = ground arith

  -- One request line, taken from a buffer.
  line_step :
      (r : HttpRequest) (b : Buf) (time n : ℕ)
      → find_crlf b ≡ some n
      → parse_step api (record { state = expect_request_line; request = r }) b time
        ≡ take_request_line api (record { state = expect_request_line; request = r }) b time n
  unfolding parse_step parse_request_line
  line_step r b time n e = rw (e, parse_request_line)

  abbrev after_line : {l : Text} → IsBadLine l → HttpRequest → HttpRequest
  after_line h r = (parse_target h.behind (record r { method = method_of h.name })).0

  bad_step :
      (r : HttpRequest) (b : Buf) (time n : ℕ) (h : IsBadLine (take n (content b)))
      → find_crlf b ≡ some n
      → is_invalid r.method ≡ true
      → parse_step api (at_line r) b time ≡ stop bad (at_line (after_line h r)) b
  unfolding take_request_line
  bad_step r b time n h e i =
      line_step r b time n e ∙ rw (bad_parse (take n (content b)) r h i, take_request_line)

  again_step :
      (r : HttpRequest) (b : Buf) (time n : ℕ)
      → IsBadLine (take n (content b))
      → find_crlf b ≡ some n
      → is_invalid r.method ≡ false
      → parse_step api (at_line r) b time ≡ stop aborted (at_line r) b
  unfolding take_request_line
  again_step r b time n h e i =
      line_step r b time n e ∙ rw (again_parse (take n (content b)) r h i, take_request_line)

  -- The line still stands in the buffer when more bytes have come.
  find_crlf-append :
      (b : Buf) (y : Text) {n : ℕ}
      → find_crlf b ≡ some n
      → (find_crlf (append y b) ≡ some n) × (take n (content (append y b)) ≡ take n (content b))
  find_crlf-append b y {n} e =
      let f : line_end (content b) ≡ some n = sym (find_crlf-content b) ∙ e in
      (
        find_crlf-content (append y b) ∙ rw (content-append y b) (line_end_append (content b) y f),
        rw (content-append y b)
            (take-append_le n (content b) y (omega (arith, line_end-le (content b) f))),
      )

module _ {W : Type 0} (route : W → HttpRequest → HttpResponse → W × Routed)
    (chain : List (Middleware W)) (api : BufferApi) (conn : Connection) where
  open api use {Buf, content, find_crlf, append}

  -- On a connection that has no request begun, the first line of the buffer has a method that is known and
  -- then no target and version, or an unknown version: onMessage answers 400 and asks for a
  -- shutdown, but leaves the line in the buffer and its method in the context. When any more bytes
  -- come, onMessage parses the line again, and the assertion of setMethod fails, which ends the process.
  pub on_message_crashes :
      (w : W) (r : HttpRequest) (b : Buf) (time n : ℕ)
      → is_invalid r.method ≡ true
      → find_crlf b ≡ some n
      → IsBadLine (take n (content b))
      → (c : HttpContext) × (on_message route chain api conn w (at_line r) b time
          ≡ some (served w c b bad_request))
        × ((w' : W) (y : Text) (time' : ℕ)
            → on_message route chain api conn w' c (append y b) time' ≡ some crashed)
  unfolding on_message answer finish_message
  on_message_crashes w r b time n i e h =
      let m : is_invalid (after_line api h r).method ≡ false =
        ap is_invalid (parse_target-method h.behind (record r { method = method_of h.name }))
        ∙ h.known in
      (
        at_line (after_line api h r),
        rw (once api (at_line r) b time (bad_step api r b time n h e i) refl, on_message),
        λ w' y time'.
            let (f, same) = find_crlf-append api b y e in
            rw (
              once api (at_line (after_line api h r)) (append y b) time'
                  (again_step api (after_line api h r) (append y b) time' n (rw same h) f m) refl,
              on_message,
            ),
      )

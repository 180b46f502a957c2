-- ===== src/Http/Context/Failed.antt =====
-- Parsing with more bytes behind those that were there, after a failure and without one.
use cyclone_httpserver.Common.{
  ℕ, zero, suc, ◌+◌, ◌≡◌, refl, sym, ap, ◌∙◌, inl, inr, true, false, ◌++◌, some, length, arith,
  Bool-cases,
}
use mathlib.Core.Option.{some-injective}
use cyclone_httpserver.Common.Bytes.{Text}
use cyclone_httpserver.Http.Buffer.{bytes}
use cyclone_httpserver.Http.Context.{
  HttpContext, Step, is_good, parse_step, parse_loop, parse_request,
}
use cyclone_httpserver.Http.Context.Total.{continues, parse_loop_total}
use cyclone_httpserver.Http.Context.Resume.{
  push, loop_more, loop_done, parse_step-push, parse_loop_mono, parse_loop_resume,
}

-- A loop that ended badly would have so with more bytes in the buffer.
parse_loop_failed :
    (f : ℕ) (c : HttpContext) (x y : Text) (time : ℕ) {o : Step Text}
    → parse_loop bytes f c x time ≡ some o
    → is_good o.verdict ≡ false
    → parse_loop bytes f c (x ++ y) time ≡ some (push y o)
parse_loop_failed zero c x y time e v = absurd (unfold parse_loop in cc)
parse_loop_failed (suc f) c x y time {o} e v =
    let s = parse_step bytes c x time in
    elim (Bool-cases (continues s)) [
      | inl more ↦ elim (parse_step-push c x y time) [
        | inl waits ↦ absurd (cc)
        | inr (pushed, ends) ↦
            loop_more f c (x ++ y) time pushed more
            ∙ parse_loop_failed f s.context s.buffer y time
                (sym (loop_more f c x time refl more) ∙ e) v
      ]
      | inr done ↦
          let same : s ≡ o = some-injective s o (sym (loop_done f c x time refl done) ∙ e) in
          elim (parse_step-push c x y time) [
            | inl waits ↦ absurd (cc)
            | inr (pushed, ends) ↦
                loop_done f c (x ++ y) time (pushed ∙ ap (push y) same)
                  (ap continues (sym same) ∙ done)
          ]
    ]

pub parse_request_total_bytes :
    (c : HttpContext) (x : Text) (time : ℕ)
    → (s : Step Text) × (parse_request bytes c x time ≡ some s)
unfolding parse_request
parse_request_total_bytes c x time =
    let (s, e, _) = parse_loop_total bytes (suc (length x)) c x time (omega arith) in (s, e)

-- Any fuel that gives a result gives the result of `parseRequest`.
pub parse_request_of_loop :
    (f : ℕ) (c : HttpContext) (x : Text) (time : ℕ) {p : Step Text}
    → parse_loop bytes f c x time ≡ some p
    → parse_request bytes c x time ≡ some p
unfolding parse_request
parse_request_of_loop f c x time e =
    let (s, r, _) = parse_loop_total bytes (suc (length x)) c x time (omega arith) in
    let g = suc (length x) in
    r
    ∙ sym (parse_loop_mono g (f + g) c x time r (omega arith))
    ∙ parse_loop_mono f (f + g) c x time e (omega arith)

pub parse_request-resume :
    (c : HttpContext) (x y : Text) (time : ℕ) {o : Step Text}
    → parse_request bytes c x time ≡ some o
    → is_good o.verdict ≡ true
    → parse_request bytes c (x ++ y) time ≡ parse_request bytes o.context (o.buffer ++ y) time
unfolding parse_request
parse_request-resume c x y time {o} e v =
    let (p, r, _) =
      parse_loop_total bytes (suc (length (o.buffer ++ y))) o.context (o.buffer ++ y) time
        (omega arith) in
    let f = suc (length x) in
    let g = suc (length (o.buffer ++ y)) in
    parse_request_of_loop (f + g) c (x ++ y) time
      (parse_loop_resume f g (f + g) c x y time e v r (omega arith))
    ∙ sym r

pub parse_request-failed :
    (c : HttpContext) (x y : Text) (time : ℕ) {o : Step Text}
    → parse_request bytes c x time ≡ some o
    → is_good o.verdict ≡ false
    → parse_request bytes c (x ++ y) time ≡ some (push y o)
unfolding parse_request
parse_request-failed c x y time e v =
    parse_request_of_loop (suc (length x)) c (x ++ y) time
      (parse_loop_failed (suc (length x)) c x y time e v)

-- ===== src/Http/Context/Resume.antt =====
-- A request that arrives in pieces: parsing goes on where it stopped.
use cyclone_httpserver.Common.{
  ◌≡◌, ◌⊎◌, true, false, ◌++◌, arith, ℕ, Option-cases, ◌+◌, length-append, inl, inr, take-append_le,
  ◌≤◌, length, drop-append_le, drop, some, suc, Bool-cases, zero, ◌∙◌, sym, ap,
}
use cyclone_httpserver.Common.Bytes.{Text, line_end, line_end_append, line_end-le}
use cyclone_httpserver.Http.Types.{got_all}
use cyclone_httpserver.Http.Context.{
  HttpContext, Step, good, is_good, stop, setup_body_parsing, transition_after_headers, parse_step,
  parse_body, take_request_line, process_header_line, parse_request_line, parse_headers, parse_loop,
}
use cyclone_httpserver.Http.Context.Total.{continues}
use mathlib.Core.Option.{some-injective}
use cyclone_httpserver.Common.{refl}
use cyclone_httpserver.Http.Buffer.{bytes}

-- The same step, with more bytes behind what it leaves in the buffer.
abbrev pub push : Text → Step Text → Step Text
push y s = record s { buffer = s.buffer ++ y }

-- A step goes on, fails, or completes the request.
abbrev pub Ends : Step Text → Type 0
Ends s =
    (continues s ≡ true)
    ⊎ ((is_good s.verdict ≡ false)
        ⊎ ((s ≡ stop good s.context s.buffer) × (s.context.state ≡ got_all)))

setup-push :
    (c : HttpContext) (x y : Text)
    → (setup_body_parsing c (x ++ y) ≡ push y (setup_body_parsing c x))
      × Ends (setup_body_parsing c x)
unfolding setup_body_parsing
setup-push c x y = ground arith

transition-push :
    (c : HttpContext) (x y : Text)
    → (transition_after_headers c (x ++ y) ≡ push y (transition_after_headers c x))
      × Ends (transition_after_headers c x)
unfolding transition_after_headers
transition-push c x y = ground (arith, setup-push c x y)

process_header_line-push :
    (c : HttpContext) (x y : Text) (n : ℕ)
    → n + 2 ≤ length x
    → (process_header_line bytes c (x ++ y) n ≡ push y (process_header_line bytes c x n))
      × Ends (process_header_line bytes c x n)
unfolding process_header_line
process_header_line-push c x y n h = ground (
  arith,
  take-append_le n x y,
  drop-append_le (n + 2) x y h,
  transition-push c (drop (n + 2) x) y,
)

take_request_line-push :
    (c : HttpContext) (x y : Text) (time n : ℕ)
    → n + 2 ≤ length x
    → (take_request_line bytes c (x ++ y) time n ≡ push y (take_request_line bytes c x time n))
      × Ends (take_request_line bytes c x time n)
unfolding take_request_line
take_request_line-push c x y time n h =
    ground (arith, take-append_le n x y, drop-append_le (n + 2) x y h)

-- The step waits for more bytes, or more bytes make no difference to it.
abbrev pub StepsOn : HttpContext → Text → Text → ℕ → Type 0
StepsOn c x y time =
    (parse_step bytes c x time ≡ stop good c x)
    ⊎ ((parse_step bytes c (x ++ y) time ≡ push y (parse_step bytes c x time))
        × Ends (parse_step bytes c x time))

parse_body-push :
    (c : HttpContext) (x y : Text)
    → (parse_body bytes c x ≡ stop good c x)
      ⊎ ((parse_body bytes c (x ++ y) ≡ push y (parse_body bytes c x))
          × Ends (parse_body bytes c x))
unfolding parse_body
parse_body-push c x y = ground (
  arith,
  length-append x y,
  take-append_le c.request.content_length x y,
  drop-append_le c.request.content_length x y,
)

pub parse_step-push : (c : HttpContext) (x y : Text) (time : ℕ) → StepsOn c x y time
unfolding parse_step parse_request_line parse_headers
parse_step-push c x y time = elim (Option-cases (line_end x)) [
  | inl e ↦ ground (arith, parse_body-push c x y)
  | inr (n, e) ↦ ground (
    arith,
    parse_body-push c x y,
    line_end_append x y e,
    line_end-le x e,
    process_header_line-push c x y n,
    take_request_line-push c x y time n,
  )
]

-- One round of the loop, from what the step is known to be.
pub loop_more :
    (f : ℕ) (c : HttpContext) (x : Text) (time : ℕ) {q : Step Text}
    → parse_step bytes c x time ≡ q
    → continues q ≡ true
    → parse_loop bytes (suc f) c x time ≡ parse_loop bytes f q.context q.buffer time
unfolding parse_loop
loop_more f c x time e h = ground arith

pub loop_done :
    (f : ℕ) (c : HttpContext) (x : Text) (time : ℕ) {q : Step Text}
    → parse_step bytes c x time ≡ q
    → continues q ≡ false
    → parse_loop bytes (suc f) c x time ≡ some q
unfolding parse_loop
loop_done f c x time e h = ground arith

loop_got_all :
    (f : ℕ) (c : HttpContext) (x : Text) (time : ℕ) {p : Step Text}
    → c.state ≡ got_all
    → parse_loop bytes f c x time ≡ some p
    → p ≡ stop good c x
unfolding parse_loop parse_step
loop_got_all zero c x time h e = ground arith
loop_got_all (suc f) c x time h e = ground arith

pub parse_loop_mono :
    (f g : ℕ) (c : HttpContext) (x : Text) (time : ℕ) {o : Step Text}
    → parse_loop bytes f c x time ≡ some o
    → f ≤ g
    → parse_loop bytes g c x time ≡ some o
parse_loop_mono zero g c x time e h = absurd (unfold parse_loop in cc)
parse_loop_mono (suc f) zero c x time e h = absurd (omega arith)
parse_loop_mono (suc f) (suc g) c x time e h =
    let s = parse_step bytes c x time in
    elim (Bool-cases (continues s)) [
      | inl more ↦
          loop_more g c x time refl more
          ∙ parse_loop_mono f g s.context s.buffer time (sym (loop_more f c x time refl more) ∙ e)
              (omega arith)
      | inr done ↦ loop_done g c x time refl done ∙ sym (loop_done f c x time refl done) ∙ e
    ]

-- The last round of the first loop: it waited, or it had completed the request.
resume_done :
    (g h : ℕ) (c : HttpContext) (x y : Text) (time : ℕ) {s p : Step Text}
    → parse_step bytes c x time ≡ s
    → continues s ≡ false
    → is_good s.verdict ≡ true
    → parse_loop bytes g s.context (s.buffer ++ y) time ≡ some p
    → g ≤ suc h
    → parse_loop bytes (suc h) c (x ++ y) time ≡ some p
resume_done g h c x y time {s} {p} e done v k le = elim (parse_step-push c x y time) [
  | inl waits ↦
      let w : s ≡ stop good c x = sym e ∙ waits in
      parse_loop_mono g (suc h) c (x ++ y) time (rw w at k) le
  | inr (pushed, inl more) ↦ absurd (cc)
  | inr (pushed, inr (inl failed)) ↦ absurd (cc)
  | inr (pushed, inr (inr (stopped, got))) ↦
      loop_done h c (x ++ y) time (pushed ∙ ap (push y) e) done
      ∙ ap some (
          ap (push y) (sym e ∙ stopped ∙ ap (λ q. stop good q.context q.buffer) e)
          ∙ sym (
              loop_got_all g s.context (s.buffer ++ y) time
                (ap (λ q. q.context.state) (sym e) ∙ got) k))
]

-- A loop that ended well goes on from where it stopped as it would have from the start.
pub parse_loop_resume :
    (f g h : ℕ) (c : HttpContext) (x y : Text) (time : ℕ) {o p : Step Text}
    → parse_loop bytes f c x time ≡ some o
    → is_good o.verdict ≡ true
    → parse_loop bytes g o.context (o.buffer ++ y) time ≡ some p
    → f + g ≤ h
    → parse_loop bytes h c (x ++ y) time ≡ some p
parse_loop_resume zero g h c x y time e v k le = absurd (unfold parse_loop in cc)
parse_loop_resume (suc f) g zero c x y time e v k le = absurd (omega arith)
parse_loop_resume (suc f) g (suc h) c x y time {o} {p} e v k le =
    let s = parse_step bytes c x time in
    elim (Bool-cases (continues s)) [
      | inl more ↦ elim (parse_step-push c x y time) [
        | inl waits ↦ absurd (cc)
        | inr (pushed, ends) ↦
            loop_more h c (x ++ y) time pushed more
            ∙ parse_loop_resume f g h s.context s.buffer y time
                (sym (loop_more f c x time refl more) ∙ e) v k (omega arith)
      ]
      | inr done ↦
          let same : s ≡ o = some-injective s o (sym (loop_done f c x time refl done) ∙ e) in
          resume_done g h c x y time same (ap continues (sym same) ∙ done) v k (omega arith)
    ]

-- ===== src/Http/Context/Pieces.antt =====
-- Requests that arrive in any number of pieces.
use cyclone_httpserver.Common.{
  ℕ, suc, ◌≡◌, refl, sym, ap, ◌∙◌, inl, inr, true, false, ◌++◌, Option, none, some, length, arith,
  Option-cases, Bool-cases, List, [], ◌∷◌,
}
use mathlib.Core.List.{append-nil, append_assoc}
use mathlib.Core.Option.{some-injective}
use cyclone_httpserver.Common.Bytes.{Text}
use cyclone_httpserver.Http.Buffer.{BufferApi, bytes}
use cyclone_httpserver.Http.Context.{HttpContext, Step, is_good, parse_request}
use cyclone_httpserver.Http.Context.View.{view_option, parse_request-view}
use cyclone_httpserver.Http.Context.Total.{continues, parse_loop_total}
use cyclone_httpserver.Http.Context.Resume.{push}
use cyclone_httpserver.Http.Context.Failed.{
  parse_request_total_bytes, parse_request-resume, parse_request-failed,
}

abbrev pub joined : List Text → Text
joined [] = []
joined (y ∷ ys) = y ++ joined ys

module _ (api : BufferApi) where
  open api use {Buf, content, append, content-append}

  -- The pieces come one by one: each is put behind what is left in the buffer, and parsed, whatever
  -- the end of the parse before.
  pub feed : HttpContext → Buf → List Text → ℕ → Option (Step Buf)
  feed c b [] time = parse_request api c b time
  feed c b (y ∷ ys) time = elim (parse_request api c b time) [
    | none ↦ none
    | some s ↦ feed s.context (append y s.buffer) ys time
  ]

-- Where the parse of what is there does not fail, the rest is as with all of it at once.
resume_pieces :
    (c : HttpContext) (x y : Text) (ys : List Text) (time : ℕ) (s : Step Text) {o : Step Text}
    → parse_request bytes c x time ≡ some s
    → is_good s.verdict ≡ true
    → parse_request bytes c (x ++ joined (y ∷ ys)) time ≡ some o
    → parse_request bytes s.context ((s.buffer ++ y) ++ joined ys) time ≡ some o
resume_pieces c x y ys time s e well h =
    ap (λ z. parse_request bytes s.context z time) (append_assoc s.buffer y (joined ys))
    ∙ sym (parse_request-resume c x (y ++ joined ys) time e well)
    ∙ h

failed_pieces :
    (c : HttpContext) (x y : Text) (ys : List Text) (time : ℕ) (s o : Step Text)
    → parse_request bytes c x time ≡ some s
    → is_good s.verdict ≡ false
    → parse_request bytes c (x ++ joined (y ∷ ys)) time ≡ some o
    → push (joined (y ∷ ys)) s ≡ o
failed_pieces c x y ys time s o e failed h =
    some-injective _ o (sym (parse_request-failed c x (y ++ joined ys) time e failed) ∙ h)

feed-good :
    (c : HttpContext) (x : Text) (ys : List Text) (time : ℕ) (o : Step Text)
    → parse_request bytes c (x ++ joined ys) time ≡ some o
    → is_good o.verdict ≡ true
    → feed bytes c x ys time ≡ some o
unfolding feed
feed-good c x [] time o h v = ap (λ z. parse_request bytes c z time) (sym (append-nil x)) ∙ h
feed-good c x (y ∷ ys) time o h v =
    let (s, e) = parse_request_total_bytes c x time in
    elim (Bool-cases (is_good s.verdict)) [
      | inl well ↦
          rw (e, feed)
            (feed-good s.context (s.buffer ++ y) ys time o (resume_pieces c x y ys time s e well h)
              v)
      | inr failed ↦
          let z : is_good s.verdict ≡ is_good o.verdict =
            ap (λ r. is_good r.verdict) (failed_pieces c x y ys time s o e failed h) in
          absurd (cc)
    ]

-- Some of the pieces, up to the one behind which the parse fails, and the others.
record FailsBehind (c : HttpContext) (x : Text) (ys : List Text) (time : ℕ) (o : Step Text)
    : Type 0 where
  first : List Text
  others : List Text
  here : Step Text
  split : ys ≡ first ++ others
  fed : feed bytes c x first time ≡ some here
  unread : push (joined others) here ≡ o

feed-FailsBehind :
    (c : HttpContext) (x : Text) (ys : List Text) (time : ℕ) (o : Step Text)
    → parse_request bytes c (x ++ joined ys) time ≡ some o
    → is_good o.verdict ≡ false
    → FailsBehind c x ys time o
unfolding feed
feed-FailsBehind c x [] time o h v = record {
  first = [];
  others = [];
  here = o;
  split = refl;
  fed = ap (λ z. parse_request bytes c z time) (sym (append-nil x)) ∙ h;
  unread = rw (append-nil o.buffer) refl;
}
feed-FailsBehind c x (y ∷ ys) time o h v =
    let (s, e) = parse_request_total_bytes c x time in
    elim (Bool-cases (is_good s.verdict)) [
      | inl well ↦
          let f : FailsBehind s.context (s.buffer ++ y) ys time o =
            feed-FailsBehind s.context (s.buffer ++ y) ys time o
              (resume_pieces c x y ys time s e well h) v in
          record {
            first = y ∷ f.first;
            others = f.others;
            here = f.here;
            split = ap (λ zs. y ∷ zs) f.split;
            fed = rw (e, feed) f.fed;
            unread = f.unread;
          }
      | inr failed ↦ record {
        first = [];
        others = y ∷ ys;
        here = s;
        split = refl;
        fed = e;
        unread = failed_pieces c x y ys time s o e failed h;
      }
    ]

module _ (api : BufferApi) where
  open api use {Buf, content, append, content-append}

  feed-view :
      (c : HttpContext) (b : Buf) (ys : List Text) (time : ℕ)
      → view_option api (feed api c b ys time) ≡ feed bytes c (content b) ys time
  unfolding feed
  feed-view c b [] time = parse_request-view api c b time
  feed-view c b (y ∷ ys) time = elim (Option-cases (parse_request api c b time)) [
    | inl e ↦ ground (arith, parse_request-view api c b time)
    | inr (s, e) ↦ ground (
      arith,
      parse_request-view api c b time,
      content-append y s.buffer,
      feed-view s.context (append y s.buffer) ys time,
    )
  ]

  -- However the bytes that follow those of the buffer are cut into pieces, where each is parsed as it arrives
  -- and all arrive at one receive time: if the parse of all the bytes at once does not fail, the parse
  -- of the last piece ends with the same context, the same verdict and the same unread bytes; if it
  -- fails, then the parse of some piece fails with the same context and the same verdict, and with
  -- what it leaves unread the pieces behind it are the bytes that the parse of all leaves unread.
  pub feed-parse_request :
      (c : HttpContext) (b : Buf) (ys : List Text) (time : ℕ) (o : Step Text)
      → view_option api (parse_request api c (append (joined ys) b) time) ≡ some o
      → (is_good o.verdict ≡ true → view_option api (feed api c b ys time) ≡ some o)
        × (is_good o.verdict ≡ false
            → (first : List Text) × (others : List Text) × (here : Step Text) × (ys
                ≡ first ++ others)
              × (view_option api (feed api c b first time) ≡ some here)
              × (push (joined others) here ≡ o))
  feed-parse_request c b ys time o h =
      let z : parse_request bytes c (content b ++ joined ys) time ≡ some o =
        ap (λ x. parse_request bytes c x time) (sym (content-append (joined ys) b))
        ∙ sym (parse_request-view api c (append (joined ys) b) time)
        ∙ h in
      (
        λ v. feed-view c b ys time ∙ feed-good c (content b) ys time o z v,
        λ v.
            let f : FailsBehind c (content b) ys time o =
              feed-FailsBehind c (content b) ys time o z v in
            (f.first, f.others, f.here, f.split, feed-view c b f.first time ∙ f.fed, f.unread),
      )

  -- Whatever the context and the buffer, parsing ends, and the last round is one that asks for no
  -- other: it waits for more bytes, has failed, or has the whole request.
  pub parse_request_total :
      (c : HttpContext) (b : Buf) (time : ℕ)
      → (s : Step Buf) × (parse_request api c b time ≡ some s) × (continues s ≡ false)
  unfolding parse_request
  parse_request_total c b time =
      parse_loop_total api (suc (length (content b))) c b time (omega arith)

-- ===== src/Middleware/Chain.antt =====
-- The order in which the chain calls its middlewares.
use cyclone_httpserver.Common.{
  none, some, List, [], ◌∷◌, ◌≡◌, refl, arith, ap, sym, ◌∙◌, ◌++◌, reverse, Option, Option-cases,
  ◌⊎◌, inl, inr,
}
use mathlib.Core.Path.{subst}
use mathlib.Core.List.{append_assoc, reverse-cons, reverse-reverse}
use cyclone_httpserver.Http.Request.{HttpRequest}
use cyclone_httpserver.Http.Response.{HttpResponse}
use cyclone_httpserver.Middleware.{
  Thrown, response, exception, Before, passed, refused, Filled, Middleware, add_middleware,
  process_before, after_loop, catch_exception, process_after,
}

module _ {W : Type 0} where
  -- What runs on the request that is passed.
  abbrev pub then_before : W × Before → (W → HttpRequest → W × Before) → W × Before
  then_before (w, passed req) next = next w req
  then_before (w, refused t) next = (w, refused t)

  -- A middleware that is added last sees the request last, after all of the chain, and only if none of
  -- them threw.
  pub process_before-add_middleware :
      (m : Middleware W) (ms : List (Middleware W)) (w : W) (req : HttpRequest)
      → process_before (add_middleware m ms) w req ≡ then_before (process_before ms w req) m.before
  unfolding process_before
  process_before-add_middleware m [] w req = ground arith
  process_before-add_middleware m (k ∷ ms) w req =
      go (k.before w req).1 (process_before-add_middleware m ms (k.before w req).0)
    where
      go :
          (end : Before)
          → ((r : HttpRequest)
              → process_before (add_middleware m ms) (k.before w req).0 r
                ≡ then_before (process_before ms (k.before w req).0 r) m.before)
          → elim end [
            | passed r ↦ process_before (add_middleware m ms) (k.before w req).0 r
            | refused t ↦ ((k.before w req).0, refused t)
          ]
            ≡ then_before
                (elim end [
                  | passed r ↦ process_before ms (k.before w req).0 r
                  | refused t ↦ ((k.before w req).0, refused t)
                ])
                m.before
      go (passed r) ih = ih r
      go (refused t) ih = refl

-- Each middleware of a chain, from the last to the first, sees the response, and none throws; the states and
-- the responses are those before and after.
pub data Shown {W : Type 0}
    : List (Middleware W) → W → HttpResponse → W → HttpResponse → Type 0 where
  to_none : {w : W} {resp : HttpResponse} → Shown [] w resp w resp
  to_last :
      {ms : List (Middleware W)} {w w' : W} {resp resp' : HttpResponse} (m : Middleware W)
      → (m.after w resp).1.thrown ≡ none
      → Shown ms (m.after w resp).0 (m.after w resp).1.result w' resp'
      → Shown (ms ++ m ∷ []) w resp w' resp'

-- What of an exception leaves the chain: a thrown response, and no `std::exception`.
abbrev pub leaving : Thrown → Option Thrown
leaving (response r) = some (response r)
leaving (exception what) = none

catch_exception-leaving :
    (r : HttpResponse) (t : Thrown)
    → catch_exception (record { result = r; thrown = some t })
      ≡ record { result = r; thrown = leaving t }
catch_exception-leaving r (response u) = refl
catch_exception-leaving r (exception what) = refl

catch_thrown :
    (end : Filled) (t : Thrown)
    → end.thrown ≡ some t
    → catch_exception end ≡ record { result = end.result; thrown = leaving t }
catch_thrown end t h =
    ap (λ u. catch_exception (record { result = end.result; thrown = u })) h
    ∙ catch_exception-leaving end.result t

module _ {W : Type 0} where
  -- A middleware of the chain that throws, after all behind it have seen the response.
  pub record Stopped (ms : List (Middleware W)) (w : W) (resp : HttpResponse) (w' : W)
      (end : Filled) : Type 0 where
    pub first : List (Middleware W)
    pub thrower : Middleware W
    pub others : List (Middleware W)
    pub at : W
    pub seen : HttpResponse
    pub what : Thrown
    pub split : ms ≡ first ++ thrower ∷ others
    pub shown : Shown others w resp at seen
    pub throws : (thrower.after at seen).1.thrown ≡ some what
    pub state : (thrower.after at seen).0 ≡ w'
    pub response_after : (thrower.after at seen).1.result ≡ end.result
    pub thrown_on : end.thrown ≡ leaving what

  -- All see the response and nothing is thrown, or one throws.
  abbrev pub Ended : List (Middleware W) → W → HttpResponse → W → Filled → Type 0
  Ended ms w resp w' end =
      (Shown ms w resp w' end.result × (end.thrown ≡ none)) ⊎ Stopped ms w resp w' end

  Ended-append :
      (ms : List (Middleware W)) (m : Middleware W) (w w' : W) (resp : HttpResponse) (end : Filled)
      → (m.after w resp).1.thrown ≡ none
      → Ended ms (m.after w resp).0 (m.after w resp).1.result w' end
      → Ended (ms ++ m ∷ []) w resp w' end
  Ended-append ms m w w' resp end quiet (inl (shown, none_thrown)) =
      inl (to_last m quiet shown, none_thrown)
  Ended-append ms m w w' resp end quiet (inr s) = inr (record {
    first = s.first;
    thrower = s.thrower;
    others = s.others ++ m ∷ [];
    at = s.at;
    seen = s.seen;
    what = s.what;
    split = ap (λ ks. ks ++ m ∷ []) s.split ∙ append_assoc s.first (s.thrower ∷ s.others) (m ∷ []);
    shown = to_last m quiet s.shown;
    throws = s.throws;
    state = s.state;
    response_after = s.response_after;
    thrown_on = s.thrown_on;
  })

  after_loop_quiet :
      (m : Middleware W) (ls : List (Middleware W)) (w : W) (resp : HttpResponse)
      → (m.after w resp).1.thrown ≡ none
      → after_loop (m ∷ ls) w resp ≡ after_loop ls (m.after w resp).0 (m.after w resp).1.result
  unfolding after_loop
  after_loop_quiet m ls w resp h = rw (h, after_loop) refl

  after_loop_thrown :
      (m : Middleware W) (ls : List (Middleware W)) (w : W) (resp : HttpResponse) {t : Thrown}
      → (m.after w resp).1.thrown ≡ some t
      → after_loop (m ∷ ls) w resp ≡ m.after w resp
  unfolding after_loop
  after_loop_thrown m ls w resp h =
      rw (h, after_loop)
        (ap (λ u. ((m.after w resp).0, record { result = (m.after w resp).1.result; thrown = u }))
          h)

  abbrev EndsAs : List (Middleware W) → W → HttpResponse → W × Filled → Type 0
  EndsAs ms w resp r = Ended ms w resp r.0 (catch_exception r.1)

  after_loop_cases :
      (ls : List (Middleware W)) (w : W) (resp : HttpResponse)
      → EndsAs (reverse ls) w resp (after_loop ls w resp)
  after_loop_cases [] w resp = unfold after_loop in inl (to_none, refl)
  after_loop_cases (m ∷ ls) w resp =
      subst (λ ks. EndsAs ks w resp (after_loop (m ∷ ls) w resp)) (sym (reverse-cons m ls))
        (elim (Option-cases (m.after w resp).1.thrown) [
          | inl quiet ↦
              subst (EndsAs (reverse ls ++ m ∷ []) w resp)
                (sym (after_loop_quiet m ls w resp quiet))
                (Ended-append (reverse ls) m w _ resp _ quiet
                  (after_loop_cases ls (m.after w resp).0 (m.after w resp).1.result))
          | inr (t, thrown) ↦
              let caught : _ = catch_thrown (m.after w resp).1 t thrown in
              subst (EndsAs (reverse ls ++ m ∷ []) w resp)
                (sym (after_loop_thrown m ls w resp thrown))
                (inr (record {
                  first = reverse ls;
                  thrower = m;
                  others = [];
                  at = w;
                  seen = resp;
                  what = t;
                  split = refl;
                  shown = to_none;
                  throws = thrown;
                  state = refl;
                  response_after = ap (λ e. e.result) (sym caught);
                  thrown_on = ap (λ e. e.thrown) caught;
                }))
        ])

  -- The middlewares of a chain see the response from the last that was added to the first, each in the state and
  -- with the response that the one before it left. If none throws, the end is that of the first, and
  -- nothing is thrown. The first one that throws ends the chain, and its state and response are the
  -- end: a thrown response goes on to the caller, a std::exception does not.
  pub process_after_cases :
      (ms : List (Middleware W)) (w : W) (resp : HttpResponse)
      → Ended ms w resp (process_after ms w resp).0 (process_after ms w resp).1
  unfolding process_after
  process_after_cases ms w resp =
      subst
        (λ ks.
          Ended ks w resp (after_loop (reverse ms) w resp).0
            (catch_exception (after_loop (reverse ms) w resp).1))
        (reverse-reverse ms) (after_loop_cases (reverse ms) w resp)

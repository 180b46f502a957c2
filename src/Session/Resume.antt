-- ===== src/Session/Resume.antt =====
-- A session across requests: what getSession leaves, and how the cookie finds it again.
use cyclone_httpserver.Common.{
  ℕ, ◌+◌, ◌*◌, ◌≤◌, ◌<◌, ◌≡◌, refl, ap, ◌∙◌, inl, inr, true, false, Option, some, [], ◌∷◌, arith,
  Option-cases, Bool-cases,
}
use mathlib.Core.Path.{subst}
use cyclone_httpserver.Common.Bytes.{Text, codes, is_empty, Free, text_eq_refl}
use cyclone_httpserver.Common.Dict.{lookup, lookup-assign}
use cyclone_httpserver.Http.Request.{HttpRequest, get_header}
use cyclone_httpserver.Http.Response.{HttpResponse}
use cyclone_httpserver.Session.{
  new_session, is_expired, set_manager, refresh, Manager, write, save, load,
  get_session_id_from_cookie, generate_session_id, create_session, find_session, get_session,
}
use cyclone_httpserver.Session.Laws.{
  generate_session_id_lem, IsConsistent, new-IsConsistent, write-IsConsistent, save-IsConsistent,
  load-IsConsistent, load-some,
}
use cyclone_httpserver.Session.Cookie.{
  cookie-Free, hex-Free, cookie_of, get_session_id_from_cookie-cookie_of,
}

-- What a pointer that getSession finds or makes satisfies.
record IsFound {R : Type 0} (m : Manager R) (p : ℕ) : Type 0 where
  consistent : IsConsistent m
  used : p < m.next
  free : Free b';' (m.heap p).session_id
  managed : (m.heap p).has_manager ≡ true

module _ {R : Type 0} where
  -- What getSession leaves: the storage has the session under its identifier, with the expiry time
  -- that refresh sets and the manager set, and the storage is consistent.
  pub record IsReady (m : Manager R) (p now : ℕ) : Type 0 where
    pub consistent : IsConsistent m
    pub stored : lookup (m.heap p).session_id m.sessions ≡ some p
    pub free : Free b';' (m.heap p).session_id
    pub managed : (m.heap p).has_manager ≡ true
    pub fresh : (m.heap p).expiry_time ≡ now + (m.heap p).max_age * 1_000_000_000

module _ {R : Type 0} (draw : R → ℕ × R) (draw_le : (g : R) → (draw g).0 ≤ 15) where
  create_session-IsFound :
      (resp : Option HttpResponse) (m : Manager R)
      → IsConsistent m
      → IsFound (create_session draw resp m).0 (create_session draw resp m).1
  unfolding create_session
  create_session-IsFound resp m h =
      let (id, g) = generate_session_id draw m.rng in
      record {
        consistent = new-IsConsistent (new_session id) g m h;
        used = omega arith;
        free = ground (arith, hex-Free id (generate_session_id_lem draw draw_le m.rng).1);
        managed = ground arith;
      }

  old-IsFound :
      (id : Text) (p : ℕ) (m : Manager R)
      → Free b';' id
      → IsConsistent m
      → lookup id m.sessions ≡ some p
      → IsFound (write p (set_manager (m.heap p)) m) p
  old-IsFound id p m f h e = record {
    consistent = write-IsConsistent p (set_manager (m.heap p)) m refl h;
    used = h.used id p e;
    free = ground (arith, h.named id p e, f);
    managed = ground arith;
  }

  find_session-IsFound :
      (now now' : ℕ) (cookie : Text) (resp : Option HttpResponse) (m : Manager R)
      → IsConsistent m
      → IsFound
          (find_session draw now now' cookie resp m).0
          (find_session draw now now' cookie resp m).1
  unfolding find_session
  find_session-IsFound now now' [] resp m h = create_session-IsFound resp m h
  find_session-IsFound now now' (x ∷ s) resp m h =
      let id = get_session_id_from_cookie (x ∷ s) in
      let k = load-IsConsistent now id m h in
      elim (Option-cases (load now id m).1) [
        | inl e ↦ rw (e, find_session) (create_session-IsFound resp _ k)
        | inr (p, e) ↦
            let (same, found) = load-some now id m e in
            elim (Bool-cases (is_expired now' ((load now id m).0.heap p))) [
              | inl x' ↦ rw (e, find_session, x') (create_session-IsFound resp _ k)
              | inr x' ↦
                  rw (e, find_session, x')
                    (old-IsFound id p _ (cookie-Free (x ∷ s)) k (rw same found))
            ]
      ]

  save-IsReady :
      (now p : ℕ) (m : Manager R)
      → IsFound m p
      → IsReady (save p (write p (refresh now (m.heap p)) m)) p now
  unfolding save refresh
  save-IsReady now p m h =
      let r = refresh now (m.heap p) in
      record {
        consistent =
            unfold save in
            save-IsConsistent p (write p r m) h.used (write-IsConsistent p r m refl h.consistent);
        stored = ground (
          arith,
          lookup-assign (m.heap p).session_id (m.heap p).session_id p m.sessions,
          text_eq_refl (m.heap p).session_id,
        );
        free = ground (arith, h.free);
        managed = ground (arith, h.managed);
        fresh = ground arith;
      }

  -- Where the random numbers are from 0 to 15 and the storage is consistent, getSession leaves a
  -- consistent storage that has the session it returns under its identifier, a text without a
  -- semicolon, with the manager set and an expiry time of its maximal age after the last clock time.
  pub get_session-IsReady :
      (now now' now'' : ℕ) (req : HttpRequest) (resp : Option HttpResponse) (m : Manager R)
      → IsConsistent m
      → IsReady
          (get_session draw now now' now'' req resp m).0
          (get_session draw now now' now'' req resp m).1
          now''
  unfolding get_session
  get_session-IsReady now now' now'' req resp m h =
      let c = get_header (codes "Cookie") req in
      save-IsReady now'' (find_session draw now now' c resp m).1
        (find_session draw now now' c resp m).0 (find_session-IsFound now now' c resp m h)

  load-found :
      (now p : ℕ) (id : Text) (m : Manager R)
      → lookup id m.sessions ≡ some p
      → is_expired now (m.heap p) ≡ false
      → load now id m ≡ (m, some p)
  unfolding load
  load-found now p id m e x = rw (e, load, x) refl

  find_again :
      (now now' p : ℕ) (cookie : Text) (resp : Option HttpResponse) (m : Manager R)
      → is_empty cookie ≡ false
      → lookup (get_session_id_from_cookie cookie) m.sessions ≡ some p
      → is_expired now (m.heap p) ≡ false
      → is_expired now' (m.heap p) ≡ false
      → find_session draw now now' cookie resp m ≡ (write p (set_manager (m.heap p)) m, p, resp)
  unfolding find_session
  find_again now now' p [] resp m n e x x' = ground arith
  find_again now now' p (c ∷ s) resp m n e x x' =
      let l = load-found now p (get_session_id_from_cookie (c ∷ s)) m e x in
      rw (ap (λ r. r.1) l, find_session) (rw (ap (λ r. r.0) l) (rw x' refl))

  -- A visitor comes back: where the random numbers are from 0 to 15 and the storage is consistent,
  -- getSession leaves a pointer, to a session it found or made. A later request that sends the
  -- cookie of this session, before its expiry time, gets the same pointer, and its response gets no
  -- new cookie.
  pub get_session-get_session :
      (now now' now'' later later' later'' : ℕ) (req req' : HttpRequest)
      (resp out resp' : Option HttpResponse) (m m' : Manager R) (p : ℕ)
      → IsConsistent m
      → get_session draw now now' now'' req resp m ≡ (m', p, out)
      → get_header (codes "Cookie") req' ≡ cookie_of (m'.heap p).session_id
      → later ≤ (m'.heap p).expiry_time
      → later' ≤ (m'.heap p).expiry_time
      → ((get_session draw later later' later'' req' resp' m').1 ≡ p)
        × ((get_session draw later later' later'' req' resp' m').2 ≡ resp')
  unfolding get_session is_expired
  get_session-get_session now now' now'' later later' later'' req req' resp out resp' m m' p h e c l
        l' =
      let ready : IsReady m' p now'' =
        subst (λ r. IsReady r.0 r.1 now'') e (get_session-IsReady now now' now'' req resp m h) in
      let id = (m'.heap p).session_id in
      let f =
        find_again later later' p (cookie_of id) resp' m' refl
          (ap (λ k. lookup k m'.sessions) (get_session_id_from_cookie-cookie_of id [] ready.free).0
            ∙ ready.stored)
          (ground arith) (ground arith) in
      rw (c, get_session) (rw f (refl, refl))

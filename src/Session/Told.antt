-- ===== src/Session/Told.antt =====
-- What a response is told of its session, and the end of a session.
use cyclone_httpserver.Common.{
  ℕ, ◌≡◌, refl, ap, ◌⊎◌, inl, inr, Option, none, some, [], ◌∷◌, arith, Option-cases, Bool-cases,
}
use mathlib.Core.Path.{subst}
use cyclone_httpserver.Common.Bytes.{Text, codes, text_eq_refl}
use cyclone_httpserver.Common.Dict.{lookup, erase, lookup-erase}
use cyclone_httpserver.Http.Request.{HttpRequest, get_header}
use cyclone_httpserver.Http.Response.{HttpResponse}
use cyclone_httpserver.Session.{
  is_expired, refresh, Manager, save, load, get_session_id_from_cookie, set_session_cookie,
  create_session, find_session, get_session, destroy_session,
}
use cyclone_httpserver.Session.Laws.{IsConsistent, load-some}

module _ {R : Type 0} (draw : R → ℕ × R) where
  -- The session that a request gets, and what its response is told: it is an old one, or it is new
  -- and the response's cookie names it.
  abbrev IsTold : Manager R → HttpResponse → Manager R × ℕ × Option HttpResponse → Type 0
  IsTold m r (m', p, out) =
      ((out ≡ some r) × (lookup (m'.heap p).session_id m.sessions ≡ some p))
      ⊎ ((out ≡ some (set_session_cookie (m'.heap p).session_id r)) × (p ≡ m.next))

  create_session-IsTold :
      (r : HttpResponse) (m m' : Manager R)
      → m'.next ≡ m.next
      → IsTold m r (create_session draw (some r) m')
  unfolding create_session
  create_session-IsTold r m m' e = inr (ground arith, e)

  load-next : (now : ℕ) (id : Text) (m : Manager R) → (load now id m).0.next ≡ m.next
  unfolding load
  load-next now id m = ground arith

  find_session-IsTold :
      (now now' : ℕ) (cookie : Text) (r : HttpResponse) (m : Manager R)
      → IsConsistent m
      → IsTold m r (find_session draw now now' cookie (some r) m)
  unfolding find_session
  find_session-IsTold now now' [] r m h = create_session-IsTold r m m refl
  find_session-IsTold now now' (x ∷ s) r m h =
      let id = get_session_id_from_cookie (x ∷ s) in
      let k = load-next now id m in
      elim (Option-cases (load now id m).1) [
        | inl e ↦ rw (e, find_session) (create_session-IsTold r m _ k)
        | inr (p, e) ↦
            let (same, found) = load-some now id m e in
            elim (Bool-cases (is_expired now' ((load now id m).0.heap p))) [
              | inl x' ↦ rw (e, find_session, x') (create_session-IsTold r m _ k)
              | inr x' ↦
                  rw (e, find_session, x')
                    (rw same (inl (refl, ground (arith, h.named id p found, found))))
            ]
      ]

  kept :
      (now now' now'' : ℕ) (req : HttpRequest) (r : HttpResponse) (m : Manager R)
      → IsConsistent m
      → IsTold m r (get_session draw now now' now'' req (some r) m)
  unfolding get_session save refresh
  kept now now' now'' req r m h =
      elim (find_session-IsTold now now' (get_header (codes "Cookie") req) r m h) [
        | inl (a, b) ↦ inl (a, ground (arith, b))
        | inr (a, b) ↦ inr (ground (arith, a), b)
      ]

  -- What getSession tells the response, over a consistent storage: either the session stood in the
  -- storage under its identifier, and the response is unchanged; or the session is a new one, and
  -- the response gets the cookie with its identifier.
  pub get_session-IsTold :
      (now now' now'' : ℕ) (req : HttpRequest) (r : HttpResponse) (m m' : Manager R) (p : ℕ)
      (out : Option HttpResponse)
      → IsConsistent m
      → get_session draw now now' now'' req (some r) m ≡ (m', p, out)
      → ((out ≡ some r) × (lookup (m'.heap p).session_id m.sessions ≡ some p))
        ⊎ ((out ≡ some (set_session_cookie (m'.heap p).session_id r)) × (p ≡ m.next))
  get_session-IsTold now now' now'' req r m m' p out h e =
      subst (IsTold m r) e (kept now now' now'' req r m h)

  create_session-next :
      (resp : Option HttpResponse) (m : Manager R) → (create_session draw resp m).1 ≡ m.next
  unfolding create_session
  create_session-next resp m = refl

  load-destroyed :
      (now : ℕ) (id : Text) (m : Manager R)
      → load now id (destroy_session id m) ≡ (destroy_session id m, none)
  unfolding load destroy_session
  load-destroyed now id m =
      let gone : lookup id (erase id m.sessions) ≡ none =
        ground (arith, lookup-erase id id m.sessions, text_eq_refl id) in
      rw (gone, load) refl

  find_destroyed :
      (now now' : ℕ) (cookie : Text) (resp : Option HttpResponse) (m : Manager R)
      → (find_session draw now now' cookie resp
          (destroy_session (get_session_id_from_cookie cookie) m)).1
        ≡ m.next
  unfolding find_session get_session_id_from_cookie destroy_session
  find_destroyed now now' [] resp m = create_session-next resp (destroy_session [] m)
  find_destroyed now now' (x ∷ s) resp m =
      let l = load-destroyed now (get_session_id_from_cookie (x ∷ s)) m in
      rw (ap (λ r. r.1) l, find_session)
        (rw (ap (λ r. r.0) l) (create_session-next resp (destroy_session _ m)))

  -- A destroyed session is not found again: a request that names it gets a new session, at a
  -- pointer that was not in use.
  pub get_session-destroy_session :
      (now now' now'' : ℕ) (id : Text) (req : HttpRequest) (resp : Option HttpResponse)
      (m : Manager R)
      → get_session_id_from_cookie (get_header (codes "Cookie") req) ≡ id
      → (get_session draw now now' now'' req resp (destroy_session id m)).1 ≡ m.next
  unfolding get_session destroy_session
  get_session-destroy_session now now' now'' id req resp m e =
      subst
        (λ k.
          (find_session draw now now' (get_header (codes "Cookie") req) resp
            (destroy_session k m)).1
          ≡ m.next)
        e (find_destroyed now now' (get_header (codes "Cookie") req) resp m)

-- ===== src/Session/Cookie.antt =====
-- HttpServer/src/SessionManager.cpp: the session cookie, written and read back.
use cyclone_httpserver.Common.{
  ℕ, ◌≡◌, inl, inr, true, some, [], ◌∷◌, ◌++◌, arith, All, Option-cases,
}
use cyclone_httpserver.Common.Bytes.{
  Text, codes, Free, cut, cut_at, cut-Free-none, Free-cut-none, until, find_behind,
}
use cyclone_httpserver.Session.{get_session_id_from_cookie}
use cyclone_httpserver.Session.Laws.{is_hex}

cut-Free : (c : ℕ) (s : Text) {front rest : Text} → cut c s ≡ some (front, rest) → Free c front
cut-Free c [] h = ground arith
cut-Free c (x ∷ s) h = elim (Option-cases (cut c s)) [
  | inl e ↦ ground arith
  | inr ((f, r), e) ↦ ground (arith, cut-Free c s e)
]

until-Free : (c : ℕ) (s : Text) → Free c (until c s)
until-Free c s = elim (Option-cases (cut c s)) [
  | inl e ↦ rw (e, until) (Free-cut-none c s e)
  | inr ((f, r), e) ↦ rw (e, until) (cut-Free c s e)
]

-- What the code reads in a cookie holds no semicolon.
pub cookie-Free : (cookie : Text) → Free b';' (get_session_id_from_cookie cookie)
unfolding get_session_id_from_cookie
cookie-Free [] = tt
cookie-Free (x ∷ s) = elim (Option-cases (find_behind (codes "sessionId=") (x ∷ s))) [
  | inl e ↦ rw (e, get_session_id_from_cookie) tt
  | inr (r, e) ↦ rw (e, get_session_id_from_cookie) (until-Free b';' r)
]

pub hex-Free : (s : Text) → All (λ c. is_hex c ≡ true) s → Free b';' s
hex-Free [] h = tt
hex-Free (x ∷ s) h = ground (arith, hex-Free s h.1)

-- The value of the cookie that setSessionCookie sets, up to its attributes.
abbrev pub cookie_of : Text → Text
cookie_of id = codes "sessionId=" ++ id

-- A cookie that names an identifier without a semicolon is read back as this identifier, whether
-- the cookie ends behind it or goes on with a semicolon, as in the value that setSessionCookie
-- sends.
pub get_session_id_from_cookie-cookie_of :
    (id attributes : Text)
    → Free b';' id
    → (get_session_id_from_cookie (cookie_of id) ≡ id)
      × (get_session_id_from_cookie (cookie_of id ++ b';' ∷ attributes) ≡ id)
unfolding get_session_id_from_cookie
get_session_id_from_cookie-cookie_of id attributes h =
    (rw (cut-Free-none b';' id h, until), rw (cut_at b';' id attributes h, until))

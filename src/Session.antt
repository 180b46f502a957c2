-- ===== src/Session.antt =====
-- HttpServer/include/Session.hpp, SessionStorage.hpp, SessionManager.hpp and HttpServer/src/Session.cpp,
-- SessionManager.cpp. Sessions are shared by pointers, so they stand on a heap: a pointer is a
-- number, and the storage maps an identifier to a pointer. A time is a number of nanoseconds, and
-- is an argument where the code reads the clock; the random numbers come from `draw`, which is the
-- `uniform_int_distribution` of the manager over the state `R` of its generator.
pub mod Laws
pub mod Cookie
pub mod Resume
pub mod Told
pub mod Tests
use cyclone_httpserver.Common.{
  ℕ, zero, suc, ◌+◌, ◌-◌, ◌*◌, Bool, true, false, Option, none, some, List, [], ◌∷◌, ◌++◌,
  if◌then◌else◌, ltb, ◌==◌,
}
use cyclone_httpserver.Common.Bytes.{Text, codes, is_empty, find_behind, until}
use cyclone_httpserver.Common.Dict.{Dict, lookup, assign, erase, get_or}
use cyclone_httpserver.Http.Request.{HttpRequest, get_header}
use cyclone_httpserver.Http.Response.{HttpResponse, add_header}

pub record Session : Type 0 where
  pub session_id : Text
  -- `data_`.
  pub values : Dict Text
  pub expiry_time : ℕ
  -- In seconds.
  pub max_age : ℕ
  -- Whether `sessionManager_` is set; there is one manager.
  pub has_manager : Bool

-- `std::make_shared<Session>(sessionId, this)`: the expiry time is the clock's epoch.
abbrev pub new_session : Text → Session
new_session id = record {
  session_id = id;
  values = [];
  expiry_time = 0;
  max_age = 3600;
  has_manager = true;
}

unfoldable pub is_expired : ℕ → Session → Bool
is_expired now s = ltb s.expiry_time now

abbrev pub set_manager : Session → Session
set_manager s = record s { has_manager = true }

unfoldable pub refresh : ℕ → Session → Session
refresh now s = record s { expiry_time = now + s.max_age * 1_000_000_000 }

abbrev pub get_value : Text → Session → Text
get_value key s = get_or (lookup key s.values) []

-- The manager: the heap of the sessions, the storage, and the generator.
pub record Manager (R : Type 0) : Type 0 where
  pub heap : ℕ → Session
  -- No pointer from here on is in use.
  pub next : ℕ
  -- `sessions_` of the `MemorySessionStorage`.
  pub sessions : Dict ℕ
  pub rng : R

module _ {R : Type 0} where
  abbrev pub write : ℕ → Session → Manager R → Manager R
  write p s m = record m { heap = λ q. if p == q then s else m.heap q }

  -- `save`.
  unfoldable pub save : ℕ → Manager R → Manager R
  save p m = record m { sessions = assign (m.heap p).session_id p m.sessions }

  -- `load`, at the time `now`; an expired session is taken out.
  unfoldable pub load : ℕ → Text → Manager R → Manager R × Option ℕ
  load now id m = elim (lookup id m.sessions) [
    | none ↦ (m, none)
    | some p ↦
        if is_expired now (m.heap p)
        then (record m { sessions = erase id m.sessions }, none)
        else (m, some p)
  ]

  -- `remove` of the storage, and `destroySession`.
  unfoldable pub destroy_session : Text → Manager R → Manager R
  destroy_session id m = record m { sessions = erase id m.sessions }

  -- `Session::setValue`, which saves the session with its manager.
  unfoldable pub set_value : ℕ → Text → Text → Manager R → Manager R
  set_value p key value m =
      let s = m.heap p in
      let m' = write p (record s { values = assign key value s.values }) m in
      if s.has_manager then save p m' else m'

  -- `Session::remove` and `Session::clear`, which do not.
  unfoldable pub remove_value : ℕ → Text → Manager R → Manager R
  remove_value p key m = let s = m.heap p in write p (record s { values = erase key s.values }) m

  unfoldable pub clear : ℕ → Manager R → Manager R
  clear p m = let s = m.heap p in write p (record s { values = [] }) m

-- `getSessionIdFromCookie`.
unfoldable pub get_session_id_from_cookie : Text → Text
get_session_id_from_cookie cookie =
    if is_empty cookie
    then []
    else elim (find_behind (codes "sessionId=") cookie) [ none ↦ [] | some rest ↦ until b';' rest ]

-- `setSessionCookie`.
unfoldable pub set_session_cookie : Text → HttpResponse → HttpResponse
set_session_cookie id resp =
    add_header (codes "Set-Cookie") (codes "sessionId=" ++ (id ++ codes "; Path=/; HttpOnly")) resp

abbrev pub hex_digit : ℕ → ℕ
hex_digit d = if ltb d 10 then b'0' + d else b'a' + (d - 10)

module _ {R : Type 0} (draw : R → ℕ × R) where
  -- The loop of `generateSessionId`, with the rounds left and the text so far.
  unfoldable pub generate_loop : ℕ → Text → R → Text × R
  generate_loop zero ss rng = (ss, rng)
  generate_loop (suc i) ss rng =
      let (d, rng') = draw rng in generate_loop i (ss ++ hex_digit d ∷ []) rng'

  unfoldable pub generate_session_id : R → Text × R
  unfolding generate_loop
  generate_session_id rng = generate_loop 32 [] rng

  -- A new session: its pointer, and the response with its cookie, if there is a response.
  unfoldable pub create_session :
      Option HttpResponse → Manager R → Manager R × ℕ × Option HttpResponse
  create_session resp m =
      let (id, rng') = generate_session_id m.rng in
      let m' = write m.next (new_session id) (record m { next = m.next + 1; rng = rng' }) in
      (m', m.next, elim resp [ none ↦ none | some r ↦ some (set_session_cookie id r) ])

  -- The session that the cookie names, or a new one; the clock is read by `load` and then again.
  unfoldable pub find_session :
      ℕ → ℕ → Text → Option HttpResponse → Manager R → Manager R × ℕ × Option HttpResponse
  find_session now now' cookie resp m =
      if is_empty cookie
      then create_session resp m
      else (let (m', found) = load now (get_session_id_from_cookie cookie) m in
          elim found [
            | none ↦ create_session resp m'
            | some p ↦
                if is_expired now' (m'.heap p)
                then create_session resp m'
                else (write p (set_manager (m'.heap p)) m', p, resp)
          ])

  -- `getSession`; the clock is read three times at most.
  unfoldable pub get_session :
      ℕ
      → ℕ
      → ℕ
      → HttpRequest
      → Option HttpResponse
      → Manager R
      → Manager R × ℕ × Option HttpResponse
  get_session now now' now'' req resp m =
      let (m', p, resp') = find_session now now' (get_header (codes "Cookie") req) resp m in
      (save p (write p (refresh now'' (m'.heap p)) m'), p, resp')

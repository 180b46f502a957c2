-- ===== src/Session/Tests.antt =====
-- A concrete manager and the visits to it.
use cyclone_httpserver.Common.{
  ℕ, ◌+◌, ◌≡◌, ◌⊎◌, ◌≤◌, refl, [], ◌∷◌, some, arith, Option, ap, ◌%◌, sym,
}
use cyclone_httpserver.Common.Bytes.{Text, codes}
use cyclone_httpserver.Common.Dict.{lookup}
use cyclone_httpserver.Http.Request.{HttpRequest, new_request}
use cyclone_httpserver.Http.Response.{HttpResponse}
use cyclone_httpserver.Http.Tests.{ok_response}
use cyclone_httpserver.Session.{
  new_session, Manager, get_session, set_session_cookie, generate_session_id, find_session,
  generate_loop, create_session, save, refresh,
}
use cyclone_httpserver.Session.Cookie.{cookie_of}
use cyclone_httpserver.Session.Laws.{IsConsistent}
use cyclone_httpserver.Session.Resume.{IsReady, get_session-IsReady, get_session-get_session}
use cyclone_httpserver.Session.Told.{get_session-IsTold}

-- A generator that draws the remainders of a count.
abbrev draw : ℕ → ℕ × ℕ
draw g = (g % 16, g + 1)

draw_le : (g : ℕ) → (draw g).0 ≤ 15
draw_le g = omega arith

abbrev fresh : Manager ℕ
fresh = record { heap = λ p. new_session []; next = 0; sessions = []; rng = 0 }

fresh-IsConsistent : IsConsistent fresh
fresh-IsConsistent = record { named = λ id p e. ground arith; used = λ id p e. ground arith }

abbrev id : Text
id = codes "0123456789abcdef0123456789abcdef"

-- The visitor's first request and the next one.
abbrev first : HttpRequest
first = new_request 0

abbrev second : HttpRequest
second = record (new_request 0) { headers = (codes "Cookie", cookie_of id) ∷ [] }

generate_session_id_test : (generate_session_id draw 0).0 ≡ id
unfolding generate_session_id generate_loop
generate_session_id_test = refl

abbrev visited : Manager ℕ × ℕ × Option HttpResponse
visited = get_session draw 1 2 3 first (some ok_response) fresh

get_session-IsReady_example : IsReady visited.0 visited.1 3
get_session-IsReady_example =
    get_session-IsReady draw draw_le 1 2 3 first (some ok_response) fresh fresh-IsConsistent

visited_id : (visited.0.heap visited.1).session_id ≡ id
unfolding get_session find_session create_session generate_session_id generate_loop save refresh
visited_id = refl

visited_expiry : (visited.0.heap visited.1).expiry_time ≡ 3_600_000_000_003
unfolding get_session find_session create_session save refresh
visited_expiry = refl

get_session-get_session_example :
    ((get_session draw 50 51 52 second (some ok_response) visited.0).1 ≡ visited.1)
    × ((get_session draw 50 51 52 second (some ok_response) visited.0).2 ≡ some ok_response)
get_session-get_session_example =
    get_session-get_session draw draw_le 1 2 3 50 51 52 first second (some ok_response) visited.2
      (some ok_response) fresh visited.0 visited.1 fresh-IsConsistent refl
      (ap cookie_of (sym visited_id)) (omega (arith, visited_expiry))
      (omega (arith, visited_expiry))

get_session-IsTold_example :
    ((visited.2 ≡ some ok_response)
      × (lookup (visited.0.heap visited.1).session_id fresh.sessions ≡ some visited.1))
    ⊎ ((visited.2 ≡ some (set_session_cookie (visited.0.heap visited.1).session_id ok_response))
        × (visited.1 ≡ fresh.next))
get_session-IsTold_example =
    get_session-IsTold draw 1 2 3 first ok_response fresh visited.0 visited.1 visited.2
      fresh-IsConsistent refl

visited-IsReady : IsReady visited.0 visited.1 3
visited-IsReady =
    get_session-IsReady draw draw_le 1 2 3 first (some ok_response) fresh fresh-IsConsistent

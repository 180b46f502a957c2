-- ===== src/Chat/Server.antt =====
-- AIApps/ChatServer/src/ChatServer.cpp with include/ChatServer.h: what the handlers share. They run one
-- after the other here, each on the server's state and on its response.
use cyclone_httpserver.Common.{
  ℕ, Bool, true, false, Option, none, some, List, [], ◌∷◌, ◌++◌, if◌then◌else◌, ◌==◌, length,
}
use cyclone_httpserver.Common.Bytes.{Text, codes, text_eq, is_empty}
use cyclone_httpserver.Common.Decimal.{ℤ, pos, negsuc, stoi}
use cyclone_httpserver.Common.Dict.{Dict, get_or}
use cyclone_httpserver.Http.Types.{HttpStatusCode}
use cyclone_httpserver.Http.Request.{HttpRequest, get_header}
use cyclone_httpserver.Http.Response.{
  HttpResponse, set_status_line, set_close_connection, set_content_type, set_content_length,
  set_body,
}
use cyclone_httpserver.Session.{Manager, get_session, get_value, set_value}
use cyclone_httpserver.Chat.{
  Outcome, returned, threw, Act, pure, throw, lift, JsonApi, Outside, ◌>>=◌, ◌>>◌,
}
use cyclone_httpserver.Chat.Helper.{AiHelper}
pub mod Login
pub mod Send
pub mod Unserved
pub mod Online
pub mod Logout

abbrev pub int_eq : ℤ → ℤ → Bool
int_eq (pos m) (pos n) = m == n
int_eq (negsuc m) (negsuc n) = m == n
int_eq (pos m) (negsuc n) = false
int_eq (negsuc m) (pos n) = false

-- An `std::unordered_map<int, V>`.
abbrev pub IntMap : Type 0 → Type 0
IntMap V = List (ℤ × V)

module _ {V : Type 0} where
  abbrev pub find : ℤ → IntMap V → Option V
  find k [] = none
  find k ((j, v) ∷ m) = if int_eq j k then some v else find k m

  abbrev pub put : ℤ → V → IntMap V → IntMap V
  put k v [] = (k, v) ∷ []
  put k v ((j, w) ∷ m) = if int_eq j k then (j, v) ∷ m else (j, w) ∷ put k v m

  abbrev pub remove : ℤ → IntMap V → IntMap V
  remove k [] = []
  remove k ((j, w) ∷ m) = if int_eq j k then m else (j, w) ∷ remove k m

-- The members of the ChatServer that the handlers use, the counter of the MQManager, and the world.
pub record ChatServer (Json R W : Type 0) : Type 0 where
  pub manager : Manager R
  pub online_users : IntMap Bool
  pub chat_information : IntMap (Dict (AiHelper Json))
  pub session_ids_map : IntMap (List Text)
  pub counter : ℕ
  pub world : W

-- A call of a handler: the server, and the response that it fills in.
pub record Handling (Json R W : Type 0) : Type 0 where
  pub server : ChatServer Json R W
  pub response : HttpResponse

abbrev pub Call : Type 0 → Type 0 → Type 0 → Type 0 → Type 0
Call Json R W A = Act (Handling Json R W) A

abbrev pub json_type : Text
json_type = codes "application/json"

-- The times that `getSession` reads.
abbrev pub Times : Type 0
Times = ℕ × ℕ × ℕ

-- Whether the body of a login or a logout may be JSON; if not, the handlers answer with no body.
abbrev pub is_json_request : HttpRequest → Bool
is_json_request req =
    if is_empty req.content
    then false
    else text_eq (get_header (codes "Content-Type") req) json_type

abbrev pub int_or_throw : Option ℤ → Outcome ℤ
int_or_throw none = threw (codes "stoi")
int_or_throw (some i) = returned i

abbrev pub error_body : (api : JsonApi) → Text → api.Json
error_body api message =
    api.object
      ((codes "status", api.string (codes "error")) ∷ (codes "message", api.string message) ∷ [])

module _ (api : JsonApi) {R W : Type 0} (draw : R → ℕ × R) where
  open api use {Json, string, object, dump_indented}

  abbrev set_response : HttpResponse → Call Json R W (Unit {0})
  set_response r h = (returned tt, record h { response = r })

  -- The calls of setters with which the handlers end, and `packageResp`.
  unfoldable pub respond :
      HttpRequest → HttpStatusCode → Text → Bool → Text → Text → Call Json R W (Unit {0})
  respond req status message close content_type body h = (
    returned tt,
    record h {
      response = set_body body (
          set_content_length (length body) (
            set_content_type content_type (
              set_close_connection close (set_status_line req.version status message h.response))));
    },
  )

  -- An answer that tells of an error.
  unfoldable pub respond_error :
      HttpRequest → HttpStatusCode → Text → Bool → Text → Call Json R W (Unit {0})
  respond_error req status status_text close message = do
    body ← lift (dump_indented (error_body api message))
    respond req status status_text close json_type body

  -- The `catch` block of the handlers.
  unfoldable pub refuse : HttpRequest → Text → Call Json R W (Unit {0})
  refuse req what = respond_error req HttpStatusCode.bad_request (codes "Bad Request") true what

  unfoldable pub unauthorized : HttpRequest → Call Json R W (Unit {0})
  unauthorized req =
      respond_error req HttpStatusCode.unauthorized (codes "Unauthorized") true
        (codes "Unauthorized")

  -- `getSession` of the server's manager, with the response.
  unfoldable pub session_of : Times → HttpRequest → Call Json R W ℕ
  session_of (now, now', now'') req h =
      let (m, p, resp) = get_session draw now now' now'' req (some h.response) h.server.manager in
      (
        returned p,
        record { server = record h.server { manager = m }; response = get_or resp h.response },
      )

  abbrev pub read_value : ℕ → Text → Handling Json R W → Text
  read_value p key h = get_value key (h.server.manager.heap p)

  abbrev pub set_session_value : ℕ → Text → Text → Call Json R W (Unit {0})
  set_session_value p key value h = (
    returned tt,
    record h { server = record h.server { manager = set_value p key value h.server.manager } },
  )

  -- `std::stoi(session->getValue("userId"))`.
  unfoldable pub user_of : ℕ → Call Json R W ℤ
  user_of p h = (int_or_throw (stoi (read_value p (codes "userId") h)), h)

  unfoldable pub respond_empty : HttpRequest → Call Json R W (Unit {0})
  respond_empty req = respond req HttpStatusCode.bad_request (codes "Bad Request") true json_type []

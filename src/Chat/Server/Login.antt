-- ===== src/Chat/Server/Login.antt =====
-- AIApps/ChatServer/src/handlers/ChatLoginHandler.cpp, ChatLogoutHandler.cpp and
-- ChatRegisterHandler.cpp. The pool of database connections is the parameter `Database`.
use cyclone_httpserver.Common.{
  ℕ, Bool, true, false, Option, none, some, List, [], ◌∷◌, ◌++◌, if◌then◌else◌,
}
use cyclone_httpserver.Common.Bytes.{Text, codes}
use cyclone_httpserver.Common.Decimal.{ℤ, negsuc, int_to_text}
use cyclone_httpserver.Http.Types.{HttpStatusCode}
use cyclone_httpserver.Http.Request.{HttpRequest}
use cyclone_httpserver.Session.{clear, destroy_session}
use cyclone_httpserver.Chat.{Outcome, returned, Act, pure, lift, try, JsonApi, ◌>>=◌, ◌>>◌, utf8}
use cyclone_httpserver.Chat.Server.{
  Call, Times, find, put, remove, json_type, respond, respond_error, respond_empty, refuse,
  session_of, set_session_value, user_of, is_json_request,
}

-- What the handlers call of MysqlUtil: a query with its parameters, whose result is the `id` of the
-- first row if there is one, and an update.
pub record Database (W : Type 0) : Type 0 where
  pub execute_query : Text → List Text → W → Outcome (Option ℤ) × W
  pub execute_update : Text → W → Outcome (Unit {0}) × W

-- What `find` and `operator[]` of `onlineUsers_` tell.
abbrev pub is_online : Option Bool → Bool
is_online (some true) = true
is_online _ = false

module _ (api : JsonApi) {R W : Type 0} (draw : R → ℕ × R) (database : Database W) where
  open api use {
    Json, string, object, boolean, number, at_variable, get_string, parse, dump_indented,
  }

  abbrev in_world : {A : Type 0} → Act W A → Call Json R W A
  in_world act h =
      let (o, w) = act h.server.world in (o, record h { server = record h.server { world = w } })

  -- -1 where there is no row.
  abbrev id_or : Option ℤ → ℤ
  id_or none = negsuc 0
  id_or (some id) = id

  unfoldable pub query_user_id : Text → Text → Call Json R W ℤ
  query_user_id username password = do
    row ← in_world (
        database.execute_query (codes "SELECT id FROM users WHERE username = ? AND password = ?")
          (username ∷ password ∷ []))
    pure (id_or row)

  unfoldable pub set_online : ℤ → Bool → Call Json R W (Unit {0})
  set_online id on h = (
    returned tt,
    record h { server = record h.server { online_users = put id on h.server.online_users } },
  )

  -- A text of the request's JSON.
  abbrev text_at : Text → Json → Call Json R W Text
  text_at key j = do value ← lift (at_variable key j); lift (get_string value)

  unfoldable pub admit : HttpRequest → ℤ → Bool → Call Json R W (Unit {0})
  admit req id false = do
    set_online id true
    body ← lift (
        dump_indented (object ((codes "success", boolean true) ∷ (codes "userId", number id) ∷ [])))
    respond api draw req HttpStatusCode.ok (codes "OK") false json_type body
  admit req id true = do
    body ← lift (
        dump_indented (
          object (
            (codes "success", boolean false)
            ∷ (codes "error", string (utf8 (codes "账号已经在线重复登录")))
            ∷ [])))
    respond api draw req HttpStatusCode.forbidden (codes "Forbidden") true json_type body

  abbrev check_online : HttpRequest → ℤ → Call Json R W (Unit {0})
  check_online req id h = admit req id (is_online (find id h.server.online_users)) h

  -- The login of a user whose password is right.
  unfoldable pub log_in : Times → HttpRequest → Text → ℤ → Call Json R W (Unit {0})
  log_in times req username id = do
    p ← session_of api draw times req
    set_session_value api draw p (codes "userId") (int_to_text id)
    set_session_value api draw p (codes "username") username
    set_session_value api draw p (codes "isLoggedIn") (codes "true")
    check_online req id

  -- -1 is the id of no user.
  abbrev log_in_by : Times → HttpRequest → Text → ℤ → Call Json R W (Unit {0})
  log_in_by times req username (negsuc ℕ.zero) =
      respond_error api draw req HttpStatusCode.unauthorized (codes "Unauthorized") false
        (codes "Invalid username or password")
  log_in_by times req username id = log_in times req username id

  unfoldable pub login_steps : Times → HttpRequest → Call Json R W (Unit {0})
  login_steps times req = do
    parsed ← lift (parse req.content)
    username ← text_at (codes "username") parsed
    password ← text_at (codes "password") parsed
    id ← query_user_id username password
    log_in_by times req username id

  unfoldable pub handle_login : Times → HttpRequest → Call Json R W (Unit {0})
  handle_login times req =
      if is_json_request req
      then try (login_steps times req) (refuse api draw req)
      else respond_empty api draw req

  -- `session->clear()` and `destroySession`.
  unfoldable pub end_session : ℕ → Call Json R W (Unit {0})
  end_session p h =
      let cleared = clear p h.server.manager in
      (
        returned tt,
        record h {
          server = record h.server {
            manager = destroy_session (cleared.heap p).session_id cleared;
          };
        },
      )

  unfoldable pub set_offline : ℤ → Call Json R W (Unit {0})
  set_offline id h = (
    returned tt,
    record h { server = record h.server { online_users = remove id h.server.online_users } },
  )

  unfoldable pub logout_steps : Times → HttpRequest → Call Json R W (Unit {0})
  logout_steps times req = do
    p ← session_of api draw times req
    id ← user_of api draw p
    end_session p
    parsed ← lift (parse req.content)
    set_offline id
    body ←
        lift (dump_indented (object ((codes "message", string (codes "logout successful")) ∷ [])))
    respond api draw req HttpStatusCode.ok (codes "OK") true json_type body

  unfoldable pub handle_logout : Times → HttpRequest → Call Json R W (Unit {0})
  handle_logout times req =
      if is_json_request req
      then try (logout_steps times req) (refuse api draw req)
      else respond_empty api draw req

  -- `isUserExist`, `insertUser` and `handle` of the registration; the handler catches nothing.
  abbrev select_user : Text → Text
  select_user username = codes "SELECT id FROM users WHERE username = '" ++ (username ++ codes "'")

  unfoldable pub is_user_exist : Text → Call Json R W Bool
  is_user_exist username = do
    row ← in_world (database.execute_query (select_user username) [])
    pure (elim row [ none ↦ false | some id ↦ true ])

  abbrev insert_new : Text → Text → Bool → Call Json R W ℤ
  insert_new username password true = pure (negsuc 0)
  insert_new username password false = do
    in_world (
        database.execute_update (
          codes "INSERT INTO users (username, password) VALUES ('"
          ++ (username ++ (codes "', '" ++ (password ++ codes "')")))))
    row ← in_world (database.execute_query (select_user username) [])
    pure (id_or row)

  unfoldable pub insert_user : Text → Text → Call Json R W ℤ
  insert_user username password = do
    known ← is_user_exist username
    insert_new username password known

  abbrev registered_by : HttpRequest → ℤ → Call Json R W (Unit {0})
  registered_by req (negsuc ℕ.zero) =
      respond_error api draw req HttpStatusCode.conflict (codes "Conflict") false
        (codes "username already exists")
  registered_by req id = do
    body ← lift (
        dump_indented (
          object (
            (codes "status", string (codes "success"))
            ∷ (codes "message", string (codes "Register successful"))
            ∷ (codes "userId", number id)
            ∷ [])))
    respond api draw req HttpStatusCode.ok (codes "OK") false json_type body

  unfoldable pub handle_register : HttpRequest → Call Json R W (Unit {0})
  handle_register req = do
    parsed ← lift (parse req.content)
    username ← text_at (codes "username") parsed
    password ← text_at (codes "password") parsed
    id ← insert_user username password
    registered_by req id

-- ===== src/Chat/Server/Send.antt =====
-- AIApps/ChatServer/src/handlers/ChatSendHandler.cpp, ChatCreateAndSendHandler.cpp and
-- ChatSessionsHandler.cpp, with AISessionIdGenerator. The handlers name HttpRequest::version and the status
-- codes by names that these types do not have; the members that are meant are taken.
use Prim.Native.Nat.{bit_xor}
use cyclone_httpserver.Common.{
  ℕ, ◌%◌, true, false, Option, none, some, List, [], ◌∷◌, ◌++◌, if◌then◌else◌, map,
}
use cyclone_httpserver.Common.Bytes.{Text, codes, text_eq, is_empty}
use cyclone_httpserver.Common.Decimal.{ℤ, to_text}
use cyclone_httpserver.Common.Dict.{Dict, lookup, assign, get_or}
use cyclone_httpserver.Http.Types.{HttpStatusCode}
use cyclone_httpserver.Http.Request.{HttpRequest}
use cyclone_httpserver.Chat.{
  returned, pure, lift, try, JsonApi, Outside, ◌>>=◌, ◌>>◌, Outcome, Bool,
}
use cyclone_httpserver.Chat.Config.{then_read}
use cyclone_httpserver.Chat.Helper.{AiHelper, new_helper, chat}
use cyclone_httpserver.Chat.Server.{
  Call, Handling, Times, find, put, json_type, respond, refuse, unauthorized, session_of,
  read_value, user_of,
}

-- `generate`: the count of the system clock, and what `std::rand` gives.
unfoldable pub generate : ℕ → ℕ → Text
generate now random = to_text (bit_xor now (random % 100000))

-- What a request asks: its question, its model and the identifier of its conversation.
pub record Question : Type 0 where
  pub user_question : Text
  pub model_type : Text
  pub session_id : Text

module _ (api : JsonApi) {R W : Type 0} (draw : R → ℕ × R) (outside : Outside api.Json W)
    (arrange : Dict Text → Dict Text) (replace : Text → Text → Text → Text) where
  open api use {
    Json, string, object, array, boolean, contains, at_key, get_string, parse, dump_indented,
  }

  -- `if (j.contains(key)) … = j[key]`, with the text that stands there if not.
  abbrev text_or : Text → Text → Json → Outcome Text
  text_or key missing j =
      if contains key j then then_read (at_key key j) get_string else returned missing

  -- The reading of the body; an empty one asks nothing. ChatCreateAndSendHandler looks for no `sessionId`.
  unfoldable pub read_question : Bool → Text → Outcome Question
  read_question with_id body =
      if is_empty body
      then returned (record { user_question = []; model_type = []; session_id = [] })
      else then_read (parse body) (λ j. then_read (text_or (codes "question") [] j) (λ question.
        then_read (if with_id then text_or (codes "sessionId") [] j else returned []) (λ id.
          then_read (text_or (codes "modelType") (codes "1") j) (λ model.
            returned (record { user_question = question; model_type = model; session_id = id })))))

  abbrev sessions_of : ℤ → Handling Json R W → Dict (AiHelper Json)
  sessions_of user h = get_or (find user h.server.chat_information) []

  abbrev set_sessions : ℤ → Dict (AiHelper Json) → Call Json R W (Unit {0})
  set_sessions user sessions h = (
    returned tt,
    record h {
      server = record h.server { chat_information = put user sessions h.server.chat_information };
    },
  )

  -- The constructor's outcome, and `emplace`.
  unfoldable pub emplace : ℤ → Text → Call Json R W (AiHelper Json)
  emplace user id = do
    helper ← lift (new_helper api outside arrange replace)
    λ h. set_sessions user (assign id helper (sessions_of user h)) h
    pure helper

  -- The conversation, which is made if it is not there; `added` is what a new one entails.
  abbrev found_or :
      Option (AiHelper Json) → ℤ → Text → Call Json R W (Unit {0}) → Call Json R W (AiHelper Json)
  found_or (some helper) user id added = pure helper
  found_or none user id added = do helper ← emplace user id; added; pure helper

  unfoldable pub find_helper : ℤ → Text → Call Json R W (Unit {0}) → Call Json R W (AiHelper Json)
  find_helper user id added = do
    λ h. set_sessions user (sessions_of user h) h
    λ h. found_or (lookup id (sessions_of user h)) user id added h

  -- `chat` of a conversation of the server, whose history changes also where it throws.
  unfoldable pub talk : ℤ → Text → Question → AiHelper Json → Call Json R W Text
  talk user username q helper h =
      let (o, s) =
        chat api outside arrange replace user username q.session_id q.user_question q.model_type
          (record { helper = helper; counter = h.server.counter; world = h.server.world }) in
      (
        o,
        record h {
          server = record h.server {
            chat_information =
                put user (assign q.session_id s.helper (sessions_of user h))
                  h.server.chat_information;
            counter = s.counter;
            world = s.world;
          };
        },
      )

  abbrev answer_with : HttpRequest → Dict Json → Call Json R W (Unit {0})
  answer_with req fields = do
    body ← lift (dump_indented (object fields))
    respond api draw req HttpStatusCode.ok (codes "OK") false json_type body

  unfoldable pub send_steps : ℕ → HttpRequest → Call Json R W (Unit {0})
  send_steps p req = do
    user ← user_of api draw p
    username ← λ h. pure (read_value api draw p (codes "username") h) h
    q ← lift (read_question true req.content)
    helper ← find_helper user q.session_id (pure tt)
    answer ← talk user username q helper
    answer_with req ((codes "success", boolean true) ∷ (codes "Information", string answer) ∷ [])

  -- `sessionsIdsMap[userId].push_back(sessionId)`
  abbrev pub push_session_id : ℤ → Text → Call Json R W (Unit {0})
  push_session_id user id h = (
    returned tt,
    record h {
      server = record h.server {
        session_ids_map =
            put user (get_or (find user h.server.session_ids_map) [] ++ id ∷ [])
              h.server.session_ids_map;
      };
    },
  )

  unfoldable pub create_steps : Text → ℕ → HttpRequest → Call Json R W (Unit {0})
  create_steps id p req = do
    user ← user_of api draw p
    username ← λ h. pure (read_value api draw p (codes "username") h) h
    asked ← lift (read_question false req.content)
    let q : Question = record asked { session_id = id }
    helper ← find_helper user id (push_session_id user id)
    answer ← talk user username q helper
    answer_with req (
        (codes "success", boolean true)
        ∷ (codes "Information", string answer)
        ∷ (codes "sessionId", string id)
        ∷ [])

  abbrev take_ids : ℤ → Call Json R W (List Text)
  take_ids user h =
      let ids = get_or (find user h.server.session_ids_map) [] in
      (
        returned ids,
        record h {
          server = record h.server { session_ids_map = put user ids h.server.session_ids_map };
        },
      )

  -- The name begins with the bytes of the literal, which are no UTF-8 of a name.
  abbrev listed : Text → Json
  listed id =
      object
        ((codes "sessionId", string id) ∷ (codes "name", string (225 ∷ 187 ∷ 176 ∷ b' ' ∷ id)) ∷ [])

  unfoldable pub sessions_steps : ℕ → HttpRequest → Call Json R W (Unit {0})
  sessions_steps p req = do
    user ← user_of api draw p
    ids ← take_ids user
    answer_with req
        ((codes "success", boolean true) ∷ (codes "sessions", array (map listed ids)) ∷ [])

  -- What the handlers do for a visitor who is logged in, and for any other.
  abbrev pub if_logged_in :
      (ℕ → HttpRequest → Call Json R W (Unit {0})) → HttpRequest → ℕ → Call Json R W (Unit {0})
  if_logged_in steps req p h =
      if text_eq (read_value api draw p (codes "isLoggedIn") h) (codes "true")
      then steps p req h
      else unauthorized api draw req h

  unfoldable pub guarded :
      (ℕ → HttpRequest → Call Json R W (Unit {0})) → Times → HttpRequest → Call Json R W (Unit {0})
  guarded steps times req =
      try (do p ← session_of api draw times req; if_logged_in steps req p) (refuse api draw req)

  unfoldable pub handle_send : Times → HttpRequest → Call Json R W (Unit {0})
  handle_send = guarded send_steps

  unfoldable pub handle_create_and_send : Text → Times → HttpRequest → Call Json R W (Unit {0})
  handle_create_and_send id = guarded (create_steps id)

  unfoldable pub handle_sessions : Times → HttpRequest → Call Json R W (Unit {0})
  handle_sessions = guarded sessions_steps

-- ===== src/Chat/Tests.antt =====
-- The chat application over a JSON library whose values are texts, and a world that answers at once.
use cyclone_httpserver.Common.{ℕ, ◌≡◌, ◌≢◌, refl, true, false, none, some, [], ◌∷◌, length}
use cyclone_httpserver.Common.Bytes.{Text, codes}
use cyclone_httpserver.Common.Decimal.{pos, to_text, int_to_text, stoi}
use cyclone_httpserver.Common.Dict.{Dict, lookup}
use cyclone_httpserver.Http.Types.{HttpStatusCode}
use cyclone_httpserver.Http.Request.{new_request, HttpRequest}
use cyclone_httpserver.Http.Response.{HttpResponse, new_response}
use cyclone_httpserver.Session.{
  save, new_session, get_session, get_value, find_session, Session, Manager, load,
  get_session_id_from_cookie, is_expired, save, refresh,
}
use cyclone_httpserver.Chat.{Literals, Outcome, returned, JsonApi, Outside, threw}
use cyclone_httpserver.Chat.Strategy.{
  Strategy, create, registered, register_strategy, aliyun_strategy, parse_response,
}
use cyclone_httpserver.Chat.Escape.{insert_sql}
use cyclone_httpserver.Chat.Escape.Reading.{Row, bare, quoted, value_of, read_insert}
use cyclone_httpserver.Chat.Escape.Insert.{read_insert-insert_sql}
use cyclone_httpserver.Chat.Helper.{
  Talk, chat, set_strategy, plain_chat, plain_answer, add_message, push_message_to_mysql, publish,
  execute_curl,
}
use cyclone_httpserver.Chat.Helper.History.{chat-messages}
use cyclone_httpserver.Chat.Server.{ChatServer, Handling, find}
use cyclone_httpserver.Chat.Server.Login.{Database, log_in, is_online, handle_logout}
use cyclone_httpserver.Chat.Server.Online.{log_in_cases}
use cyclone_httpserver.Chat.Server.Logout.{handle_logout_unparsed}
use cyclone_httpserver.Chat.Server.Unserved.{Ask, send, handle_ask, serve, handle_ask-serve}

abbrev json : JsonApi
json = record {
  Json = Text;
  string = λ t. t;
  array = λ l. [];
  object = λ d. [];
  boolean = λ b. [];
  number = λ i. [];
  null = [];
  contains = λ key j. true;
  is_string = λ j. true;
  is_object = λ j. false;
  is_array = λ j. false;
  holds_nothing = λ j. false;
  at_key = λ key j. returned j;
  at_variable = λ key j. returned j;
  at_index = λ i j. returned j;
  get_string = λ j. returned j;
  value = λ key j. returned j;
  elements = λ j. [];
  items = λ j. [];
  parse = λ t. returned t;
  dump = λ j. returned j;
  dump_indented = λ j. returned j;
}

abbrev World : Type 0
World = Unit {0}

-- The literals of `escapeString` as they are meant.
abbrev meant : Literals
meant = record { single_quote = b'\''; escaped_double = codes "\\\"" }

abbrev outside : Outside Text World
outside = record {
  now = λ w. (7, w);
  local_time = λ w. ([], w);
  env = λ name. some (codes "key");
  url_encode = λ t. some t;
  curl_init = λ w. (true, w);
  get = λ url w. (returned [], w);
  post = λ url key payload w. (returned (codes "hello"), w);
  basic_publish = λ channel queue msg w. (returned tt, w);
  config_file = λ w. (none, w);
  literals = meant;
}

abbrev same : Dict Text → Dict Text
same d = d

abbrev unchanged : Text → Text → Text → Text
unchanged text pattern by = text

read_insert-insert_sql_example :
    (row : Row) × (read_insert
        (insert_sql meant (pos 1) (codes "o'hara") true (codes "'); --") 9 (codes "5"))
      ≡ some (codes "chat_message", row, []))
    × (length row ≡ 6)
    × (value_of (codes "id") row ≡ some (bare (int_to_text (pos 1))))
    × (value_of (codes "username") row ≡ some (quoted (codes "o'hara")))
    × (value_of (codes "session_id") row ≡ some (quoted (codes "5")))
    × (value_of (codes "is_user") row ≡ some (bare (to_text 1)))
    × (value_of (codes "content") row ≡ some (quoted (codes "'); --")))
    × (value_of (codes "ts") row ≡ some (bare (to_text 9)))
read_insert-insert_sql_example =
    read_insert-insert_sql meant (pos 1) (codes "o'hara") true (codes "'); --") 9 (codes "5") refl
      refl

abbrev service : Strategy Text
service = record {
  get_api_url = returned [];
  get_api_key = [];
  get_model = [];
  is_mcp_model = true;
  build_request = λ messages. [];
  parse_response = λ j. returned [];
}

abbrev talk : Talk Text World
talk = record { helper = record { strategy = service; messages = [] }; counter = 0; world = tt }

abbrev asked : Outcome Text × Talk Text World
asked =
    chat json outside same unchanged (pos 1) (codes "ann") (codes "5") (codes "hi") (codes "1") talk

asked_returns : asked.0 ≡ returned (codes "hello")
unfolding chat create registered register_strategy aliyun_strategy set_strategy plain_chat
    plain_answer add_message push_message_to_mysql publish execute_curl parse_response
asked_returns = refl

chat-messages_example :
    (t : ℕ) × (t' : ℕ) × (asked.1.helper.messages ≡ (codes "hi", t) ∷ (codes "hello", t') ∷ [])
chat-messages_example =
    chat-messages json outside same unchanged (pos 1) (codes "ann") (codes "5") (codes "hi")
      (codes "1") (codes "hello") talk asked.1 (λ i. (asked_returns i, asked.1)) refl refl

abbrev draw : ℕ → ℕ × ℕ
draw g = (0, g)

abbrev server : ChatServer Text ℕ World
server = record {
  manager = record { heap = λ p. new_session []; next = 0; sessions = []; rng = 0 };
  online_users = [];
  chat_information = [];
  session_ids_map = [];
  counter = 0;
  world = tt;
}

abbrev question : Ask
question = send (1, 2, 3) (new_request 0)

abbrev fresh : HttpResponse
fresh = new_response false

handle_ask-serve_example :
    (handle_ask json draw outside same unchanged question (record {
      server = serve json draw outside same unchanged ((question, fresh) ∷ []) server;
      response = fresh;
    })).1.response.status_code
    ≢ HttpStatusCode.ok
handle_ask-serve_example =
    handle_ask-serve json draw outside same unchanged ((question, fresh) ∷ []) server refl
      ((λ e. cc), tt) question fresh (λ e. cc)

abbrev database : Database World
database = record {
  execute_query = λ sql params w. (returned (some (pos 1)), w);
  execute_update = λ sql w. (returned tt, w);
}

abbrev visit : Handling Text ℕ World
visit = record { server = server; response = fresh }

log_in_cases_example :
    let r = log_in json draw database (1, 2, 3) (new_request 0) (codes "ann") (pos 1) visit in
    let session =
      r.1.server.manager.heap
        (get_session draw 1 2 3 (new_request 0) (some fresh) server.manager).1 in
    (get_value (codes "isLoggedIn") session ≡ codes "true")
    × (get_value (codes "userId") session ≡ int_to_text (pos 1))
    × (is_online (find (pos 1) server.online_users) ≡ true
        → (r.1.server.online_users ≡ server.online_users)
          × (r.0 ≡ returned tt → r.1.response.status_code ≡ HttpStatusCode.forbidden))
    × (is_online (find (pos 1) server.online_users) ≡ false
        → (find (pos 1) r.1.server.online_users ≡ some true)
          × (r.0 ≡ returned tt → r.1.response.status_code ≡ HttpStatusCode.ok))
log_in_cases_example =
    log_in_cases json draw database (new_request 0) (pos 1) (1, 2, 3) (codes "ann") visit

abbrev no_json : JsonApi
no_json = record json { parse = λ t. threw (codes "parse error") }

-- A visitor whose session has the number 1.
abbrev member : Session
member = record {
  session_id = codes "5";
  values = (codes "userId", codes "1") ∷ [];
  expiry_time = 100;
  max_age = 3600;
  has_manager = true;
}

abbrev members : Manager ℕ
members = record { heap = λ p. member; next = 1; sessions = (codes "5", 0) ∷ []; rng = 0 }

abbrev goodbye : HttpRequest
goodbye = record (new_request 0) {
  headers =
      (codes "Content-Type", codes "application/json") ∷ (codes "Cookie", codes "sessionId=5") ∷ [];
  content = codes "bye";
}

abbrev leaving : Handling Text ℕ World
leaving = record {
  server = record server { manager = members; online_users = (pos 1, true) ∷ [] };
  response = fresh;
}

abbrev left : Outcome (Unit {0}) × Handling Text ℕ World
left = handle_logout no_json draw database (1, 2, 3) goodbye leaving

known :
    stoi (
      get_value (codes "userId") (
        (get_session draw 1 2 3 goodbye (some fresh) members).0.heap
          (get_session draw 1 2 3 goodbye (some fresh) members).1))
    ≡ some (pos 1)
unfolding get_session find_session load get_session_id_from_cookie is_expired save refresh stoi
known = refl

handle_logout_unparsed_example :
    (left.1.server.online_users ≡ (pos 1, true) ∷ [])
    × (lookup
          ((get_session draw 1 2 3 goodbye (some fresh) members).0.heap
            (get_session draw 1 2 3 goodbye (some fresh) members).1).session_id
          left.1.server.manager.sessions
        ≡ none)
    × (left.0 ≡ returned tt → left.1.response.status_code ≡ HttpStatusCode.bad_request)
handle_logout_unparsed_example =
    handle_logout_unparsed no_json draw database (1, 2, 3) goodbye leaving (pos 1)
      (codes "parse error") refl refl known

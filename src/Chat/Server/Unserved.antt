-- ===== src/Chat/Server/Unserved.antt =====
-- Why no question is ever answered: an AIHelper asks the factory for the model "aliyun", which is
-- registered under another name, so that no conversation comes to be.
use cyclone_httpserver.Common.{
  ℕ, ◌≡◌, ◌≢◌, refl, sym, ◌∙◌, inl, inr, Bool, some, List, [], ◌∷◌, All, Bool-cases, Option-cases,
}
use mathlib.Core.Path.{subst}
use cyclone_httpserver.Common.Bytes.{Text, codes}
use cyclone_httpserver.Common.Decimal.{ℤ}
use cyclone_httpserver.Common.Dict.{Dict, get_or}
use cyclone_httpserver.Http.Types.{HttpStatusCode}
use cyclone_httpserver.Http.Request.{HttpRequest}
use cyclone_httpserver.Http.Response.{
  HttpResponse, add_header, set_content_type, set_content_length,
}
use cyclone_httpserver.Session.{
  Manager, get_session, find_session, create_session, set_session_cookie, load,
  get_session_id_from_cookie, is_expired,
}
use cyclone_httpserver.Chat.{
  threw, lift, and_then, and_then_holds, and_then_threw, caught_holds, JsonApi, Outside, pure,
}
use cyclone_httpserver.Chat.Strategy.{create, registered, register_strategy}
use cyclone_httpserver.Chat.Helper.{new_helper}
use cyclone_httpserver.Chat.Server.{
  ChatServer, Handling, Call, IntMap, Times, find, put, respond, respond_error, refuse,
  unauthorized, session_of, user_of, int_eq, set_content_type, set_content_length, text_eq,
  read_value, error_body, json_type, true, false,
}
use cyclone_httpserver.Chat.Server.Send.{
  find_helper, emplace, send_steps, create_steps, guarded, handle_send, handle_create_and_send,
  read_question, push_session_id, if_logged_in,
}

-- A request to one of the handlers that ask a model.
pub data Ask : Type 0 where
  send : Times → HttpRequest → Ask
  create_and_send : Text → Times → HttpRequest → Ask

-- A map in which nobody has a conversation.
abbrev pub IsEmpty : {A : Type 0} → IntMap (Dict A) → Type 0
IsEmpty = All (λ e. e.1 ≡ [])

put-IsEmpty : {A : Type 0} (user : ℤ) (m : IntMap (Dict A)) → IsEmpty m → IsEmpty (put user [] m)
put-IsEmpty user [] h = (refl, tt)
put-IsEmpty user ((j, d) ∷ m) h = elim (Bool-cases (int_eq j user)) [
  | inl e ↦ rw e (refl, h.1)
  | inr e ↦ rw e (h.0, put-IsEmpty user m h.1)
]

find-IsEmpty :
    {A : Type 0} (user : ℤ) (m : IntMap (Dict A)) → IsEmpty m → get_or (find user m) [] ≡ []
find-IsEmpty user [] h = refl
find-IsEmpty user ((j, d) ∷ m) h = elim (Bool-cases (int_eq j user)) [
  | inl e ↦ rw e h.0
  | inr e ↦ rw e (find-IsEmpty user m h.1)
]

module _ (api : JsonApi) {R W : Type 0} (draw : R → ℕ × R) (outside : Outside api.Json W)
    (arrange : Dict Text → Dict Text) (replace : Text → Text → Text → Text) where
  new_helper_throws :
      new_helper api outside arrange replace
      ≡ threw (codes "AIHelper initialization failed: Unknown strategy: aliyun")
  unfolding new_helper create registered register_strategy
  new_helper_throws = refl

  -- Nobody has a conversation, and the response has no success to tell.
  pub record IsUnserved (h : Handling api.Json R W) : Type 0 where
    pub nobody : IsEmpty h.server.chat_information
    pub no_success : h.response.status_code ≢ HttpStatusCode.ok

  find_helper_throws :
      (user : ℤ) (id : Text) (added : Call api.Json R W (Unit {0})) (h : Handling api.Json R W)
      → IsUnserved h
      → ((find_helper api draw outside arrange replace user id added h).0
          ≡ threw (codes "AIHelper initialization failed: Unknown strategy: aliyun"))
        × IsUnserved (find_helper api draw outside arrange replace user id added h).1
  unfolding find_helper emplace new_helper create registered register_strategy
  find_helper_throws user id added h u =
      let chats = h.server.chat_information in
      let kept : IsEmpty (put user [] chats) = put-IsEmpty user chats u.nobody in
      rw (find-IsEmpty user chats u.nobody) (
        rw (find-IsEmpty user (put user [] chats) kept)
          (refl, record { nobody = kept; no_success = u.no_success }))

  create_session_status :
      (r : HttpResponse) (m : Manager R)
      → (get_or (create_session draw (some r) m).2 r).status_code ≡ r.status_code
  unfolding create_session set_session_cookie add_header
  create_session_status r m = refl

  find_session_status :
      (now now' : ℕ) (cookie : Text) (r : HttpResponse) (m : Manager R)
      → (get_or (find_session draw now now' cookie (some r) m).2 r).status_code ≡ r.status_code
  unfolding find_session
  find_session_status now now' [] r m = create_session_status r m
  find_session_status now now' (c ∷ cookie) r m =
      elim (Option-cases (load now (get_session_id_from_cookie (c ∷ cookie)) m).1) [
        | inl e ↦ rw (e, find_session) (create_session_status r _)
        | inr (p, e) ↦
            elim (Bool-cases
              (is_expired now' ((load now (get_session_id_from_cookie (c ∷ cookie)) m).0.heap p))) [
                | inl x ↦ rw (e, find_session, x) (create_session_status r _)
                | inr x ↦ rw (e, find_session, x) refl
              ]
      ]

  session_of-IsUnserved :
      (times : Times) (req : HttpRequest) (h : Handling api.Json R W)
      → IsUnserved h
      → IsUnserved (session_of api draw times req h).1
  unfolding session_of get_session
  session_of-IsUnserved times req h u = record {
    nobody = u.nobody;
    no_success = λ e.
        u.no_success (sym (find_session_status times.0 times.1 _ h.response h.server.manager) ∙ e);
  }

  respond-IsUnserved :
      (req : HttpRequest) (status : HttpStatusCode) (message : Text) (close : Bool)
      (type body : Text) (h : Handling api.Json R W)
      → IsUnserved h
      → status ≢ HttpStatusCode.ok
      → IsUnserved (respond api draw req status message close type body h).1
  unfolding respond set_content_type set_content_length add_header
  respond-IsUnserved req status message close type body h u n = record {
    nobody = u.nobody;
    no_success = n;
  }

  respond_error-IsUnserved :
      (req : HttpRequest) (status : HttpStatusCode) (status_text : Text) (close : Bool)
      (message : Text) (h : Handling api.Json R W)
      → IsUnserved h
      → status ≢ HttpStatusCode.ok
      → IsUnserved (respond_error api draw req status status_text close message h).1
  unfolding respond_error
  respond_error-IsUnserved req status status_text close message h u n =
      and_then_holds IsUnserved (lift (api.dump_indented (error_body api message)) h)
        (respond api draw req status status_text close json_type) u
        (λ body h' u'. respond-IsUnserved req status status_text close json_type body h' u' n)

  send_steps-IsUnserved :
      (p : ℕ) (req : HttpRequest) (h : Handling api.Json R W)
      → IsUnserved h
      → IsUnserved (send_steps api draw outside arrange replace p req h).1
  unfolding send_steps user_of
  send_steps-IsUnserved p req h u =
      and_then_holds {B = Unit {0}} IsUnserved (user_of api draw p h) _ u (λ user h1 u1.
        and_then_holds {B = Unit {0}} IsUnserved
          (lift (read_question api draw outside arrange replace true req.content) h1) _ u1
          (λ q h2 u2.
            let (throws, u3) = find_helper_throws user q.session_id (pure tt) h2 u2 in
            subst IsUnserved
              (sym (
                and_then_threw {B = Unit {0}}
                  (find_helper api draw outside arrange replace user q.session_id (pure tt) h2) _
                  throws))
              u3))

  create_steps-IsUnserved :
      (id : Text) (p : ℕ) (req : HttpRequest) (h : Handling api.Json R W)
      → IsUnserved h
      → IsUnserved (create_steps api draw outside arrange replace id p req h).1
  unfolding create_steps user_of
  create_steps-IsUnserved id p req h u =
      and_then_holds {B = Unit {0}} IsUnserved (user_of api draw p h) _ u (λ user h1 u1.
        and_then_holds {B = Unit {0}} IsUnserved
          (lift (read_question api draw outside arrange replace false req.content) h1) _ u1
          (λ q h2 u2.
            let (throws, u3) =
              find_helper_throws user id (push_session_id api draw outside arrange replace user id)
                h2 u2 in
            subst IsUnserved
              (sym (
                and_then_threw {B = Unit {0}}
                  (find_helper api draw outside arrange replace user id
                    (push_session_id api draw outside arrange replace user id) h2)
                  _ throws))
              u3))

  guarded-IsUnserved :
      (steps : ℕ → HttpRequest → Call api.Json R W (Unit {0})) (times : Times) (req : HttpRequest)
      (h : Handling api.Json R W)
      → ((p : ℕ) (h' : Handling api.Json R W) → IsUnserved h' → IsUnserved (steps p req h').1)
      → IsUnserved h
      → IsUnserved (guarded api draw outside arrange replace steps times req h).1
  unfolding guarded unauthorized refuse
  guarded-IsUnserved steps times req h k u =
      caught_holds IsUnserved
        (and_then (session_of api draw times req h)
          (if_logged_in api draw outside arrange replace steps req))
        (refuse api draw req)
        (and_then_holds IsUnserved (session_of api draw times req h)
          (if_logged_in api draw outside arrange replace steps req)
          (session_of-IsUnserved times req h u)
          (λ p h1 u1.
            elim (Bool-cases
              (text_eq (read_value api draw p (codes "isLoggedIn") h1) (codes "true"))) [
                | inl e ↦ rw e (k p h1 u1)
                | inr e ↦ rw e (respond_error-IsUnserved req _ _ _ _ h1 u1 (λ bad. cc))
              ]))
        (λ what h1 u1. respond_error-IsUnserved req _ _ _ what h1 u1 (λ bad. cc))

  abbrev pub handle_ask : Ask → Call api.Json R W (Unit {0})
  handle_ask (send times req) = handle_send api draw outside arrange replace times req
  handle_ask (create_and_send id times req) =
      handle_create_and_send api draw outside arrange replace id times req

  -- The server after a list of requests, each with a response of its own.
  abbrev pub serve : List (Ask × HttpResponse) → ChatServer api.Json R W → ChatServer api.Json R W
  serve [] server = server
  serve ((request, resp) ∷ requests) server =
      serve requests (handle_ask request (record { server = server; response = resp })).1.server

  handle_ask-IsUnserved :
      (request : Ask) (h : Handling api.Json R W)
      → IsUnserved h
      → IsUnserved (handle_ask request h).1
  unfolding handle_send handle_create_and_send
  handle_ask-IsUnserved (send times req) h u =
      guarded-IsUnserved _ times req h (λ p. send_steps-IsUnserved p req) u
  handle_ask-IsUnserved (create_and_send id times req) h u =
      guarded-IsUnserved _ times req h (λ p. create_steps-IsUnserved id p req) u

  serve-IsEmpty :
      (requests : List (Ask × HttpResponse)) (server : ChatServer api.Json R W)
      → IsEmpty server.chat_information
      → All (λ r. r.1.status_code ≢ HttpStatusCode.ok) requests
      → IsEmpty (serve requests server).chat_information
  serve-IsEmpty [] server h n = h
  serve-IsEmpty ((request, resp) ∷ requests) server h n =
      serve-IsEmpty requests _
        (handle_ask-IsUnserved request _ (record { nobody = h; no_success = n.0 })).nobody n.1

  -- On a server in which nobody has a conversation yet, as it is when it starts, no request to
  -- ChatSendHandler or ChatCreateAndSendHandler is ever answered with the status 200, whatever
  -- requests to them were made before, if each response starts with another status.
  pub handle_ask-serve :
      (requests : List (Ask × HttpResponse)) (server : ChatServer api.Json R W)
      → server.chat_information ≡ []
      → All (λ r. r.1.status_code ≢ HttpStatusCode.ok) requests
      → (request : Ask) (resp : HttpResponse) → resp.status_code ≢ HttpStatusCode.ok
      → (handle_ask request
          (record { server = serve requests server; response = resp })).1.response.status_code
        ≢ HttpStatusCode.ok
  handle_ask-serve requests server e n request resp fresh =
      let start : IsEmpty server.chat_information = subst IsEmpty (sym e) tt in
      (handle_ask-IsUnserved request _
        (record { nobody = serve-IsEmpty requests server start n; no_success = fresh })).no_success

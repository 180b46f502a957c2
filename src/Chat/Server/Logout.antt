-- ===== src/Chat/Server/Logout.antt =====
-- A logout whose body is no JSON.
use cyclone_httpserver.Common.{
  ℕ, ◌≡◌, refl, ap, ◌∙◌, inl, inr, true, none, some, Bool-cases, arith, ◌==◌,
}
use cyclone_httpserver.Common.Bytes.{Text, codes, text_eq_refl}
use cyclone_httpserver.Common.Decimal.{ℤ, stoi}
use cyclone_httpserver.Common.Dict.{lookup, get_or, lookup-erase}
use cyclone_httpserver.Http.Types.{HttpStatusCode}
use cyclone_httpserver.Http.Request.{HttpRequest}
use cyclone_httpserver.Session.{Manager, get_session, get_value, clear, destroy_session}
use cyclone_httpserver.Chat.{returned, threw, JsonApi}
use cyclone_httpserver.Chat.Server.{
  error_body, Handling, Times, refuse, respond_error, session_of, user_of, is_json_request,
}
use cyclone_httpserver.Chat.Server.Login.{Database, handle_logout, logout_steps, end_session}
use cyclone_httpserver.Chat.Server.Online.{answered}

end_session_gone :
    {R : Type 0} (p : ℕ) (m : Manager R)
    → lookup
        (m.heap p).session_id
        (destroy_session ((clear p m).heap p).session_id (clear p m)).sessions
      ≡ none
unfolding destroy_session clear
end_session_gone p m =
    let id = (m.heap p).session_id in
    elim (Bool-cases (p == p)) [
      | inl e ↦ rw e (lookup-erase id id m.sessions ∙ rw (text_eq_refl id) refl)
      | inr e ↦ absurd (ground arith)
    ]

module _ (api : JsonApi) {R W : Type 0} (draw : R → ℕ × R) (database : Database W) where
  -- A logout of a visitor who is logged in, with a body that the JSON library refuses: his session is
  -- no longer stored, but the table of the users that are online is as it was before, and an answer
  -- that is made is the status 400.
  pub handle_logout_unparsed :
      (times : Times) (req : HttpRequest) (h : Handling api.Json R W) (id : ℤ) (what : Text)
      → is_json_request req ≡ true
      → api.parse req.content ≡ threw what
      → let g = get_session draw times.0 times.1 times.2 req (some h.response) h.server.manager in
        let session = g.0.heap g.1 in
        let r = handle_logout api draw database times req h in
        stoi (get_value (codes "userId") session) ≡ some id
        → (r.1.server.online_users ≡ h.server.online_users)
          × (lookup session.session_id r.1.server.manager.sessions ≡ none)
          × (r.0 ≡ returned tt → r.1.response.status_code ≡ HttpStatusCode.bad_request)
  unfolding handle_logout logout_steps end_session session_of user_of refuse respond_error
  handle_logout_unparsed times req h id what json bad known =
      let g = get_session draw times.0 times.1 times.2 req (some h.response) h.server.manager in
      let cleared = clear g.1 g.0 in
      let h' : Handling api.Json R W = record {
        server = record h.server {
          manager = destroy_session (cleared.heap g.1).session_id cleared;
        };
        response = get_or g.2 h.response;
      } in
      let steps : logout_steps api draw database times req h ≡ (threw what, h') =
        rw (known, bad, logout_steps) refl in
      let (same, status) =
        answered api draw (api.dump_indented (error_body api what)) req HttpStatusCode.bad_request
          (codes "Bad Request") true h' in
      rw (json, steps, handle_logout)
        (
          ap (λ s. s.online_users) same,
          ap (λ s. lookup (g.0.heap g.1).session_id s.manager.sessions) same
              ∙ end_session_gone g.1 g.0,
          status,
        )

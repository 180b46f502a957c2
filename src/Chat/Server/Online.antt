-- ===== src/Chat/Server/Online.antt =====
-- What a login leaves: the marks of the session, and the table of the users that are online.
use cyclone_httpserver.Common.{
  ℕ, ◌≡◌, refl, ap, ◌∙◌, inl, inr, Bool, true, false, some, [], ◌∷◌, Bool-cases, arith,
}
use cyclone_httpserver.Common.Bytes.{Text, codes}
use cyclone_httpserver.Common.Decimal.{ℤ, pos, negsuc, int_to_text}
use cyclone_httpserver.Common.Dict.{Dict, lookup, assign, lookup-assign, get_or}
use cyclone_httpserver.Http.Types.{HttpStatusCode}
use cyclone_httpserver.Http.Request.{HttpRequest}
use cyclone_httpserver.Http.Response.{add_header, set_content_type, set_content_length}
use cyclone_httpserver.Session.{Manager, get_session, get_value, set_value, save}
use cyclone_httpserver.Chat.{Outcome, returned, threw, aborted, and_then, JsonApi}
use cyclone_httpserver.Chat.Server.{
  Handling, IntMap, Times, int_eq, find, put, json_type, respond, session_of,
}
use cyclone_httpserver.Chat.Server.Login.{Database, is_online, log_in, admit, set_online}

int_eq_refl : (i : ℤ) → int_eq i i ≡ true
int_eq_refl (pos n) = ground arith
int_eq_refl (negsuc n) = ground arith

find-put : {V : Type 0} (k : ℤ) (v : V) (m : IntMap V) → find k (put k v m) ≡ some v
find-put k v [] = rw (int_eq_refl k) refl
find-put k v ((j, w) ∷ m) = elim (Bool-cases (int_eq j k)) [
  | inl e ↦ rw e (rw e refl)
  | inr e ↦ rw e (rw e (find-put k v m))
]

set_value_values :
    {R : Type 0} (p : ℕ) (key value : Text) (m : Manager R)
    → ((set_value p key value m).heap p).values ≡ assign key value (m.heap p).values
unfolding set_value save
set_value_values p key value m = elim (Bool-cases (m.heap p).has_manager) [
  | inl e ↦ ground arith
  | inr e ↦ ground arith
]

abbrev mark : {R : Type 0} → ℕ → Text → Text → Manager R → Manager R
mark p id username m =
    set_value p (codes "isLoggedIn") (codes "true")
      (set_value p (codes "username") username (set_value p (codes "userId") id m))

-- The session of a visitor whose password is right, whether or not he is let in.
marked :
    {R : Type 0} (p : ℕ) (id username : Text) (m : Manager R)
    → (get_value (codes "isLoggedIn") ((mark p id username m).heap p) ≡ codes "true")
      × (get_value (codes "userId") ((mark p id username m).heap p) ≡ id)
marked p id username m =
    let v0 = (m.heap p).values in
    let v1 : Dict Text = assign (codes "userId") id v0 in
    let v2 : Dict Text = assign (codes "username") username v1 in
    let v3 : Dict Text = assign (codes "isLoggedIn") (codes "true") v2 in
    let m1 = set_value p (codes "userId") id m in
    let m2 = set_value p (codes "username") username m1 in
    let e1 : (m1.heap p).values ≡ v1 = set_value_values p (codes "userId") id m in
    let e2 : (m2.heap p).values ≡ v2 =
      set_value_values p (codes "username") username m1
      ∙ ap (assign (codes "username") username) e1 in
    let e3 : ((mark p id username m).heap p).values ≡ v3 =
      set_value_values p (codes "isLoggedIn") (codes "true") m2
      ∙ ap (assign (codes "isLoggedIn") (codes "true")) e2 in
    (
      ap (λ vs. get_or (lookup (codes "isLoggedIn") vs) []) e3
          ∙ ap (λ o. get_or o [])
              (lookup-assign (codes "isLoggedIn") (codes "isLoggedIn") (codes "true") v2),
      ap (λ vs. get_or (lookup (codes "userId") vs) []) e3
          ∙ ap (λ o. get_or o [])
              (lookup-assign (codes "isLoggedIn") (codes "userId") (codes "true") v2
                ∙ lookup-assign (codes "username") (codes "userId") username v1
                ∙ lookup-assign (codes "userId") (codes "userId") id v0),
    )

module _ (api : JsonApi) {R W : Type 0} (draw : R → ℕ × R) where
  -- An answer with a body that may fail to be dumped.
  pub answered :
      (o : Outcome Text) (req : HttpRequest) (status : HttpStatusCode) (message : Text)
      (close : Bool) (h : Handling api.Json R W)
      → ((and_then (o, h) (respond api draw req status message close json_type)).1.server
          ≡ h.server)
        × ((and_then (o, h) (respond api draw req status message close json_type)).0 ≡ returned tt
            → (and_then
                (o, h)
                (respond api draw req status message close json_type)).1.response.status_code
              ≡ status)
  unfolding respond set_content_type set_content_length add_header
  answered (returned body) req status message close h = (refl, λ e. refl)
  answered (threw what) req status message close h = (refl, λ e. cc)
  answered aborted req status message close h = (refl, λ e. cc)

  module _ (database : Database W) (req : HttpRequest) (id : ℤ) where
    -- A user who is online already is refused, and any other one is put into the table.
    admit_cases :
        (online : Bool) (h : Handling api.Json R W)
        → ((admit api draw database req id online h).1.server.manager ≡ h.server.manager)
          × (online ≡ true
              → ((admit api draw database req id online h).1.server.online_users
                  ≡ h.server.online_users)
                × ((admit api draw database req id online h).0 ≡ returned tt
                    → (admit api draw database req id online h).1.response.status_code
                      ≡ HttpStatusCode.forbidden))
          × (online ≡ false
              → (find id (admit api draw database req id online h).1.server.online_users
                  ≡ some true)
                × ((admit api draw database req id online h).0 ≡ returned tt
                    → (admit api draw database req id online h).1.response.status_code
                      ≡ HttpStatusCode.ok))
    unfolding admit set_online
    admit_cases true h =
        let (same, status) =
          answered (api.dump_indented _) req HttpStatusCode.forbidden (codes "Forbidden") true h in
        (ap (λ s. s.manager) same, λ e. (ap (λ s. s.online_users) same, status), λ e. cc)
    admit_cases false h =
        let h' : Handling api.Json R W = record h {
          server = record h.server { online_users = put id true h.server.online_users };
        } in
        let (same, status) =
          answered (api.dump_indented _) req HttpStatusCode.ok (codes "OK") false h' in
        (
          ap (λ s. s.manager) same,
          λ e. cc,
          λ e. (
            ap (λ s. find id s.online_users) same ∙ find-put id true h.server.online_users,
            status,
          ),
        )

    -- The login of a user whose password is right. His session is marked as logged in with his
    -- number in either case. If he is online already, the table stays as it is, and an answer that is
    -- made is the status 403; if not, he is online afterwards, and it is the status 200.
    pub log_in_cases :
        (times : Times) (username : Text) (h : Handling api.Json R W)
        → let r = log_in api draw database times req username id h in
          let session =
            r.1.server.manager.heap
              (get_session draw times.0 times.1 times.2 req (some h.response) h.server.manager).1 in
          (get_value (codes "isLoggedIn") session ≡ codes "true")
          × (get_value (codes "userId") session ≡ int_to_text id)
          × (is_online (find id h.server.online_users) ≡ true
              → (r.1.server.online_users ≡ h.server.online_users)
                × (r.0 ≡ returned tt → r.1.response.status_code ≡ HttpStatusCode.forbidden))
          × (is_online (find id h.server.online_users) ≡ false
              → (find id r.1.server.online_users ≡ some true)
                × (r.0 ≡ returned tt → r.1.response.status_code ≡ HttpStatusCode.ok))
    unfolding log_in session_of
    log_in_cases times username h =
        let g = get_session draw times.0 times.1 times.2 req (some h.response) h.server.manager in
        let h' : Handling api.Json R W = record {
          server = record h.server { manager = mark g.1 (int_to_text id) username g.0 };
          response = get_or g.2 h.response;
        } in
        let (logged, user) = marked g.1 (int_to_text id) username g.0 in
        let (same, refused, admitted) =
          admit_cases (is_online (find id h.server.online_users)) h' in
        (
          ap (λ m. get_value (codes "isLoggedIn") (m.heap g.1)) same ∙ logged,
          ap (λ m. get_value (codes "userId") (m.heap g.1)) same ∙ user,
          refused,
          admitted,
        )

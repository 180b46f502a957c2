-- ===== src/Middleware/Cors/Laws.antt =====
-- What the CORS middleware answers and adds.
use cyclone_httpserver.Common.{
  Bool, true, false, none, some, List, [], ◌∷◌, ◌++◌, ◌≡◌, ◌≢◌, ◌↔◌, refl, arith, if◌then◌else◌,
  ltb, suc, ℕ, ◌∙◌, ◌⊎◌, All, inl, inr, Bool-cases, sym,
}
use mathlib.Core.List.{append_assoc}
use mathlib.Core.Bool.{false≢true}
use cyclone_httpserver.Common.Bytes.{Text, codes, text_eq, is_empty, text_eq_iff}
use cyclone_httpserver.Common.Dict.{lookup, lookup-assign_sorted}
use cyclone_httpserver.Http.Request.{HttpRequest, get_header}
use cyclone_httpserver.Http.Response.{HttpResponse, new_response, add_header, set_content_type}
use cyclone_httpserver.Http.Types.{forbidden, no_content}
use cyclone_httpserver.Middleware.{passed, refused, response}
use cyclone_httpserver.Middleware.Cors.{
  CorsConfig, contains, join, join_loop, is_origin_allowed, add_cors_headers,
  handle_preflight_request, before, after, is_options, add_if,
}

pub lookup-add_header :
    (key q value : Text) (r : HttpResponse)
    → lookup q (add_header key value r).headers
      ≡ (if text_eq key q then some value else lookup q r.headers)
unfolding add_header
lookup-add_header key q value r = lookup-assign_sorted key q value r.headers

-- The strings with the delimiter between them.
abbrev pub joined_by : Text → List Text → Text
joined_by d [] = []
joined_by d (s ∷ []) = s
joined_by d (s ∷ t ∷ ss) = s ++ (d ++ joined_by d (t ∷ ss))

ltb-suc : (n : ℕ) → ltb 0 (suc n) ≡ true
ltb-suc n = ground arith

join_loop_lem :
    (i : ℕ) (result s d : Text) (ss : List Text)
    → join_loop (suc i) (result ++ s) ss d ≡ result ++ joined_by d (s ∷ ss)
unfolding join_loop
join_loop_lem i result s d [] = refl
join_loop_lem i result s d (t ∷ ss) =
    rw (ltb-suc i) (join_loop_lem (suc i) ((result ++ s) ++ d) t d ss ∙ simp append_assoc)

-- The loop of join writes the strings with the delimiter between each two of them, and nowhere else.
pub join-joined_by : (ss : List Text) (d : Text) → join ss d ≡ joined_by d ss
unfolding join join_loop
join-joined_by [] d = refl
join-joined_by (s ∷ ss) d = join_loop_lem 0 [] s d ss

abbrev pub origin_key : Text
origin_key = codes "Access-Control-Allow-Origin"

lookup-add_if :
    (b : Bool) (key q value : Text) (r : HttpResponse)
    → text_eq key q ≡ false
    → lookup q (add_if b key value r).headers ≡ lookup q r.headers
lookup-add_if true key q value r h = lookup-add_header key q value r ∙ rw h
lookup-add_if false key q value r h = refl

add_cors_headers-origin :
    (config : CorsConfig) (r : HttpResponse) (origin : Text)
    → lookup origin_key (add_cors_headers config r origin).headers
      ≡ (if is_empty origin then lookup origin_key r.headers else some origin)
unfolding add_cors_headers
add_cors_headers-origin config r [] = simp (lookup-add_header, lookup-add_if)
add_cors_headers-origin config r (c ∷ origin) = simp (lookup-add_header, lookup-add_if)

contains-false : (xs : List Text) (s : Text) → (contains xs s ≡ false) ↔ All (λ x. x ≢ s) xs
contains-false [] s = ground arith
contains-false (x ∷ xs) s = ground (arith, text_eq_iff x s, contains-false xs s)

-- No origin of the list is the wildcard or the given one.
abbrev pub Unlisted : List Text → Text → Type 0
Unlisted allowed origin = All (λ x. x ≢ codes "*") allowed × All (λ x. x ≢ origin) allowed

is_origin_allowed-false :
    (config : CorsConfig) (origin : Text)
    → (is_origin_allowed config origin ≡ false)
      ↔ ((config.allowed_origins ≢ []) × Unlisted config.allowed_origins origin)
unfolding is_origin_allowed
is_origin_allowed-false config origin = ground (
  arith,
  contains-false config.allowed_origins (codes "*"),
  contains-false config.allowed_origins origin,
)

-- The answers to a preflight request.
preflight_no :
    (config : CorsConfig) (req : HttpRequest)
    → is_empty (get_header (codes "Origin") req) ≡ false
    → is_origin_allowed config (get_header (codes "Origin") req) ≡ false
    → let r = handle_preflight_request config req (new_response true) in
      (r.status_code ≡ forbidden) × (lookup origin_key r.headers ≡ none)
unfolding handle_preflight_request set_content_type add_header
preflight_no config req e h = rw (e, h) (refl, refl)

preflight_yes :
    (config : CorsConfig) (req : HttpRequest)
    → (is_empty (get_header (codes "Origin") req) ≡ true)
      ⊎ (is_origin_allowed config (get_header (codes "Origin") req) ≡ true)
    → let r = handle_preflight_request config req (new_response true) in
      (r.status_code ≡ no_content)
      × (lookup origin_key r.headers
          ≡ some (
              if is_empty (get_header (codes "Origin") req)
              then codes "*"
              else get_header (codes "Origin") req))
unfolding handle_preflight_request
preflight_yes config req (inl e) =
    rw e (refl, add_cors_headers-origin config (new_response true) (codes "*"))
preflight_yes config req (inr h) = elim (Bool-cases (is_empty (get_header (codes "Origin") req))) [
  | inl e ↦ rw e (refl, add_cors_headers-origin config (new_response true) (codes "*"))
  | inr e ↦
      rw (e, h)
        (
          refl,
          add_cors_headers-origin config (new_response true) (get_header (codes "Origin") req)
              ∙ rw e,
        )
]

-- The preflight request names an origin, the configuration has a list of origins, and neither the
-- wildcard nor this origin is on it.
abbrev pub IsDenied : CorsConfig → Text → Type 0
IsDenied config origin =
    (is_empty origin ≡ false)
    × ((config.allowed_origins ≢ []) × Unlisted config.allowed_origins origin)

-- The response refuses the origin exactly where it is denied, and else allows it.
abbrev pub Answers : CorsConfig → Text → HttpResponse → Type 0
Answers config origin r =
    (IsDenied config origin × ((r.status_code ≡ forbidden) × (lookup origin_key r.headers ≡ none)))
    ⊎ ((¬ IsDenied config origin)
        × ((r.status_code ≡ no_content)
            × (lookup origin_key r.headers ≡ some (if is_empty origin then codes "*" else origin))))

handle_preflight_request-Answers :
    (config : CorsConfig) (req : HttpRequest)
    → Answers config
        (get_header (codes "Origin") req)
        (handle_preflight_request config req (new_response true))
handle_preflight_request-Answers config req =
    let origin = get_header (codes "Origin") req in
    elim (Bool-cases (is_empty origin)) [
      | inl e ↦ inr (λ d. false≢true (sym d.0 ∙ e), preflight_yes config req (inl e))
      | inr e ↦ elim (Bool-cases (is_origin_allowed config origin)) [
        | inl a ↦ inr (
          λ d. false≢true (sym ((is_origin_allowed-false config origin).1 d.1) ∙ a),
          preflight_yes config req (inr a),
        )
        | inr d ↦
            inl ((e, (is_origin_allowed-false config origin).0 d), preflight_no config req e d)
      ]
    ]

-- Every OPTIONS request is answered by before, which throws the response: status 403 with no
-- Access-Control-Allow-Origin exactly where the request names an origin that is denied, and else
-- status 204, which allows the origin that the request names, or every one if it names none. Any
-- other request passes unchanged.
pub before_lem :
    (config : CorsConfig) (req : HttpRequest)
    → ((is_options req.method ≡ false) × (before config req ≡ passed req))
      ⊎ ((r : HttpResponse) × (is_options req.method ≡ true)
          × (before config req ≡ refused (response r))
          × Answers config (get_header (codes "Origin") req) r)
unfolding before
before_lem config req = elim (Bool-cases (is_options req.method)) [
  | inl e ↦ inr (
    handle_preflight_request config req (new_response true),
    e,
    rw e,
    handle_preflight_request-Answers config req,
  )
  | inr e ↦ inl (e, rw e)
]

-- With a first allowed origin that is neither empty nor the wildcard, and no wildcard after it, every
-- response but one of status 204 names this first origin, whatever the origin of the request.
pub after-origin :
    (config : CorsConfig) (r : HttpResponse) (first : Text) (others : List Text)
    → config.allowed_origins ≡ first ∷ others
    → All (λ x. x ≢ codes "*") (first ∷ others)
    → first ≢ []
    → r.status_code ≢ no_content
    → lookup origin_key (after config r).headers ≡ some first
unfolding after
after-origin config r first others e h ne s = ground (
  arith,
  (contains-false (first ∷ others) (codes "*")).1 h,
  add_cors_headers-origin config r first,
)

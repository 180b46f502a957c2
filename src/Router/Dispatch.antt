-- ===== src/Router/Dispatch.antt =====
-- Which handler answers a request.
use cyclone_httpserver.Common.{
  ℕ, ◌≡◌, refl, ap, Option, none, some, List, [], ◌∷◌, ◌++◌, if◌then◌else◌, ◌==◌, Option-cases,
  Bool-cases, inl, inr,
}
use cyclone_httpserver.Common.Bytes.{Text}
use cyclone_httpserver.Http.Request.{HttpRequest}
use cyclone_httpserver.Http.Response.{HttpResponse}
use cyclone_httpserver.Http.Types.{method_number}
use cyclone_httpserver.Middleware.{Filled, Thrown}
use cyclone_httpserver.ResponseCache.{CacheConfig, CachePolicy}
use cyclone_httpserver.Router.{
  Handler, DynamicRoute, Router, find_route, extract_path_parameters, look_up, look_up_by, remember,
  config_of, run_handler, first_match, run_dynamic, dispatch, route,
}
use cyclone_httpserver.Server.{Routed, found, missed, failed}

-- A handler with the request that it is handed.
abbrev pub Candidate : Type 0 → Type 0
Candidate W = Handler W × HttpRequest

abbrev pub entry : {W : Type 0} → Option (Handler W) → HttpRequest → List (Candidate W)
entry none req = []
entry (some h) req = (h, req) ∷ []

-- The end of a handler's call.
abbrev pub ended : {W : Type 0} → W × Filled → W × Routed
ended (w, end) = elim end.thrown [
  | some t ↦ (w, failed end.result t)
  | none ↦ (w, found end.result)
]

-- Only the first of the candidates is called.
abbrev pub call_first : {W : Type 0} → List (Candidate W) → W → HttpResponse → W × Routed
call_first [] w resp = (w, missed resp)
call_first ((h, handed) ∷ cs) w resp = ended (h w handed resp)

module _ {W Regex : Type 0} (regex_match : Regex → Text → Option (List Text)) where
  -- Every dynamic route of the request's method whose expression matches its path.
  abbrev pub matching : List (DynamicRoute W Regex) → HttpRequest → List (Candidate W)
  matching [] req = []
  matching (d ∷ ds) req =
      if method_number d.method == method_number req.method
      then (elim (regex_match d.path_regex req.path) [
        | some groups ↦ (d.handler, extract_path_parameters groups req) ∷ matching ds req
        | none ↦ matching ds req
      ])
      else matching ds req

  abbrev candidate_of :
      Option (DynamicRoute W Regex × List Text)
      → HttpRequest
      → W
      → HttpResponse
      → W × Routed
      → W × Routed
  candidate_of none req w resp other = other
  candidate_of (some (d, groups)) req w resp other =
      ended (d.handler w (extract_path_parameters groups req) resp)

module _ {W Regex : Type 0} (regex_match : Regex → Text → Option (List Text)) where
  first_match-matching :
      (ds : List (DynamicRoute W Regex)) (others : List (Candidate W)) (req : HttpRequest) (w : W)
      (resp : HttpResponse)
      → call_first (matching regex_match ds req ++ others) w resp
        ≡ candidate_of regex_match
            (first_match regex_match ds req)
            req
            w
            resp
            (call_first others w resp)
  unfolding first_match
  first_match-matching [] others req w resp = refl
  first_match-matching (d ∷ ds) others req w resp =
      let ih = first_match-matching ds others req w resp in
      elim (Bool-cases (method_number d.method == method_number req.method)) [
        | inr e ↦ rw (e, first_match) ih
        | inl e ↦ elim (Option-cases (regex_match d.path_regex req.path)) [
          | inl k ↦ rw (e, first_match) (rw (k, first_match) ih)
          | inr (g, k) ↦ rw (e, first_match) (rw (k, first_match) refl)
        ]
      ]

  -- The handlers that may answer a request, in the order of their precedence: the callback of its
  -- method and path, the handler object of it, the dynamic callbacks that match in the order of
  -- their registration, then the dynamic handler objects.
  abbrev pub candidates :
      {policy : CachePolicy} → Router W Regex policy → HttpRequest → List (Candidate W)
  candidates r req =
      entry (find_route (req.method, req.path) r.callbacks) req
      ++ (entry (find_route (req.method, req.path) r.handlers) req
          ++ (matching regex_match r.regex_callbacks req
              ++ (matching regex_match r.regex_handlers req ++ [])))

module _ (policy : CachePolicy) where
  open policy use {Store}

  look_up_by-none :
      (now : ℕ) (config : Option CacheConfig) (req : HttpRequest) (resp : HttpResponse)
      → look_up_by policy now config req none resp ≡ (none, none)
  unfolding look_up
  look_up_by-none now none req resp = refl
  look_up_by-none now (some c) req resp = refl

module _ {W Regex : Type 0} (policy : CachePolicy)
    (regex_match : Regex → Text → Option (List Text)) where
  open policy use {Store}

  -- With no cache.
  abbrev pub uncached : W × Routed → (W × Option Store) × Routed
  uncached (w, end) = ((w, none), end)

  run_handler-none :
      (now : ℕ) (h : Handler W) (config : Option CacheConfig) (req handed : HttpRequest) (w : W)
      (resp : HttpResponse)
      → run_handler policy now h config req handed w resp none ≡ uncached (ended (h w handed resp))
  unfolding run_handler remember
  run_handler-none now h config req handed w resp = go config (h w handed resp).1.thrown
    where
      go :
          (config : Option CacheConfig) (t : Option Thrown)
          → elim t [
            | some t ↦ (((h w handed resp).0, none), failed (h w handed resp).1.result t)
            | none ↦ elim config [
              | none ↦ (((h w handed resp).0, none), found (h w handed resp).1.result)
              | some c ↦ (
                ((h w handed resp).0, remember policy now c req (h w handed resp).1.result none),
                found (h w handed resp).1.result,
              )
            ]
          ]
            ≡ uncached (elim t [
              | some t ↦ ((h w handed resp).0, failed (h w handed resp).1.result t)
              | none ↦ ((h w handed resp).0, found (h w handed resp).1.result)
            ])
      go config (some t) = refl
      go none none = refl
      go (some c) none = refl

  run_dynamic-none :
      (now now' : ℕ) (d : DynamicRoute W Regex) (groups : List Text) (req : HttpRequest) (w : W)
      (resp : HttpResponse)
      → run_dynamic policy now now' (d, groups) req w resp none
        ≡ uncached (ended (d.handler w (extract_path_parameters groups req) resp))
  unfolding run_dynamic
  run_dynamic-none now now' d groups req w resp =
      let l = look_up_by-none policy now (config_of d.cache_config) req resp in
      rw (ap (λ x. x.1) l, run_dynamic)
        (rw (ap (λ x. x.0) l) (
          run_handler-none now' d.handler (config_of d.cache_config) req
            (extract_path_parameters groups req) w resp))

  dynamic-none :
      (now now' : ℕ) (r : Router W Regex policy) (req : HttpRequest) (w : W) (resp : HttpResponse)
      → elim (first_match regex_match r.regex_callbacks req) [
        | some m ↦ run_dynamic policy now now' m req w resp none
        | none ↦ elim (first_match regex_match r.regex_handlers req) [
          | some m ↦ run_dynamic policy now now' m req w resp none
          | none ↦ ((w, none), missed resp)
        ]
      ]
        ≡ uncached (
            call_first
              (matching regex_match r.regex_callbacks req
                ++ (matching regex_match r.regex_handlers req ++ []))
              w
              resp)
  dynamic-none now now' r req w resp =
      rw
        (
          first_match-matching regex_match r.regex_callbacks
              (matching regex_match r.regex_handlers req ++ []) req w resp,
          first_match-matching regex_match r.regex_handlers [] req w resp,
        )
        (go (first_match regex_match r.regex_callbacks req)
          (first_match regex_match r.regex_handlers req))
    where
      go :
          (a b : Option (DynamicRoute W Regex × List Text))
          → elim a [
            | some m ↦ run_dynamic policy now now' m req w resp none
            | none ↦ elim b [
              | some m ↦ run_dynamic policy now now' m req w resp none
              | none ↦ ((w, none), missed resp)
            ]
          ]
            ≡ uncached (
                candidate_of regex_match a req w resp
                  (candidate_of regex_match b req w resp (w, missed resp)))
      go (some (d, g)) b = run_dynamic-none now now' d g req w resp
      go none (some (d, g)) = run_dynamic-none now now' d g req w resp
      go none none = refl

  dispatch-none :
      (now now' : ℕ) (r : Router W Regex policy) (config : Option CacheConfig) (req : HttpRequest)
      (w : W) (resp : HttpResponse)
      → dispatch policy regex_match now now' r config req w resp none
        ≡ uncached (call_first (candidates regex_match r req) w resp)
  unfolding dispatch
  dispatch-none now now' r config req w resp =
      elim (Option-cases (find_route (req.method, req.path) r.callbacks)) [
        | inr (h, e) ↦ rw (e, dispatch) (run_handler-none now' h config req req w resp)
        | inl e ↦ elim (Option-cases (find_route (req.method, req.path) r.handlers)) [
          | inr (h, k) ↦
              rw (e, dispatch) (rw (k, dispatch) (run_handler-none now' h config req req w resp))
          | inl k ↦ rw (e, dispatch) (rw (k, dispatch) (dynamic-none now now' r req w resp))
        ]
      ]

  -- With no response cache, route calls exactly one handler, the first of those that may answer the
  -- request, and ends as that one ends; it returns false, with the response and the application's
  -- state as they were, exactly if there is none.
  pub route-candidates :
      (now now' : ℕ) (r : Router W Regex policy) (req : HttpRequest) (w : W) (resp : HttpResponse)
      → r.response_cache ≡ none
      → route policy regex_match now now' r req w resp
        ≡ uncached (call_first (candidates regex_match r req) w resp)
  unfolding route
  route-candidates now now' r req w resp e =
      let config = find_route (req.method, req.path) r.route_cache_configs in
      let l : look_up_by policy now config req r.response_cache resp ≡ (none, none) =
        rw e (look_up_by-none policy now config req resp) in
      rw (ap (λ x. x.1) l, route)
        (rw (ap (λ x. x.0) l) (dispatch-none now now' r config req w resp))

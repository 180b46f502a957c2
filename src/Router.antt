-- ===== src/Router.antt =====
-- HttpServer/include/Router.hpp, RouterHandler.hpp and HttpServer/src/Router.cpp. The regular
-- expressions of the standard library are a parameter: `convert` is convertToRegex, and `regex_match` gives
-- the texts of the captured groups. A handler is what it does to the application's state `W` and the
-- response, and may throw.
pub mod Register
pub mod Dispatch
pub mod Cached
pub mod Endpoints
pub mod Lru
pub mod Tests
use cyclone_httpserver.Common.{
  ℕ, suc, Bool, true, false, ◌&&◌, Option, none, some, List, [], ◌∷◌, ◌++◌, if◌then◌else◌, ◌==◌,
}
use cyclone_httpserver.Common.Bytes.{Text, codes, text_eq}
use cyclone_httpserver.Common.Decimal.{to_text}
use cyclone_httpserver.Http.Request.{HttpRequest, set_path_params}
use cyclone_httpserver.Http.Response.{HttpResponse}
use cyclone_httpserver.Http.Types.{HttpMethod, method_number}
use cyclone_httpserver.Middleware.{Filled}
use cyclone_httpserver.ResponseCache.{
  KeyGenerationStrategy, default, custom, CacheConfig, no_caching, CachedResponse, cached_response,
  is_expired, apply_to, CachePolicy,
}
use cyclone_httpserver.Server.{Routed, found, missed, failed}

abbrev pub RouterKey : Type 0
RouterKey = HttpMethod × Text

abbrev pub key_eq : RouterKey → RouterKey → Bool
key_eq (m, path) (n, other) = method_number m == method_number n && text_eq path other

module _ {V : Type 0} where
  -- `find` and `m[key] = v` of an unordered map with such keys.
  abbrev pub find_route : RouterKey → List (RouterKey × V) → Option V
  find_route k [] = none
  find_route k ((j, v) ∷ m) = if key_eq j k then some v else find_route k m

  abbrev pub set_route : RouterKey → V → List (RouterKey × V) → List (RouterKey × V)
  set_route k v [] = (k, v) ∷ []
  set_route k v ((j, w) ∷ m) = if key_eq j k then (j, v) ∷ m else (j, w) ∷ set_route k v m

-- A callback, or the `handle` of a handler object.
abbrev pub Handler : Type 0 → Type 0
Handler W = W → HttpRequest → HttpResponse → W × Filled

-- `RouteCallbackObj` and `RouteHandlerObj`.
pub record DynamicRoute (W Regex : Type 0) : Type 0 where
  pub method : HttpMethod
  pub path_regex : Regex
  pub handler : Handler W
  pub cache_config : CacheConfig

unfoldable pub build_cache_key : HttpRequest → CacheConfig → Text
build_cache_key req config = elim config.key_strategy [
  | custom ↦ elim config.custom_key_generator [ some g ↦ g req | none ↦ by_default ]
  | default ↦ by_default
]
  where
    by_default : Text
    by_default = to_text (method_number req.method) ++ b':' ∷ req.path

-- The loop of `extractPathParameters`, from the group `i` on.
unfoldable pub extract_loop : ℕ → List Text → HttpRequest → HttpRequest
extract_loop i [] r = r
extract_loop i (m ∷ ms) r =
    extract_loop (suc i) ms (set_path_params (codes "param" ++ to_text i) m r)

unfoldable pub extract_path_parameters : List Text → HttpRequest → HttpRequest
extract_path_parameters groups r = extract_loop 1 groups r

module _ (W Regex : Type 0) (policy : CachePolicy) where
  open policy use {Store}

  pub record Router : Type 0 where
    pub route_cache_configs : List (RouterKey × CacheConfig)
    pub response_cache : Option Store
    pub callbacks : List (RouterKey × Handler W)
    pub handlers : List (RouterKey × Handler W)
    pub regex_handlers : List (DynamicRoute W Regex)
    pub regex_callbacks : List (DynamicRoute W Regex)

-- The configuration of a dynamic route, if it is enabled.
abbrev pub config_of : CacheConfig → Option CacheConfig
config_of config = if config.enabled then some config else none

module _ (policy : CachePolicy) where
  open policy use {Store, create, get, put}

  -- A response that the cache has for the request and that is not expired, applied to the given one.
  unfoldable pub look_up :
      ℕ
      → CacheConfig
      → HttpRequest
      → Option Store
      → HttpResponse
      → Option Store × Option HttpResponse
  look_up now config req none resp = (none, none)
  look_up now config req (some s) resp =
      let (s', hit) = get (build_cache_key req config) s in
      (
        some s',
        elim hit [
          | none ↦ none
          | some c ↦ if is_expired now c then none else some (apply_to c resp)
        ],
      )

  -- `responseCache_->put` of a response.
  unfoldable pub remember :
      ℕ → CacheConfig → HttpRequest → HttpResponse → Option Store → Option Store
  remember now config req resp none = none
  remember now config req resp (some s) =
      some (put (build_cache_key req config) (cached_response now resp config.ttl_seconds) s)

  -- The first part of a step: the answer from the cache, if there is a configuration.
  abbrev pub look_up_by :
      ℕ
      → Option CacheConfig
      → HttpRequest
      → Option Store
      → HttpResponse
      → Option Store × Option HttpResponse
  look_up_by now none req cache resp = (cache, none)
  look_up_by now (some config) req cache resp = look_up now config req cache resp

module _ {W : Type 0} (policy : CachePolicy) where
  open policy use {Store}

  -- The handler runs on `handed`, and its response is remembered for `req` if there is a
  -- configuration; what it throws goes to the caller.
  unfoldable pub run_handler :
      ℕ
      → Handler W
      → Option CacheConfig
      → HttpRequest
      → HttpRequest
      → W
      → HttpResponse
      → Option Store
      → (W × Option Store) × Routed
  run_handler now h config req handed w resp cache =
      let (w', end) = h w handed resp in
      elim end.thrown [
        | some t ↦ ((w', cache), failed end.result t)
        | none ↦ elim config [
          | none ↦ ((w', cache), found end.result)
          | some c ↦ ((w', remember policy now c req end.result cache), found end.result)
        ]
      ]

module _ {W Regex : Type 0} (regex_match : Regex → Text → Option (List Text)) where
  -- The loops over the dynamic routes: the first that matches, with its captured groups.
  unfoldable pub first_match :
      List (DynamicRoute W Regex) → HttpRequest → Option (DynamicRoute W Regex × List Text)
  first_match [] req = none
  first_match (d ∷ ds) req =
      if method_number d.method == method_number req.method
      then (elim (regex_match d.path_regex req.path) [
        | some groups ↦ some (d, groups)
        | none ↦ first_match ds req
      ])
      else first_match ds req

module _ {W Regex : Type 0} (policy : CachePolicy) where
  open policy use {Store}

  -- What the body of these loops does at the matching route; the clock is read at the look-up and
  -- after the handler.
  unfoldable pub run_dynamic :
      ℕ
      → ℕ
      → DynamicRoute W Regex × List Text
      → HttpRequest
      → W
      → HttpResponse
      → Option Store
      → (W × Option Store) × Routed
  run_dynamic now now' (d, groups) req w resp cache =
      let (cache', hit) = look_up_by policy now (config_of d.cache_config) req cache resp in
      elim hit [
        | some r ↦ ((w, cache'), found r)
        | none ↦
            run_handler policy now' d.handler (config_of d.cache_config) req
              (extract_path_parameters groups req) w resp cache'
      ]

  module _ (regex_match : Regex → Text → Option (List Text)) where
    -- The steps behind the look-up for a static route.
    unfoldable pub dispatch :
        ℕ
        → ℕ
        → Router W Regex policy
        → Option CacheConfig
        → HttpRequest
        → W
        → HttpResponse
        → Option Store
        → (W × Option Store) × Routed
    dispatch now now' r config req w resp cache =
        elim (find_route (req.method, req.path) r.callbacks) [
          | some h ↦ run_handler policy now' h config req req w resp cache
          | none ↦ elim (find_route (req.method, req.path) r.handlers) [
            | some h ↦ run_handler policy now' h config req req w resp cache
            | none ↦ elim (first_match regex_match r.regex_callbacks req) [
              | some m ↦ run_dynamic now now' m req w resp cache
              | none ↦ elim (first_match regex_match r.regex_handlers req) [
                | some m ↦ run_dynamic now now' m req w resp cache
                | none ↦ ((w, cache), missed resp)
              ]
            ]
          ]
        ]

    -- `route`: the application's state and the cache, and the end of the call.
    unfoldable pub route :
        ℕ → ℕ → Router W Regex policy → HttpRequest → W → HttpResponse → (W × Option Store) × Routed
    route now now' r req w resp =
        let config = find_route (req.method, req.path) r.route_cache_configs in
        let (cache', hit) = look_up_by policy now config req r.response_cache resp in
        elim hit [
          | some found_response ↦ ((w, cache'), found found_response)
          | none ↦ dispatch now now' r config req w resp cache'
        ]

-- ===== src/Router/Cached.antt =====
-- The response cache of the router: a request that is answered twice.
use cyclone_httpserver.Common.{false, ℕ, ◌≡◌, refl, ap, Option, none, some, List}
use cyclone_httpserver.Common.Bytes.{Text}
use cyclone_httpserver.Http.Request.{HttpRequest}
use cyclone_httpserver.Http.Response.{HttpResponse}
use cyclone_httpserver.ResponseCache.{
  default, CacheConfig, CachedResponse, cached_response, is_expired, apply_to, CachePolicy,
}
use cyclone_httpserver.Router.{
  Handler, Router, find_route, build_cache_key, look_up, remember, run_handler, dispatch, route,
}
use cyclone_httpserver.Server.{found}

-- With the default strategy, the key is made of the method and the path alone.
same_key :
    (config : CacheConfig) (req req' : HttpRequest)
    → config.key_strategy ≡ default
    → req'.method ≡ req.method
    → req'.path ≡ req.path
    → build_cache_key req' config ≡ build_cache_key req config
unfolding build_cache_key
same_key config req req' s m p = rw (s, m, p) refl

module _ (policy : CachePolicy) where
  open policy use {Store, get, put}

  -- What is remembered for a request is found for another one with its key.
  look_up-remember :
      (now later : ℕ) (config : CacheConfig) (req req' : HttpRequest) (resp resp' : HttpResponse)
      (s : Store)
      → ((c : CachedResponse)
          → (get (build_cache_key req config) (put (build_cache_key req config) c s)).1 ≡ some c)
      → build_cache_key req' config ≡ build_cache_key req config
      → is_expired later (cached_response now resp config.ttl_seconds) ≡ false
      → (look_up policy later config req' (remember policy now config req resp (some s)) resp').1
        ≡ some (apply_to (cached_response now resp config.ttl_seconds) resp')
  unfolding look_up remember
  look_up-remember now later config req req' resp resp' s law k x =
      rw (k, look_up) (rw (law (cached_response now resp config.ttl_seconds)) (rw x refl))

module _ {W Regex : Type 0} (policy : CachePolicy)
    (regex_match : Regex → Text → Option (List Text)) where
  open policy use {Store, get, put}

  -- A hit in the cache ends the call.
  route_hit :
      (now now' : ℕ) (r : Router W Regex policy) (req : HttpRequest) (w : W)
      (resp answer : HttpResponse) (config : CacheConfig)
      → find_route (req.method, req.path) r.route_cache_configs ≡ some config
      → (look_up policy now config req r.response_cache resp).1 ≡ some answer
      → ((route policy regex_match now now' r req w resp).1 ≡ found answer)
        × ((route policy regex_match now now' r req w resp).0.0 ≡ w)
  unfolding route
  route_hit now now' r req w resp answer config c hit = rw (c, route) (rw (hit, route) (refl, refl))

  dispatch-callback :
      (now now' : ℕ) (r : Router W Regex policy) (req : HttpRequest) (w : W) (resp : HttpResponse)
      (config : CacheConfig) (h : Handler W) (cache : Option Store)
      → find_route (req.method, req.path) r.callbacks ≡ some h
      → (h w req resp).1.thrown ≡ none
      → dispatch policy regex_match now now' r (some config) req w resp cache ≡ (
        ((h w req resp).0, remember policy now' config req (h w req resp).1.result cache),
        found (h w req resp).1.result,
      )
  unfolding dispatch run_handler
  dispatch-callback now now' r req w resp config h cache k t =
      rw (k, dispatch) (rw (t, run_handler) refl)

  route_miss :
      (now now' : ℕ) (r : Router W Regex policy) (req : HttpRequest) (w : W) (resp : HttpResponse)
      (config : CacheConfig) (h : Handler W) (s : Store)
      → find_route (req.method, req.path) r.route_cache_configs ≡ some config
      → r.response_cache ≡ some s
      → (look_up policy now config req (some s) resp).1 ≡ none
      → find_route (req.method, req.path) r.callbacks ≡ some h
      → (h w req resp).1.thrown ≡ none
      → route policy regex_match now now' r req w resp ≡ (
        (
          (h w req resp).0,
          remember policy now' config req
              (h w req resp).1.result
              (some (get (build_cache_key req config) s).0),
        ),
        found (h w req resp).1.result,
      )
  unfolding route look_up dispatch
  route_miss now now' r req w resp config h s c e miss k t =
      rw (c, route)
        (rw (e, route)
          (rw (miss, route)
            (rw c (
              rw e (
                dispatch-callback now now' r req w resp config h
                  (some (get (build_cache_key req config) s).0) k t)))))

  -- A callback is registered for a method and a path with a cache configuration of the default key
  -- strategy, and behind a look-up the cache finds what is put into it. A request that the cache has no answer for is
  -- answered by the callback, if that does not throw; a request with this method and path right behind
  -- it, before the time to live is over, is answered by the response that the callback made then, whatever
  -- its query, headers and body, and the callback does not run: the application's state stays as it is.
  pub route-cached :
      (now now' later later' : ℕ) (r : Router W Regex policy) (req req' : HttpRequest) (w w' : W)
      (resp resp' : HttpResponse) (config : CacheConfig) (h : Handler W) (s : Store)
      → ((key : Text) (c : CachedResponse) → (get key (put key c (get key s).0)).1 ≡ some c)
      → config.key_strategy ≡ default
      → find_route (req.method, req.path) r.route_cache_configs ≡ some config
      → r.response_cache ≡ some s
      → (look_up policy now config req (some s) resp).1 ≡ none
      → find_route (req.method, req.path) r.callbacks ≡ some h
      → (h w req resp).1.thrown ≡ none
      → req'.method ≡ req.method
      → req'.path ≡ req.path
      → is_expired later (cached_response now' (h w req resp).1.result config.ttl_seconds) ≡ false
      → (let first = route policy regex_match now now' r req w resp in
          let second =
            route policy regex_match later later'
              (record r { response_cache = first.0.1 })
              req'
              w'
              resp' in
          (first.1 ≡ found (h w req resp).1.result)
          × (second.1
              ≡ found (
                  apply_to (cached_response now' (h w req resp).1.result config.ttl_seconds) resp'))
          × (second.0.0 ≡ w'))
  route-cached now now' later later' r req req' w w' resp resp' config h s law d c e miss k t m p
        x =
      let first = route_miss now now' r req w resp config h s c e miss k t in
      let cache = (route policy regex_match now now' r req w resp).0.1 in
      let there = ap (λ a. a.0.1) first in
      let hit =
        look_up-remember policy now' later config req req' (h w req resp).1.result resp'
          (get (build_cache_key req config) s).0 (law (build_cache_key req config))
          (same_key config req req' d m p) x in
      let (a, b) =
        route_hit later later' (record r { response_cache = cache }) req' w' resp'
          (apply_to (cached_response now' (h w req resp).1.result config.ttl_seconds) resp') config
          (rw (m, p) c) (rw there hit) in
      (ap (λ a. a.1) first, a, b)

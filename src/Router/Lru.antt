-- ===== src/Router/Lru.antt =====
-- The response cache that the router makes: createCacheImplementation gives a KLruCache of the
-- configured size, whatever the strategy.
use cyclone_httpserver.Common.{ℕ, false, ◌≡◌, ap, ◌∙◌, Option, none, some, List, ◌==◌}
use cyclone_httpserver.Common.Bytes.{Text}
use cyclone_httpserver.Http.Request.{HttpRequest}
use cyclone_httpserver.Http.Response.{HttpResponse}
use cyclone_httpserver.LruCache
use cyclone_httpserver.LruCache.{KLruCache, room, new_cache}
use cyclone_httpserver.LruCache.Law.{get-put}
use cyclone_httpserver.LruCache.Model.{Holds}
use cyclone_httpserver.LruCache.Moves.{get-get_entry}
use cyclone_httpserver.LruCache.Run.{get-capacity}
use cyclone_httpserver.ResponseCache.{
  default, CacheConfig, CachedResponse, cached_response, is_expired, apply_to, CachePolicy,
}
use cyclone_httpserver.Router.{Handler, Router, find_route, look_up, route}
use cyclone_httpserver.Router.Cached.{route-cached}
use cyclone_httpserver.Server.{found}

-- `unset` is the value of the two nodes at the ends.
abbrev pub lru_policy : CachedResponse → CachePolicy
lru_policy unset = record {
  Store = KLruCache CachedResponse;
  create = new_cache unset;
  get = LruCache.get;
  put = LruCache.put;
}

-- Behind a look-up, a cache of a positive capacity that nodes hold finds what is put into it.
lru_finds :
    (s : KLruCache CachedResponse) (xs : List ℕ)
    → Holds s xs
    → (room s.capacity == 0) ≡ false
    → (key : Text) (c : CachedResponse)
    → (LruCache.get key (LruCache.put key c (LruCache.get key s).0)).1 ≡ some c
lru_finds s xs h p key c =
    let (ys, a, b) = get-get_entry key s xs h in
    get-put key c (LruCache.get key s).0 ys a (ap (λ n. room n == 0) (get-capacity key s) ∙ p)

module _ {W Regex : Type 0} (unset : CachedResponse)
    (regex_match : Regex → Text → Option (List Text)) where
  -- With the LRU cache of the router, of a positive capacity and in a state that nodes hold: a request for a
  -- registered callback with a cache configuration of the default key strategy, which the cache has no
  -- answer for, is answered by the callback, if that does not throw; a request with this method and
  -- path right behind it, before the time to live is over, is answered without the callback, whatever
  -- its query, headers and body: the response of its own gets the status code and the headers that
  -- the callback's response had, with its status message and its body if they are not empty, and
  -- keeps its version and its closeConnection. The application's state stays as it is.
  pub route-lru_policy :
      (now now' later later' : ℕ) (r : Router W Regex (lru_policy unset)) (req req' : HttpRequest)
      (w w' : W) (resp resp' : HttpResponse) (config : CacheConfig) (h : Handler W)
      (s : KLruCache CachedResponse) (xs : List ℕ)
      → Holds s xs
      → (room s.capacity == 0) ≡ false
      → config.key_strategy ≡ default
      → find_route (req.method, req.path) r.route_cache_configs ≡ some config
      → r.response_cache ≡ some s
      → (look_up (lru_policy unset) now config req (some s) resp).1 ≡ none
      → find_route (req.method, req.path) r.callbacks ≡ some h
      → (h w req resp).1.thrown ≡ none
      → req'.method ≡ req.method
      → req'.path ≡ req.path
      → is_expired later (cached_response now' (h w req resp).1.result config.ttl_seconds) ≡ false
      → (let first = route (lru_policy unset) regex_match now now' r req w resp in
          let second =
            route
              (lru_policy unset)
              regex_match
              later
              later'
              (record r { response_cache = first.0.1 })
              req'
              w'
              resp' in
          (first.1 ≡ found (h w req resp).1.result)
          × (second.1
              ≡ found (
                  apply_to (cached_response now' (h w req resp).1.result config.ttl_seconds) resp'))
          × (second.0.0 ≡ w'))
  route-lru_policy now now' later later' r req req' w w' resp resp' config h s xs holds size =
      route-cached (lru_policy unset) regex_match now now' later later' r req req' w w' resp resp'
        config h s (lru_finds s xs holds size)

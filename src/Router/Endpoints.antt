-- ===== src/Router/Endpoints.antt =====
-- HttpServer/include/HttpServer.hpp: the registrations that the server offers, which pass on to its router.
use cyclone_httpserver.Common.{
  true, ℕ, ◌≡◌, refl, ◌∙◌, Option, none, some, List, [], ◌∷◌, if◌then◌else◌, arith,
}
use cyclone_httpserver.Common.Bytes.{Text, text_eq_iff, text_eq_refl}
use cyclone_httpserver.Http.Request.{HttpRequest}
use cyclone_httpserver.Http.Response.{HttpResponse}
use cyclone_httpserver.Http.Types.{HttpMethod, get, post}
use cyclone_httpserver.ResponseCache.{CacheConfig, CachePolicy}
use cyclone_httpserver.Router.{Handler, Router, RouterKey, key_eq, find_route, set_route, route}
use cyclone_httpserver.Router.Dispatch.{ended, uncached, route-candidates}
use cyclone_httpserver.Router.Register.{
  register_callback, register_cached_callback, register_handler, register_cached_handler,
  add_regex_handler, add_regex_callback,
}

module _ {W Regex : Type 0} (policy : CachePolicy) where
  -- `Get` and `Post` with a callback or a handler object, without caching and with it.
  abbrev pub get_callback : Text → Handler W → Router W Regex policy → Router W Regex policy
  get_callback path h r = register_callback policy get path h r

  abbrev pub get_cached_callback :
      Text → Handler W → CacheConfig → Router W Regex policy → Router W Regex policy
  get_cached_callback path h config r = register_cached_callback policy get path h config r

  abbrev pub get_handler : Text → Handler W → Router W Regex policy → Router W Regex policy
  get_handler path h r = register_handler policy get path h r

  abbrev pub get_cached_handler :
      Text → Handler W → CacheConfig → Router W Regex policy → Router W Regex policy
  get_cached_handler path h config r = register_cached_handler policy get path h config r

  abbrev pub post_callback : Text → Handler W → Router W Regex policy → Router W Regex policy
  post_callback path h r = register_callback policy post path h r

  abbrev pub post_cached_callback :
      Text → Handler W → CacheConfig → Router W Regex policy → Router W Regex policy
  post_cached_callback path h config r = register_cached_callback policy post path h config r

  abbrev pub post_handler : Text → Handler W → Router W Regex policy → Router W Regex policy
  post_handler path h r = register_handler policy post path h r

  abbrev pub post_cached_handler :
      Text → Handler W → CacheConfig → Router W Regex policy → Router W Regex policy
  post_cached_handler path h config r = register_cached_handler policy post path h config r

  module _ (convert : Text → Regex) where
    -- `addRoute` with a handler object or a callback; without a configuration it is `CacheConfig{}`.
    abbrev pub add_route_handler :
        HttpMethod → Text → Handler W → CacheConfig → Router W Regex policy → Router W Regex policy
    add_route_handler method path h config r =
        add_regex_handler policy convert method path h config r

    abbrev pub add_route_callback :
        HttpMethod → Text → Handler W → CacheConfig → Router W Regex policy → Router W Regex policy
    add_route_callback method path h config r =
        add_regex_callback policy convert method path h config r

find_route-set_route :
    {V : Type 0} (k q : RouterKey) (v : V) (m : List (RouterKey × V))
    → find_route q (set_route k v m) ≡ (if key_eq k q then some v else find_route q m)
find_route-set_route k q v [] = refl
find_route-set_route (a, p) (b, q) v (((c, j), w) ∷ m) = ground (
  arith,
  text_eq_iff p q,
  text_eq_iff j p,
  text_eq_iff j q,
  find_route-set_route (a, p) (b, q) v m,
)

key_eq_refl : (m : HttpMethod) (p : Text) → key_eq (m, p) (m, p) ≡ true
key_eq_refl m p = ground (arith, text_eq_refl p)

module _ {W Regex : Type 0} (policy : CachePolicy)
    (regex_match : Regex → Text → Option (List Text)) where
  -- With no response cache, a request for a method and a path that registerCallback was last called with
  -- is answered by that callback, whatever else was registered before.
  pub route-register_callback :
      (now now' : ℕ) (h : Handler W) (r : Router W Regex policy) (req : HttpRequest) (w : W)
      (resp : HttpResponse)
      → r.response_cache ≡ none
      → route policy regex_match now now'
          (register_callback policy req.method req.path h r)
          req
          w
          resp
        ≡ uncached policy regex_match (ended (h w req resp))
  unfolding register_callback
  route-register_callback now now' h r req w resp e =
      let key : RouterKey = (req.method, req.path) in
      let f : find_route key (set_route key h r.callbacks) ≡ some h =
        find_route-set_route key key h r.callbacks ∙ rw (key_eq_refl req.method req.path) refl in
      route-candidates policy regex_match now now'
        (record r { callbacks = set_route key h r.callbacks }) req w resp e
      ∙ rw f refl

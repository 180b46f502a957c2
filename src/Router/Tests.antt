-- ===== src/Router/Tests.antt =====
-- A concrete router, with a cache that keeps everything.
use cyclone_httpserver.Common.{ℕ, ◌+◌, ◌≡◌, refl, List, [], ◌∷◌, some, none, true, Option}
use cyclone_httpserver.Common.Bytes.{Text, codes}
use cyclone_httpserver.Common.Decimal.{pos, to_text, digits_onto}
use cyclone_httpserver.Common.Dict.{Dict, lookup, assign}
use cyclone_httpserver.Http.Request.{HttpRequest, new_request, get_path_param}
use cyclone_httpserver.Http.Response.{new_response}
use cyclone_httpserver.Http.Tests.{ok_response}
use cyclone_httpserver.Http.Types.{get, post}
use cyclone_httpserver.ResponseCache.{
  CacheConfig, no_caching, CachedResponse, cached_response, CachePolicy, is_expired, apply_to,
}
use cyclone_httpserver.Router.{
  Handler, Router, route, extract_path_parameters, extract_loop, build_cache_key, look_up,
}
use cyclone_httpserver.LruCache
use cyclone_httpserver.LruCache.{new_cache}
use cyclone_httpserver.LruCache.Model.{new_cache-Holds}
use cyclone_httpserver.Router.Endpoints.{
  route-register_callback, post_callback, get_cached_callback,
}
use cyclone_httpserver.Router.Lru.{lru_policy, route-lru_policy}
use cyclone_httpserver.Router.Dispatch.{ended, candidates, call_first, uncached, route-candidates}
use cyclone_httpserver.Router.Register.{register_callback, register_cached_callback}
use cyclone_httpserver.Server.{found}

abbrev keep_all : CachePolicy
keep_all = record {
  Store = Dict CachedResponse;
  create = λ size. [];
  get = λ k s. (s, lookup k s);
  put = assign;
}

abbrev same : Text → Text → Option (List Text)
same pattern path = some (path ∷ [])

-- Counts its calls and answers with a fixed response.
abbrev counting : Handler ℕ
counting w req resp = (w + 1, record { result = ok_response; thrown = none })

abbrev blank : Router ℕ Text keep_all
blank = record {
  route_cache_configs = [];
  response_cache = none;
  callbacks = [];
  handlers = [];
  regex_handlers = [];
  regex_callbacks = [];
}

abbrev menu : HttpRequest
menu = record (new_request 0) { method = get; path = codes "/menu" }

abbrev minute : CacheConfig
minute = record no_caching { enabled = true; ttl_seconds = pos 60 }

route-candidates_example :
    route keep_all same 1 2 blank menu 0 (new_response true)
    ≡ uncached keep_all same (call_first (candidates same blank menu) 0 (new_response true))
route-candidates_example = route-candidates keep_all same 1 2 blank menu 0 (new_response true) refl

abbrev caching : Router ℕ Text keep_all
caching = record blank {
  route_cache_configs = ((get, codes "/menu"), minute) ∷ [];
  response_cache = some [];
  callbacks = ((get, codes "/menu"), counting) ∷ [];
}

caching_test : register_cached_callback keep_all get (codes "/menu") counting minute blank ≡ caching
unfolding register_cached_callback register_callback
caching_test = refl

-- The same path with a query, a second later.
abbrev menu_again : HttpRequest
menu_again = record menu { query_params = (codes "page", codes "2") ∷ [] }

-- The first group is the first parameter.
extract_test :
    get_path_param (codes "param1") (extract_path_parameters (codes "42" ∷ []) menu) ≡ codes "42"
unfolding extract_path_parameters extract_loop to_text digits_onto
extract_test = refl

build_cache_key_test : build_cache_key menu minute ≡ codes "1:/menu"
unfolding build_cache_key to_text digits_onto
build_cache_key_test = refl

abbrev lru_router : Router ℕ Text (lru_policy (cached_response 0 ok_response (pos 0)))
lru_router = record {
  route_cache_configs = ((get, codes "/menu"), minute) ∷ [];
  response_cache = some (new_cache (cached_response 0 ok_response (pos 0)) (pos 10));
  callbacks = ((get, codes "/menu"), counting) ∷ [];
  handlers = [];
  regex_handlers = [];
  regex_callbacks = [];
}

route-lru_policy_example :
    (let policy = lru_policy (cached_response 0 ok_response (pos 0)) in
      let first = route policy same 1 2 lru_router menu 0 (new_response true) in
      let second =
        route policy same 1_000_000_000 1_000_000_001
          (record lru_router { response_cache = first.0.1 })
          menu_again
          7
          (new_response true) in
      (first.1 ≡ found ok_response)
      × (second.1 ≡ found (apply_to (cached_response 2 ok_response (pos 60)) (new_response true)))
      × (second.0.0 ≡ 7))
unfolding look_up is_expired LruCache.get new_cache
route-lru_policy_example =
    route-lru_policy (cached_response 0 ok_response (pos 0)) same 1 2 1_000_000_000 1_000_000_001
      lru_router menu menu_again 0 7 (new_response true) (new_response true) minute counting
      (new_cache (cached_response 0 ok_response (pos 0)) (pos 10)) []
      (new_cache-Holds (cached_response 0 ok_response (pos 0)) (pos 10)) refl refl refl refl refl
      refl refl refl refl refl

route-register_callback_example :
    route keep_all same 1 2
      (register_callback keep_all get (codes "/menu") counting blank)
      menu
      0
      (new_response true)
    ≡ uncached keep_all same (ended (counting 0 menu (new_response true)))
route-register_callback_example =
    route-register_callback keep_all same 1 2 counting blank menu 0 (new_response true) refl

-- The registrations of the server, one behind the other.
endpoints_test :
    (post_callback keep_all
      (codes "/menu")
      counting
      (get_cached_callback keep_all (codes "/menu") counting minute blank)).callbacks
    ≡ ((get, codes "/menu"), counting) ∷ ((post, codes "/menu"), counting) ∷ []
unfolding register_cached_callback register_callback
endpoints_test = refl

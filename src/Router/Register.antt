-- ===== src/Router/Register.antt =====
-- HttpServer/include/Router.hpp: the registration of routes.
use cyclone_httpserver.Common.{Option, none, some, [], ◌∷◌, ◌++◌, if◌then◌else◌}
use cyclone_httpserver.Common.Bytes.{Text}
use cyclone_httpserver.Http.Types.{HttpMethod}
use cyclone_httpserver.ResponseCache.{CacheConfig, CachePolicy}
use cyclone_httpserver.Router.{RouterKey, set_route, Handler, Router}

module _ (policy : CachePolicy) where
  open policy use {Store, create}

  -- `if (!responseCache_) responseCache_ = createCacheImplementation(config)`.
  abbrev pub ensure_cache : CacheConfig → Option Store → Option Store
  ensure_cache config (some s) = some s
  ensure_cache config none = some (create config.max_size)

  abbrev pub cache_for : CacheConfig → Option Store → Option Store
  cache_for config s = if config.enabled then ensure_cache config s else s

module _ {W Regex : Type 0} (policy : CachePolicy) where
  -- The registrations, without caching and with it.
  unfoldable pub register_callback :
      HttpMethod → Text → Handler W → Router W Regex policy → Router W Regex policy
  register_callback method path h r = record r {
    callbacks = set_route (method, path) h r.callbacks;
  }

  unfoldable pub register_handler :
      HttpMethod → Text → Handler W → Router W Regex policy → Router W Regex policy
  register_handler method path h r = record r { handlers = set_route (method, path) h r.handlers }

  -- The end of the registrations with a configuration.
  abbrev pub use_config : RouterKey → CacheConfig → Router W Regex policy → Router W Regex policy
  use_config key config r =
      if config.enabled
      then record r {
        route_cache_configs = set_route key config r.route_cache_configs;
        response_cache = ensure_cache policy config r.response_cache;
      }
      else r

  unfoldable pub register_cached_callback :
      HttpMethod → Text → Handler W → CacheConfig → Router W Regex policy → Router W Regex policy
  unfolding register_callback
  register_cached_callback method path h config r =
      use_config (method, path) config (register_callback method path h r)

  unfoldable pub register_cached_handler :
      HttpMethod → Text → Handler W → CacheConfig → Router W Regex policy → Router W Regex policy
  unfolding register_handler
  register_cached_handler method path h config r =
      use_config (method, path) config (register_handler method path h r)

  module _ (convert : Text → Regex) where
    unfoldable pub add_regex_callback :
        HttpMethod → Text → Handler W → CacheConfig → Router W Regex policy → Router W Regex policy
    add_regex_callback method path h config r = record r {
      regex_callbacks =
          r.regex_callbacks
          ++ (record {
            method = method;
            path_regex = convert path;
            handler = h;
            cache_config = config;
          })
            ∷ [];
      response_cache = cache_for policy config r.response_cache;
    }

    unfoldable pub add_regex_handler :
        HttpMethod → Text → Handler W → CacheConfig → Router W Regex policy → Router W Regex policy
    add_regex_handler method path h config r = record r {
      regex_handlers =
          r.regex_handlers
          ++ (record {
            method = method;
            path_regex = convert path;
            handler = h;
            cache_config = config;
          })
            ∷ [];
      response_cache = cache_for policy config r.response_cache;
    }

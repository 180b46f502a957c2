-- ===== src/ResponseCache.antt =====
-- HttpServer/include/Cache/CacheTypes.hpp, CacheConfig.hpp, CachedResponse.hpp, KICachePolicy.hpp and
-- HttpServer/src/Cache/CachedResponse.cpp: what the router keeps of a response. The members of
-- CacheConfig that no code reads are left out. A time is a number of nanoseconds of the steady
-- clock. An allocation gives memory, so the body's buffer is its text.
pub mod Laws
use cyclone_httpserver.Common.{
  ℕ, ◌+◌, ◌*◌, Bool, true, false, Option, none, some, List, [], ◌∷◌, if◌then◌else◌, ltb,
}
use cyclone_httpserver.Common.Bytes.{Text, is_empty}
use cyclone_httpserver.Common.Decimal.{ℤ, pos, negsuc}
use cyclone_httpserver.Common.Dict.{Dict}
use cyclone_httpserver.Http.Request.{HttpRequest}
use cyclone_httpserver.Http.Response.{
  HttpResponse, add_header, set_status_code, set_status_message, set_body,
}
use cyclone_httpserver.Http.Types.{HttpStatusCode}

pub data KeyGenerationStrategy : Type 0 where
  default custom : KeyGenerationStrategy

pub record CacheConfig : Type 0 where
  pub enabled : Bool
  pub ttl_seconds : ℤ
  pub max_size : ℤ
  pub key_strategy : KeyGenerationStrategy
  -- `none` is an empty `std::function`.
  pub custom_key_generator : Option (HttpRequest → Text)

-- `CacheConfig{}`.
abbrev pub no_caching : CacheConfig
no_caching = record {
  enabled = false;
  ttl_seconds = pos 300;
  max_size = pos 1000;
  key_strategy = KeyGenerationStrategy.default;
  custom_key_generator = none;
}

-- `expiresAt` is kept as the time of the construction and the seconds that are added to it.
pub record CachedResponse : Type 0 where
  pub status_code : HttpStatusCode
  pub status_message : Text
  pub headers : Dict Text
  pub body : Text
  pub made_at : ℕ
  pub ttl_seconds : ℤ

-- The constructor from a response.
abbrev pub cached_response : ℕ → HttpResponse → ℤ → CachedResponse
cached_response now r ttl = record {
  status_code = r.status_code;
  status_message = r.status_message;
  headers = r.headers;
  body = r.body;
  made_at = now;
  ttl_seconds = ttl;
}

-- `now() > expiresAt`.
abbrev expired_at : ℕ → ℕ → ℤ → Bool
expired_at now made (pos n) = ltb (made + n * 1_000_000_000) now
expired_at now made (negsuc n) = ltb made (now + (n + 1) * 1_000_000_000)

unfoldable pub is_expired : ℕ → CachedResponse → Bool
is_expired now c = expired_at now c.made_at c.ttl_seconds

-- The loop over the headers in `applyTo`.
abbrev pub apply_headers : Dict Text → HttpResponse → HttpResponse
apply_headers [] r = r
apply_headers ((key, value) ∷ hs) r = apply_headers hs (add_header key value r)

unfoldable pub apply_to : CachedResponse → HttpResponse → HttpResponse
apply_to c r =
    let r1 = set_status_code c.status_code r in
    let r2 = if is_empty c.status_message then r1 else set_status_message c.status_message r1 in
    let r3 = if is_empty c.body then r2 else set_body c.body r2 in apply_headers c.headers r3

-- `KICachePolicy` with the cache's state passed on, and its construction with a size.
pub record CachePolicy : Type 1 where
  pub Store : Type 0
  pub create : ℤ → Store
  pub get : Text → Store → Store × Option CachedResponse
  pub put : Text → CachedResponse → Store → Store

-- ===== src/Http/Request.antt =====
-- HttpServer/include/HttpRequest.hpp and HttpServer/src/HttpRequest.cpp: a request, and the
-- parsing of its lines.
pub mod Query
use cyclone_httpserver.Common.{
  ℕ, zero, suc, ◌≡◌, refl, Bool, true, false, not, List, [], ◌∷◌, reverse, Option, none, some,
  if◌then◌else◌, length,
}
use cyclone_httpserver.Common.Bytes.{Text, codes, text_eq, cut, skip_spaces}
use cyclone_httpserver.Common.Dict.{Dict, lookup, assign, get_or}
use cyclone_httpserver.Http.Types.{
  HttpVersion, HttpMethod, invalid, get, post, put, delete, options, is_unknown, is_invalid,
  string_to_version,
}

pub record HttpRequest : Type 0 where
  pub method : HttpMethod
  pub version : HttpVersion
  pub path : Text
  pub path_params : Dict Text
  pub query_params : Dict Text
  pub recv_time : ℕ
  pub headers : Dict Text
  pub content : Text
  pub content_length : ℕ

-- The constructor. It leaves `contentLength_` unset, so the number that stands there is an
-- argument. The time is a `muduo::Timestamp`, whose default is 0.
abbrev pub new_request : ℕ → HttpRequest
new_request unset = record {
  method = invalid;
  version = HttpVersion.unknown;
  path = [];
  path_params = [];
  query_params = [];
  recv_time = 0;
  headers = [];
  content = [];
  content_length = unset;
}

unfoldable pub method_of : Text → HttpMethod
method_of s =
    if text_eq s (codes "GET")
    then get
    else if text_eq s (codes "POST")
    then post
    else if text_eq s (codes "PUT")
    then put
    else if text_eq s (codes "DELETE")
    then delete
    else if text_eq s (codes "OPTIONS")
    then options
    else invalid

-- `setMethod`; `none` is the failure of its assertion, which ends the process.
unfoldable pub set_method : Text → HttpRequest → Option (HttpRequest × Bool)
unfolding method_of
set_method s r =
    if is_invalid r.method
    then some (record r { method = method_of s }, not (is_invalid (method_of s)))
    else none

abbrev pub set_query_params : Text → Text → HttpRequest → HttpRequest
set_query_params key value r = record r { query_params = assign key value r.query_params }

abbrev pub set_path_params : Text → Text → HttpRequest → HttpRequest
set_path_params key value r = record r { path_params = assign key value r.path_params }

abbrev pub get_header : Text → HttpRequest → Text
get_header field r = get_or (lookup field r.headers) []

abbrev pub get_query_param : Text → HttpRequest → Text
get_query_param key r = get_or (lookup key r.query_params) []

abbrev pub get_path_param : Text → HttpRequest → Text
get_path_param key r = get_or (lookup key r.path_params) []

-- One `key=value` of the query string; a piece with no `=` is passed over.
unfoldable pub parse_query_param : Text → HttpRequest → HttpRequest
parse_query_param piece r = elim (cut b'=' piece) [
  | none ↦ r
  | some (key, value) ↦ set_query_params key value r
]

-- The loop of `parseQueryParams`, on the range that is left; the fuel bounds its rounds.
unfoldable pub parse_query_loop : ℕ → Text → HttpRequest → HttpRequest
parse_query_loop zero s r = r
parse_query_loop (suc fuel) [] r = r
parse_query_loop (suc fuel) (x ∷ s) r = elim (cut b'&' (x ∷ s)) [
  | none ↦ parse_query_param (x ∷ s) r
  | some (piece, rest) ↦ parse_query_loop fuel rest (parse_query_param piece r)
]

unfoldable pub parse_query_params : Text → HttpRequest → HttpRequest
parse_query_params s r = parse_query_loop (length s) s r

-- The path and the query string.
unfoldable pub set_target : Text → HttpRequest → HttpRequest
set_target target r = elim (cut b'?' target) [
  | none ↦ record r { path = target }
  | some (path, query) ↦ parse_query_params query (record r { path = path })
]

unfoldable pub set_version : Text → HttpRequest → HttpRequest × Bool
set_version s r =
    (record r { version = string_to_version s }, not (is_unknown (string_to_version s)))

-- What stands behind the first space of a request line.
unfoldable pub parse_target : Text → HttpRequest → HttpRequest × Bool
parse_target rest r = elim (cut b' ' rest) [
  | none ↦ (r, false)
  | some (target, version) ↦ set_version version (set_target target r)
]

-- `parseRequestLine`; `none` is the failed assertion of `setMethod`.
unfoldable pub parse_request_line : Text → HttpRequest → Option (HttpRequest × Bool)
parse_request_line line r = elim (cut b' ' line) [
  | none ↦ some (r, false)
  | some (method, rest) ↦ elim (set_method method r) [
    | none ↦ none
    | some (r', known) ↦ if known then some (parse_target rest r') else some (r', false)
  ]
]

-- A header's value without the white space round it.
unfoldable pub trim : Text → Text
trim s = reverse (skip_spaces (reverse (skip_spaces s)))

-- `addHeader`, with the bytes before the colon and those behind it.
unfoldable pub add_header : Text → Text → HttpRequest → HttpRequest
add_header key value r = record r { headers = assign key (trim value) r.headers }

abbrev pub set_body : Text → HttpRequest → HttpRequest
set_body body r = record r { content = body }

abbrev pub set_content_length : ℕ → HttpRequest → HttpRequest
set_content_length length r = record r { content_length = length }

-- `swap`: both requests afterwards. It exchanges neither the content nor its length.
unfoldable pub swap : HttpRequest → HttpRequest → HttpRequest × HttpRequest
swap this other = (
  record other { content = this.content; content_length = this.content_length },
  record this { content = other.content; content_length = other.content_length },
)

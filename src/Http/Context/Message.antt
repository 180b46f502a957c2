-- ===== src/Http/Context/Message.antt =====
-- A request as a client writes it, and the request that the server should make of it.
use cyclone_httpserver.Common.{
  ℕ, ◌≤◌, ◌≡◌, ◌≢◌, Bool, true, false, List, [], ◌∷◌, ◌++◌, some, length, reverse, All,
  if◌then◌else◌,
}
use cyclone_httpserver.Common.Bytes.{Text, codes, Free, skip_spaces, is_empty}
use cyclone_httpserver.Common.Decimal.{int_max, to_text}
use cyclone_httpserver.Common.Dict.{Dict, assign, lookup}
use cyclone_httpserver.Http.Request.Query.{print_query, IsPlainPair}
use cyclone_httpserver.Http.Request.{HttpRequest}
use cyclone_httpserver.Http.Types.{
  HttpMethod, invalid, HttpVersion, method_to_string, version_to_string,
}
use cyclone_httpserver.Http.Context.{needs_request_body, new_request}

pub record Message : Type 0 where
  pub method : HttpMethod
  pub version : HttpVersion
  pub path : Text
  pub query : List (Text × Text)
  pub headers : List (Text × Text)
  pub body : Text

abbrev pub target : Text → List (Text × Text) → Text
target path [] = path
target path (p ∷ ps) = path ++ b'?' ∷ print_query (p ∷ ps)

abbrev pub request_line : Message → Text
request_line m =
    method_to_string m.method ++ 32 ∷ (target m.path m.query ++ 32 ∷ version_to_string m.version)

abbrev pub header_line : Text × Text → Text
header_line (key, value) = key ++ b':' ∷ 32 ∷ value

-- A line, with CR LF behind it, in front of what follows.
abbrev pub print_line : Text → Text → Text
print_line l z = l ++ 13 ∷ 10 ∷ z

abbrev pub print_headers : List (Text × Text) → Text → Text
print_headers [] z = z
print_headers (h ∷ hs) z = print_line (header_line h) (print_headers hs z)

-- The message, with `rest` behind it.
abbrev pub print_message : Message → Text → Text
print_message m rest =
    print_line (request_line m) (print_headers m.headers (print_line [] (m.body ++ rest)))

-- No white space at either end.
abbrev pub IsTrimmed : Text → Type 0
IsTrimmed s = (skip_spaces s ≡ s) × (skip_spaces (reverse s) ≡ reverse s)

abbrev pub IsPlainHeader : Text × Text → Type 0
IsPlainHeader (key, value) = Free b':' key × Free 13 key × Free 13 value × IsTrimmed value

abbrev pub set_all : Dict Text → List (Text × Text) → Dict Text
set_all d [] = d
set_all d ((key, value) ∷ ps) = set_all (assign key value d) ps

-- A POST or PUT names the length of its body, which is an `int`; another method has none.
abbrev pub BodyFits : Bool → Message → Type 0
BodyFits true m =
    (lookup (codes "Content-Length") (set_all [] m.headers) ≡ some (to_text (length m.body)))
    × (length m.body ≤ int_max)
BodyFits false m = m.body ≡ []

pub record IsPlain (m : Message) : Type 0 where
  pub known_method : m.method ≢ invalid
  pub known_version : m.version ≢ HttpVersion.unknown
  pub path_text : Free 32 m.path × Free b'?' m.path × Free 13 m.path
  pub query_pairs : All IsPlainPair m.query
  pub query_text : Free 32 (print_query m.query) × Free 13 (print_query m.query)
  pub header_texts : All IsPlainHeader m.headers
  pub body_fits : BodyFits (needs_request_body m.method) m

-- A request with no field set but its content and the length of that, which `swap` leaves.
abbrev pub blank : Text → ℕ → HttpRequest
blank left unset = record (new_request unset) { content = left }

-- The request that the parser makes of the message in a request that was blank. A message without
-- a body leaves what stands in the content, and one that takes none what stands in its length.
abbrev pub received : Message → Text → ℕ → ℕ → HttpRequest
received m left unset time = record {
  method = m.method;
  version = m.version;
  path = m.path;
  path_params = [];
  query_params = set_all [] m.query;
  recv_time = time;
  headers = set_all [] m.headers;
  content = if is_empty m.body then left else m.body;
  content_length = if needs_request_body m.method then length m.body else unset;
}

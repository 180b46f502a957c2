-- ===== src/Http/Context/Roundtrip/Line.antt =====
-- The round of the loop that reads the request line of a printed message.
use cyclone_httpserver.Common.{
  ℕ, ◌≡◌, ◌≢◌, refl, sym, ◌∙◌, true, false, List, [], ◌∷◌, ◌++◌, some, foldl, All, All-append,
  arith, take-append_self,
}
use cyclone_httpserver.Common.Bytes.{Text, Free, cut_at, cut-Free-none, line_end_line}
use cyclone_httpserver.Http.Buffer.{bytes}
use cyclone_httpserver.Http.Request.Query.{
  print_query, IsPlainPair, set_pair, parse_query_params-print_query,
}
use cyclone_httpserver.Http.Request
use cyclone_httpserver.Http.Request.{
  HttpRequest, new_request, trim, add_header, set_target, set_version, parse_target, set_method,
  method_of,
}
use cyclone_httpserver.Http.Types.{
  HttpMethod, invalid, HttpVersion, method_to_string, version_to_string,
  string_to_version-version_to_string, is_invalid, is_unknown,
}
use cyclone_httpserver.Http.Context.{go_on, parse_step, parse_request_line, take_request_line}
use cyclone_httpserver.Http.Context.Message.{
  Message, IsPlain, request_line, print_line, target, set_all, blank,
}
use cyclone_httpserver.Http.Context.Roundtrip.Headers.{start, in_headers, drop_line}

pub set_pairs :
    (ps : List (Text × Text)) (r : HttpRequest)
    → foldl set_pair r ps ≡ record r { query_params = set_all r.query_params ps }
set_pairs [] r = refl
set_pairs (p ∷ ps) r = set_pairs ps (set_pair r p)

-- A query string that the path of a target has, or not.
pub set_target_lem :
    (path : Text) (ps : List (Text × Text)) (r : HttpRequest)
    → Free b'?' path
    → All IsPlainPair ps
    → set_target (target path ps) r
      ≡ record r { path = path; query_params = set_all r.query_params ps }
unfolding set_target
set_target_lem path [] r h k = ground (arith, cut-Free-none b'?' path h)
set_target_lem path (p ∷ ps) r h k =
    rw (cut_at b'?' path (print_query (p ∷ ps)) h, set_target)
      (parse_query_params-print_query (p ∷ ps) (record r { path = path }) k
        ∙ set_pairs (p ∷ ps) (record r { path = path }))

-- What the request line leaves in a new request.
abbrev pub line_read : Message → Text → ℕ → HttpRequest
line_read m left unset = record (blank left unset) {
  method = m.method;
  version = m.version;
  path = m.path;
  query_params = set_all [] m.query;
}

pub method_of_lem :
    (m : HttpMethod)
    → m ≢ invalid
    → (method_of (method_to_string m) ≡ m)
      × Free 32 (method_to_string m)
      × Free 13 (method_to_string m)
unfolding method_of method_to_string
method_of_lem invalid h = absurd (h refl)
method_of_lem _ h = (refl, omega arith, omega arith)

pub Free-version : (v : HttpVersion) → Free 13 (version_to_string v)
unfolding version_to_string
Free-version HttpVersion.unknown = omega arith
Free-version _ = omega arith

pub Free-target :
    (c : ℕ) (path : Text) (ps : List (Text × Text))
    → c ≢ b'?'
    → Free c path
    → Free c (print_query ps)
    → Free c (target path ps)
Free-target c path [] n h k = h
Free-target c path (p ∷ ps) n h k =
    All-append (λ x. x ≢ c) path (b'?' ∷ print_query (p ∷ ps)) h ((λ e. n (sym e)), k)

pub is_invalid_lem : (m : HttpMethod) → m ≢ invalid → is_invalid m ≡ false
is_invalid_lem m h = ground arith

pub is_unknown_lem : (v : HttpVersion) → v ≢ HttpVersion.unknown → is_unknown v ≡ false
is_unknown_lem v h = ground arith

pub request_line_lem :
    (m : Message) (left : Text) (unset : ℕ)
    → IsPlain m
    → Request.parse_request_line (request_line m) (blank left unset)
      ≡ some (line_read m left unset, true)
unfolding Request.parse_request_line set_method parse_target set_version
request_line_lem m left unset h =
    let t = target m.path m.query in
    ground (
      arith,
      cut_at 32 (method_to_string m.method) (t ++ 32 ∷ version_to_string m.version)
          (method_of_lem m.method h.known_method).1,
      method_of_lem m.method h.known_method,
      is_invalid_lem m.method h.known_method,
      cut_at 32 t (version_to_string m.version)
          (Free-target 32 m.path m.query (omega arith) h.path_text.0 h.query_text.0),
      set_target_lem m.path m.query (record (blank left unset) { method = m.method }) h.path_text.1
          h.query_pairs,
      string_to_version-version_to_string m.version,
      is_unknown_lem m.version h.known_version,
    )

pub Free-request_line : (m : Message) → IsPlain m → Free 13 (request_line m)
Free-request_line m h =
    let t = target m.path m.query in
    All-append (λ x. x ≢ 13) (method_to_string m.method)
      (32 ∷ (t ++ 32 ∷ version_to_string m.version)) (method_of_lem m.method h.known_method).2
      (
        omega arith,
        All-append (λ x. x ≢ 13) t (32 ∷ version_to_string m.version)
            (Free-target 13 m.path m.query (omega arith) h.path_text.2 h.query_text.1)
            (omega arith, Free-version m.version),
      )

abbrev pub with_time : HttpRequest → ℕ → HttpRequest
with_time r time = record r { recv_time = time }

pub line_step :
    (m : Message) (left : Text) (unset time : ℕ) (z : Text)
    → IsPlain m
    → parse_step bytes (start left unset) (print_line (request_line m) z) time
      ≡ go_on (in_headers (with_time (line_read m left unset) time)) z
unfolding parse_step parse_request_line take_request_line
line_step m left unset time z h =
    let l = request_line m in
    ground (
      arith,
      line_end_line l z (Free-request_line m h),
      take-append_self l (13 ∷ 10 ∷ z),
      drop_line l z,
      request_line_lem m left unset h,
    )

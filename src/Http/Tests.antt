-- ===== src/Http/Tests.antt =====
-- Concrete requests and responses.
use cyclone_httpserver.Common.{
  ℕ, ◌≡◌, refl, List, [], ◌∷◌, ◌++◌, true, false, some, arith, foldl, none,
}
use cyclone_httpserver.Common.Decimal.{to_text, digits_onto}
use cyclone_httpserver.Common.Bytes.{Free, cut, Free-cut-none, Text, codes, Free-cut-none}
use cyclone_httpserver.Http.Buffer.{bytes}
use cyclone_httpserver.Http.Context.{HttpContext, Step, parse_request, new_context, reset, is_good}
use cyclone_httpserver.Http.Context.Message.{Message, IsPlain, print_message, received}
use cyclone_httpserver.Http.Context.Resume.{push}
use cyclone_httpserver.Http.Context.Pieces.{joined, feed, feed-parse_request, parse_request_total}
use cyclone_httpserver.Http.Context.Total.{continues}
use cyclone_httpserver.Http.Context.Roundtrip.{parse_request-print_message, parse_request-reset}
use cyclone_httpserver.Http.Context.Roundtrip.Headers.{completed}
use cyclone_httpserver.Http.Context.View.{view_option}
use cyclone_httpserver.Http.Request.{new_request, parse_query_params}
use cyclone_httpserver.Http.Request.Query.{
  pieces, print_query, set_pair, parse_query_params-print_query,
}
use cyclone_httpserver.Http.Response.{HttpResponse, append_to_buffer, status_start}
use cyclone_httpserver.Http.Response.Read.{read_response, read_response-append_to_buffer}
use cyclone_httpserver.Http.Types.{
  HttpStatusCode, got_all, http_1_1, get, post, method_to_string, version_to_string,
}

pub free : (c : ℕ) (s : Text) → cut c s ≡ none → Free c s
free c s h = Free-cut-none c s h

abbrev pub post_message : Message
post_message = record {
  method = post;
  version = http_1_1;
  path = codes "/chat";
  query = (codes "id", codes "7") ∷ (codes "q", codes "a=b") ∷ [];
  headers = (codes "Host", codes "localhost") ∷ (codes "Content-Length", codes "2") ∷ [];
  body = codes "hi";
}

abbrev pub get_message : Message
get_message = record {
  method = get;
  version = http_1_1;
  path = codes "/menu";
  query = [];
  headers = [];
  body = [];
}

pub post_message-IsPlain : IsPlain post_message
unfolding to_text digits_onto
post_message-IsPlain = record {
  known_method = ground arith;
  known_version = ground arith;
  path_text =
      (free 32 (codes "/chat") refl, free b'?' (codes "/chat") refl, free 13 (codes "/chat") refl);
  query_pairs = (
    (free b'=' (codes "id") refl, free b'&' (codes "id") refl, free b'&' (codes "7") refl),
    ((free b'=' (codes "q") refl, free b'&' (codes "q") refl, free b'&' (codes "a=b") refl), tt),
  );
  query_text = (free 32 (codes "id=7&q=a=b") refl, free 13 (codes "id=7&q=a=b") refl);
  header_texts = (
    (
      free b':' (codes "Host") refl,
      free 13 (codes "Host") refl,
      free 13 (codes "localhost") refl,
      (refl, refl),
    ),
    (
      (
        free b':' (codes "Content-Length") refl,
        free 13 (codes "Content-Length") refl,
        free 13 (codes "2") refl,
        (refl, refl),
      ),
      tt,
    ),
  );
  body_fits = (refl, omega arith);
}

pub get_message-IsPlain : IsPlain get_message
get_message-IsPlain = record {
  known_method = ground arith;
  known_version = ground arith;
  path_text =
      (free 32 (codes "/menu") refl, free b'?' (codes "/menu") refl, free 13 (codes "/menu") refl);
  query_pairs = tt;
  query_text = (tt, tt);
  header_texts = tt;
  body_fits = refl;
}

-- The bytes of the message, with the start of another behind it.
abbrev behind : Text
behind = codes "GET /"

parse_request-print_message_example :
    view_option bytes (parse_request bytes (new_context 9) (print_message post_message behind) 5)
    ≡ some (completed (received post_message [] 9 5) behind)
parse_request-print_message_example =
    parse_request-print_message bytes post_message 9 5 (print_message post_message behind) behind
      post_message-IsPlain refl

-- The context that the request above leaves.
abbrev done : HttpContext
done = record { state = got_all; request = received post_message [] 9 5 }

parse_request-reset_example :
    view_option bytes (parse_request bytes (reset done) (print_message get_message []) 6)
    ≡ some (completed (received get_message (codes "hi") 2 6) [])
parse_request-reset_example =
    parse_request-reset bytes done get_message 6 (print_message get_message []) []
      get_message-IsPlain refl

abbrev menu_pieces : List Text
menu_pieces = codes "enu HT" ∷ codes "TP/1.1" ∷ (13 ∷ 10 ∷ 13 ∷ 10 ∷ []) ∷ []

-- How the parse of all of them ends.
abbrev got_menu : Step Text
got_menu = completed (received get_message [] 0 5) []

feed-parse_request_example :
    (is_good got_menu.verdict ≡ true
      → view_option bytes (feed bytes (new_context 0) (codes "GET /m") menu_pieces 5)
        ≡ some got_menu)
    × (is_good got_menu.verdict ≡ false
        → (first : List Text) × (others : List Text) × (here : Step Text) × (menu_pieces
            ≡ first ++ others)
          × (view_option bytes (feed bytes (new_context 0) (codes "GET /m") first 5) ≡ some here)
          × (push (joined others) here ≡ got_menu))
unfolding method_to_string version_to_string
feed-parse_request_example =
    feed-parse_request bytes (new_context 0) (codes "GET /m") menu_pieces 5 got_menu (
      parse_request-print_message bytes get_message 0 5 (print_message get_message []) []
        get_message-IsPlain refl)

parse_request_total_example :
    (s : Step Text) × (parse_request bytes (new_context 0) (codes "GET /m") 5 ≡ some s)
    × (continues s ≡ false)
parse_request_total_example = parse_request_total bytes (new_context 0) (codes "GET /m") 5

abbrev pairs : List (Text × Text)
pairs = (codes "id", codes "7") ∷ (codes "q", codes "a=b") ∷ []

parse_query_params-print_query_example :
    parse_query_params (print_query pairs) (new_request 0) ≡ foldl set_pair (new_request 0) pairs
parse_query_params-print_query_example =
    parse_query_params-print_query pairs (new_request 0) post_message-IsPlain.query_pairs

-- Pieces without an equals sign set nothing.
pieces_test : pieces (codes "a=1&&b&") ≡ codes "a=1" ∷ [] ∷ codes "b" ∷ []
unfolding pieces
pieces_test = refl

abbrev pub ok_response : HttpResponse
ok_response = record {
  http_version = http_1_1;
  status_code = HttpStatusCode.ok;
  status_message = codes "OK";
  close_connection = true;
  headers = (codes "Server", codes "x") ∷ [];
  body = codes "hi";
}

read_response-append_to_buffer_example :
    read_response (append_to_buffer bytes ok_response [])
    ≡ some (record {
      version = version_to_string http_1_1;
      code = to_text 200;
      reason = codes "OK";
      fields = (codes "Connection", codes "close") ∷ (codes "Server", codes "x") ∷ [];
      body = codes "hi";
    })
read_response-append_to_buffer_example =
    read_response-append_to_buffer bytes ok_response [] refl (free 13 (codes "OK") refl) (
      (free b':' (codes "Server") refl, free 13 (codes "Server") refl, free 13 (codes "x") refl),
      tt,
    )

status_start_test : status_start ok_response ≡ codes "HTTP/1.1 200 "
unfolding status_start version_to_string to_text digits_onto
status_start_test = refl

-- ===== src/Http/Response.antt =====
-- HttpServer/include/HttpResponse.hpp and HttpServer/src/HttpResponse.cpp: a response, and its
-- bytes. The members isFile_ and filePath_ are left out: no code reads or writes them.
pub mod Headers
pub mod Wire
pub mod Read
use cyclone_httpserver.Common.{ℕ, Bool, true, false, List, [], ◌∷◌, ◌++◌, if◌then◌else◌}
use cyclone_httpserver.Common.Bytes.{Text, codes}
use cyclone_httpserver.Common.Decimal.{to_text}
use cyclone_httpserver.Common.Dict.{Dict, assign_sorted}
use cyclone_httpserver.Http.Buffer.{BufferApi}
use cyclone_httpserver.Http.Types.{
  HttpVersion, http_1_1, HttpStatusCode, status_number, version_to_string,
}

pub record HttpResponse : Type 0 where
  pub http_version : HttpVersion
  pub status_code : HttpStatusCode
  pub status_message : Text
  pub close_connection : Bool
  pub headers : Dict Text
  pub body : Text

abbrev pub new_response : Bool → HttpResponse
new_response close = record {
  http_version = http_1_1;
  status_code = HttpStatusCode.unknown;
  status_message = [];
  close_connection = close;
  headers = [];
  body = [];
}

abbrev pub set_status_code : HttpStatusCode → HttpResponse → HttpResponse
set_status_code code r = record r { status_code = code }

abbrev pub set_status_message : Text → HttpResponse → HttpResponse
set_status_message message r = record r { status_message = message }

abbrev pub set_close_connection : Bool → HttpResponse → HttpResponse
set_close_connection on r = record r { close_connection = on }

abbrev pub set_body : Text → HttpResponse → HttpResponse
set_body body r = record r { body = body }

unfoldable pub add_header : Text → Text → HttpResponse → HttpResponse
add_header key value r = record r { headers = assign_sorted key value r.headers }

unfoldable pub set_content_type : Text → HttpResponse → HttpResponse
unfolding add_header
set_content_type = add_header (codes "Content-Type")

unfoldable pub set_content_length : ℕ → HttpResponse → HttpResponse
unfolding add_header
set_content_length n = add_header (codes "Content-Length") (to_text n)

abbrev pub set_status_line : HttpVersion → HttpStatusCode → Text → HttpResponse → HttpResponse
set_status_line version code message r = record r {
  http_version = version;
  status_code = code;
  status_message = message;
}

-- What `snprintf` formats by "%s %d ".
unfoldable pub status_start : HttpResponse → Text
status_start r =
    version_to_string r.http_version ++ 32 ∷ (to_text (status_number r.status_code) ++ 32 ∷ [])

abbrev pub connection_line : Bool → Text
connection_line true = codes "Connection: close" ++ 13 ∷ 10 ∷ []
connection_line false = codes "Connection: Keep-Alive" ++ 13 ∷ 10 ∷ []

module _ (api : BufferApi) where
  open api use {Buf, append}

  -- The loop over the headers.
  unfoldable pub append_headers : Dict Text → Buf → Buf
  append_headers [] b = b
  append_headers ((key, value) ∷ hs) b =
      append_headers hs (append (13 ∷ 10 ∷ []) (append value (append (codes ": ") (append key b))))

  -- `appendToBuffer`. The formatted text fits the 32 bytes that are there for it.
  unfoldable pub append_to_buffer : HttpResponse → Buf → Buf
  append_to_buffer r b = append r.body (
      append (13 ∷ 10 ∷ []) (
        append_headers r.headers (
          append (connection_line r.close_connection)
            (append (13 ∷ 10 ∷ []) (append r.status_message (append (status_start r) b))))))

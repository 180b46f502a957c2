-- ===== src/Http/Response/Wire.antt =====
-- The bytes of a response.
use cyclone_httpserver.Common.{◌+◌, ◌≤◌, ◌≡◌, sym, ◌∙◌, [], ◌∷◌, ◌++◌, length, length-append, arith}
use mathlib.Core.List.{append_assoc, append-nil}
use cyclone_httpserver.Common.Bytes.{Text}
use cyclone_httpserver.Common.Decimal.{to_text}
use cyclone_httpserver.Common.Dict.{Dict}
use cyclone_httpserver.Http.Buffer.{BufferApi}
use cyclone_httpserver.Http.Types.{HttpVersion, HttpStatusCode, status_number, version_to_string}
use cyclone_httpserver.Http.Response.{
  HttpResponse, status_start, connection_line, append_headers, append_to_buffer,
}

abbrev pub header_lines : Dict Text → Text
header_lines [] = []
header_lines ((key, value) ∷ hs) = key ++ (58 ∷ 32 ∷ (value ++ (13 ∷ 10 ∷ header_lines hs)))

-- The whole response, as one text.
abbrev pub wire : HttpResponse → Text
wire r =
    status_start r
    ++ (r.status_message
        ++ (13
            ∷ 10
            ∷ (connection_line r.close_connection
                ++ (header_lines r.headers ++ (13 ∷ 10 ∷ r.body)))))

module _ (api : BufferApi) where
  open api use {Buf, content, append, content-append}

  append_headers-content :
      (hs : Dict Text) (b : Buf) → content (append_headers api hs b) ≡ content b ++ header_lines hs
  unfolding append_headers
  append_headers-content [] b = sym (append-nil (content b))
  append_headers-content ((key, value) ∷ hs) b =
      append_headers-content hs _ ∙ simp (content-append, append_assoc)

  -- appendToBuffer puts exactly the text of the response behind what the buffer holds: the status
  -- line, the Connection header, one line for each other header in the order of the map, an empty
  -- line and the body.
  pub append_to_buffer-wire :
      (r : HttpResponse) (b : Buf) → content (append_to_buffer api r b) ≡ content b ++ wire r
  unfolding append_to_buffer
  append_to_buffer-wire r b = simp (content-append, append_headers-content, append_assoc)

length-version : (v : HttpVersion) → length (version_to_string v) ≤ 8
unfolding version_to_string
length-version HttpVersion.unknown = omega arith
length-version _ = omega arith

length-status : (c : HttpStatusCode) → length (to_text (status_number c)) ≤ 3
unfolding to_text
length-status HttpStatusCode.unknown = omega arith
length-status _ = omega arith

-- For every version and status code, the text that snprintf formats, with its final zero byte, fits the
-- buffer of 32 bytes, so the length that appendToBuffer takes from it is that of the text.
pub status_start_fits : (r : HttpResponse) → length (status_start r) + 1 ≤ 32
unfolding status_start
status_start_fits r = omega (
  arith,
  length-append (version_to_string r.http_version)
      (32 ∷ (to_text (status_number r.status_code) ++ 32 ∷ [])),
  length-append (to_text (status_number r.status_code)) (32 ∷ []),
  length-version r.http_version,
  length-status r.status_code,
)

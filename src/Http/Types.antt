-- ===== src/Http/Types.antt =====
-- HttpServer/include/HttpTypes.hpp: the enumerations, and their texts.
use cyclone_httpserver.Common.{ℕ, ◌≡◌, refl, Bool, true, false, if◌then◌else◌}
use cyclone_httpserver.Common.Bytes.{Text, codes, text_eq}

pub data HttpVersion : Type 0 where
  unknown http_1_0 http_1_1 http_2_0 http_3_0 : HttpVersion

pub data HttpMethod : Type 0 where
  invalid get post put delete options : HttpMethod

pub data HttpRequestParseState : Type 0 where
  expect_request_line expect_headers expect_body got_all : HttpRequestParseState

pub data HttpStatusCode : Type 0 where
  unknown ok no_content moved_permanently bad_request unauthorized forbidden not_found conflict
        internal_server_error :
      HttpStatusCode

-- `static_cast<int>` of a status code.
abbrev pub status_number : HttpStatusCode → ℕ
status_number HttpStatusCode.unknown = 0
status_number HttpStatusCode.ok = 200
status_number HttpStatusCode.no_content = 204
status_number HttpStatusCode.moved_permanently = 301
status_number HttpStatusCode.bad_request = 400
status_number HttpStatusCode.unauthorized = 401
status_number HttpStatusCode.forbidden = 403
status_number HttpStatusCode.not_found = 404
status_number HttpStatusCode.conflict = 409
status_number HttpStatusCode.internal_server_error = 500

-- `static_cast<int>` of a method.
abbrev pub method_number : HttpMethod → ℕ
method_number HttpMethod.invalid = 0
method_number HttpMethod.get = 1
method_number HttpMethod.post = 2
method_number HttpMethod.put = 3
method_number HttpMethod.delete = 4
method_number HttpMethod.options = 5

unfoldable pub version_to_string : HttpVersion → Text
version_to_string HttpVersion.http_1_0 = codes "HTTP/1.0"
version_to_string HttpVersion.http_1_1 = codes "HTTP/1.1"
version_to_string HttpVersion.http_2_0 = codes "HTTP/2.0"
version_to_string HttpVersion.http_3_0 = codes "HTTP/3.0"
version_to_string HttpVersion.unknown = codes "Unknown"

unfoldable pub method_to_string : HttpMethod → Text
method_to_string HttpMethod.delete = codes "DELETE"
method_to_string HttpMethod.get = codes "GET"
method_to_string HttpMethod.invalid = codes "INVALID"
method_to_string HttpMethod.options = codes "OPTIONS"
method_to_string HttpMethod.post = codes "POST"
method_to_string HttpMethod.put = codes "PUT"

unfoldable pub string_to_version : Text → HttpVersion
string_to_version s =
    if text_eq s (codes "HTTP/1.0")
    then HttpVersion.http_1_0
    else if text_eq s (codes "HTTP/1.1")
    then HttpVersion.http_1_1
    else if text_eq s (codes "HTTP/2.0")
    then HttpVersion.http_2_0
    else if text_eq s (codes "HTTP/3.0")
    then HttpVersion.http_3_0
    else HttpVersion.unknown

abbrev pub is_unknown : HttpVersion → Bool
is_unknown HttpVersion.unknown = true
is_unknown _ = false

abbrev pub is_invalid : HttpMethod → Bool
is_invalid HttpMethod.invalid = true
is_invalid _ = false

-- A version is read back from its text.
pub string_to_version-version_to_string :
    (v : HttpVersion) → string_to_version (version_to_string v) ≡ v
unfolding string_to_version version_to_string
string_to_version-version_to_string HttpVersion.unknown = refl
string_to_version-version_to_string _ = refl

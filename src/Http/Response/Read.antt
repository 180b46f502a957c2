-- ===== src/Http/Response/Read.antt =====
-- What a client reads of the bytes of a response.
use cyclone_httpserver.Common.{
  ℕ, zero, suc, ◌≤◌, ◌<◌, ◌≡◌, ◌≢◌, refl, ap, sym, ◌∙◌, Bool, true, false, Option, none, some, [],
  ◌∷◌, ◌++◌, length, length-append, arith, All, if◌then◌else◌,
}
use mathlib.Core.List.{append_assoc}
use cyclone_httpserver.Common.Bytes.{Text, codes, cut, cut_at, Free, is_empty, strip_prefix}
use cyclone_httpserver.Common.Decimal.{to_text, Digits, to_text-Digits}
use cyclone_httpserver.Common.Dict.{Dict}
use cyclone_httpserver.Http.Buffer.{BufferApi}
use cyclone_httpserver.Http.Types.{HttpVersion, status_number, version_to_string}
use cyclone_httpserver.Http.Response.{HttpResponse, status_start, connection_line, append_to_buffer}
use cyclone_httpserver.Http.Response.Wire.{header_lines, wire, append_to_buffer-wire}

-- The parts of a response: the texts of its status line, the fields in their order, and what is behind the
-- empty line.
pub record Reply : Type 0 where
  pub version : Text
  pub code : Text
  pub reason : Text
  pub fields : Dict Text
  pub body : Text

abbrev and_then : {A B : Type 0} → Option A → (A → Option B) → Option B
and_then none f = none
and_then (some a) f = f a

-- A line up to CR LF, and what is behind it.
unfoldable pub read_line : Text → Option (Text × Text)
read_line s =
    and_then (cut 13 s) λ (line, s1). and_then (strip_prefix (10 ∷ []) s1) λ s2. some (line, s2)

unfoldable pub read_field : Text → Option (Text × Text)
read_field line =
    and_then (cut b':' line)
      λ (name, s1). and_then (strip_prefix (codes " ") s1) λ value. some (name, value)

-- The fields up to the empty line, with fuel for the lines.
unfoldable pub read_fields : ℕ → Text → Option (Dict Text × Text)
read_fields zero s = none
read_fields (suc fuel) s = and_then (read_line s) λ (line, s1).
    let rest = read_fields fuel s1 in
    if is_empty line
    then some ([], s1)
    else and_then (read_field line)
        λ (name, value). and_then rest λ (fields, body). some ((name, value) ∷ fields, body)

unfoldable pub read_response : Text → Option Reply
read_response s = and_then (cut b' ' s) λ (version, s1). and_then (cut b' ' s1) λ (code, s2).
    and_then (read_line s2) λ (reason, s3). and_then (read_fields (length s3) s3) λ (fields, body).
      some
        (record { version = version; code = code; reason = reason; fields = fields; body = body })

-- A field that keeps to its line.
abbrev pub IsField : Text × Text → Type 0
IsField (name, value) = Free b':' name × Free 13 name × Free 13 value

read_line_at : (l s : Text) → Free 13 l → read_line (l ++ 13 ∷ 10 ∷ s) ≡ some (l, s)
unfolding read_line
read_line_at l s h = rw (cut_at 13 l (10 ∷ s) h) refl

Free-join :
    (c : ℕ) (s t : Text) → c ≢ b':' → c ≢ 32 → Free c s → Free c t → Free c (s ++ 58 ∷ 32 ∷ t)
Free-join c [] t m n h k = ((λ e. m (sym e)), ((λ e. n (sym e)), k))
Free-join c (x ∷ s) t m n h k = (h.0, Free-join c s t m n h.1 k)

join_not_empty : (s t : Text) → is_empty (s ++ 58 ∷ t) ≡ false
join_not_empty [] t = refl
join_not_empty (x ∷ s) t = refl

read_field_at :
    (name value : Text) → Free b':' name → read_field (name ++ 58 ∷ 32 ∷ value) ≡ some (name, value)
unfolding read_field
read_field_at name value h = rw (cut_at b':' name (32 ∷ value) h) refl

-- One field, and the others.
fields_more :
    (fuel : ℕ) (name value s : Text) {r : Dict Text × Text}
    → IsField (name, value)
    → read_fields fuel s ≡ some r
    → read_fields (suc fuel) (name ++ (58 ∷ 32 ∷ (value ++ (13 ∷ 10 ∷ s))))
      ≡ some ((name, value) ∷ r.0, r.1)
unfolding read_fields
fields_more fuel name value s h e =
    let line : Text = name ++ 58 ∷ 32 ∷ value in
    let whole : name ++ (58 ∷ 32 ∷ (value ++ (13 ∷ 10 ∷ s))) ≡ line ++ 13 ∷ 10 ∷ s =
      sym (append_assoc name (58 ∷ 32 ∷ value) (13 ∷ 10 ∷ s)) in
    ap (read_fields (suc fuel)) whole
    ∙ rw
        (
          read_line_at line s
              (Free-join 13 name value (λ z. omega arith) (λ z. omega arith) h.1 h.2),
          join_not_empty name (32 ∷ value),
          read_field_at name value h.0,
          e,
          read_fields,
        )
        refl

fields_end : (fuel : ℕ) (s : Text) → read_fields (suc fuel) (13 ∷ 10 ∷ s) ≡ some ([], s)
unfolding read_fields
fields_end fuel s = rw (read_line_at [] s tt, read_fields) refl

read_fields-header_lines :
    (hs : Dict Text) (fuel : ℕ) (body : Text)
    → All IsField hs
    → length hs < fuel
    → read_fields fuel (header_lines hs ++ (13 ∷ 10 ∷ body)) ≡ some (hs, body)
read_fields-header_lines hs zero body h lt = absurd (omega arith)
read_fields-header_lines [] (suc fuel) body h lt = fields_end fuel body
read_fields-header_lines ((name, value) ∷ hs) (suc fuel) body h lt =
    let tail : Text = 13 ∷ 10 ∷ header_lines hs in
    ap (read_fields (suc fuel)) (
      append_assoc name (58 ∷ 32 ∷ (value ++ tail)) (13 ∷ 10 ∷ body)
      ∙ ap (λ t. name ++ (58 ∷ 32 ∷ t)) (append_assoc value tail (13 ∷ 10 ∷ body)))
    ∙ fields_more fuel name value (header_lines hs ++ (13 ∷ 10 ∷ body)) h.0
        (read_fields-header_lines hs fuel body h.1 (omega arith))

length-header_lines : (hs : Dict Text) → length hs ≤ length (header_lines hs)
length-header_lines [] = omega arith
length-header_lines ((name, value) ∷ hs) = omega (
  arith,
  length-header_lines hs,
  length-append name (58 ∷ 32 ∷ (value ++ (13 ∷ 10 ∷ header_lines hs))),
  length-append value (13 ∷ 10 ∷ header_lines hs),
)

-- The field that `appendToBuffer` writes before the others.
abbrev pub connection_field : Bool → Text × Text
connection_field close = (codes "Connection", if close then codes "close" else codes "Keep-Alive")

connection_field-IsField : (close : Bool) → IsField (connection_field close)
connection_field-IsField true = ground arith
connection_field-IsField false = ground arith

connection_line-header_lines :
    (close : Bool) (hs : Dict Text) (s : Text)
    → connection_line close ++ (header_lines hs ++ s)
      ≡ header_lines (connection_field close ∷ hs) ++ s
connection_line-header_lines true hs s = refl
connection_line-header_lines false hs s = refl

version_to_string-Free : (v : HttpVersion) → Free b' ' (version_to_string v)
unfolding version_to_string
version_to_string-Free HttpVersion.http_1_0 = ground arith
version_to_string-Free HttpVersion.http_1_1 = ground arith
version_to_string-Free HttpVersion.http_2_0 = ground arith
version_to_string-Free HttpVersion.http_3_0 = ground arith
version_to_string-Free HttpVersion.unknown = ground arith

Digits-Free : (s : Text) → Digits s → Free b' ' s
Digits-Free [] d = tt
Digits-Free (x ∷ s) d = (λ e. ground (arith, d.0), Digits-Free s d.1)

read_fields-wire :
    (r : HttpResponse)
    → All IsField r.headers
    → (let s =
          connection_line r.close_connection ++ (header_lines r.headers ++ (13 ∷ 10 ∷ r.body)) in
        read_fields (length s) s ≡ some (connection_field r.close_connection ∷ r.headers, r.body))
read_fields-wire r h =
    let hs : Dict Text = connection_field r.close_connection ∷ r.headers in
    let s : Text = header_lines hs ++ (13 ∷ 10 ∷ r.body) in
    let e : connection_line r.close_connection ++ (header_lines r.headers ++ (13 ∷ 10 ∷ r.body))
        ≡ s =
      connection_line-header_lines r.close_connection r.headers (13 ∷ 10 ∷ r.body) in
    ap (λ t. read_fields (length t) t) e
    ∙ read_fields-header_lines hs (length s) r.body (connection_field-IsField r.close_connection, h)
        (omega (arith, length-header_lines hs, length-append (header_lines hs) (13 ∷ 10 ∷ r.body)))

abbrev pub as_read : HttpResponse → Reply
as_read r = record {
  version = version_to_string r.http_version;
  code = to_text (status_number r.status_code);
  reason = r.status_message;
  fields = connection_field r.close_connection ∷ r.headers;
  body = r.body;
}

read_response-wire :
    (r : HttpResponse)
    → Free 13 r.status_message
    → All IsField r.headers
    → read_response (wire r) ≡ some (as_read r)
unfolding read_response status_start
read_response-wire r message fields =
    let version : Text = version_to_string r.http_version in
    let code : Text = to_text (status_number r.status_code) in
    let s : Text =
      connection_line r.close_connection ++ (header_lines r.headers ++ (13 ∷ 10 ∷ r.body)) in
    let x : Text = r.status_message ++ (13 ∷ 10 ∷ s) in
    ap read_response (
      append_assoc version (32 ∷ (code ++ 32 ∷ [])) x
      ∙ ap (λ t. version ++ (32 ∷ t)) (append_assoc code (32 ∷ []) x))
    ∙ rw
        (
          cut_at b' ' version (code ++ 32 ∷ x) (version_to_string-Free r.http_version),
          cut_at b' ' code x (Digits-Free code (to_text-Digits (status_number r.status_code))),
          read_line_at r.status_message s message,
          read_fields-wire r fields,
          read_response,
        )
        refl

module _ (api : BufferApi) where
  open api use {Buf, content}

  -- What appendToBuffer puts into an empty buffer, a client reads back as one response: the texts of the version and of
  -- the status code, the status message, the field Connection with "close" or "Keep-Alive" and behind it
  -- the fields of the map in their order, and the body, whatever its bytes. The status message has no
  -- CR, and the headers have no CR and no colon in their names.
  pub read_response-append_to_buffer :
      (r : HttpResponse) (b : Buf)
      → content b ≡ []
      → Free 13 r.status_message
      → All IsField r.headers
      → read_response (content (append_to_buffer api r b))
        ≡ some (record {
          version = version_to_string r.http_version;
          code = to_text (status_number r.status_code);
          reason = r.status_message;
          fields =
              (codes "Connection", if r.close_connection then codes "close" else codes "Keep-Alive")
              ∷ r.headers;
          body = r.body;
        })
  read_response-append_to_buffer r b empty message fields =
      ap read_response (append_to_buffer-wire api r b ∙ ap (λ t. t ++ wire r) empty)
      ∙ read_response-wire r message fields

-- ===== src/ResponseCache/Laws.antt =====
-- A cached response, applied to a new one.
use cyclone_httpserver.Common.{
  Bool, true, false, ℕ, ◌≡◌, ap, ◌∙◌, refl, [], ◌∷◌, ◌++◌, arith, if◌then◌else◌,
}
use mathlib.Core.List.{append_assoc, append-nil}
use cyclone_httpserver.Common.Bytes.{Text, text_eq, is_empty}
use cyclone_httpserver.Common.Decimal.{ℤ}
use cyclone_httpserver.Common.Dict.{Dict, text_lt, assign_sorted}
use cyclone_httpserver.Common.Dict.Order.{IsOrdered, Below}
use cyclone_httpserver.Http.Response.{
  HttpResponse, new_response, add_header, set_status_code, set_status_message, set_body,
}
use cyclone_httpserver.Http.Types.{http_1_1}
use cyclone_httpserver.ResponseCache.{cached_response, apply_headers, apply_to}

text_lt_irrefl : (s : Text) → text_lt s s ≡ false
text_lt_irrefl [] = refl
text_lt_irrefl (x ∷ s) = ground (arith, text_lt_irrefl s)

text_lt_trans : (a b c : Text) → text_lt a b ≡ true → text_lt b c ≡ true → text_lt a c ≡ true
text_lt_trans a b [] h k = k
text_lt_trans a [] (z ∷ c) h k = ground arith
text_lt_trans [] (y ∷ b) (z ∷ c) h k = refl
text_lt_trans (x ∷ a) (y ∷ b) (z ∷ c) h k = ground (arith, text_lt_trans a b c)

text_lt_ne : (a b : Text) → text_lt a b ≡ true → (text_eq a b ≡ false) × (text_lt b a ≡ false)
text_lt_ne a [] h = ground arith
text_lt_ne [] (y ∷ b) h = ground arith
text_lt_ne (x ∷ a) (y ∷ b) h = ground (arith, text_lt_ne a b)

-- Every key of the first map is below the first key of the second.
abbrev AllBelow : Dict Text → Text → Type 0
AllBelow [] k = Unit
AllBelow ((j, v) ∷ m) k = (text_lt j k ≡ true) × AllBelow m k

-- A key above all others goes to the end.
assign_sorted-append :
    (k v : Text) (m : Dict Text) → AllBelow m k → assign_sorted k v m ≡ m ++ (k, v) ∷ []
assign_sorted-append k v [] h = refl
assign_sorted-append k v ((j, w) ∷ m) h =
    ground (arith, text_lt_ne j k h.0, assign_sorted-append k v m h.1)

AllBelow-append :
    (m : Dict Text) (j v k : Text)
    → AllBelow m j
    → text_lt j k ≡ true
    → AllBelow (m ++ (j, v) ∷ []) k
AllBelow-append [] j v k h l = (l, tt)
AllBelow-append ((i, w) ∷ m) j v k h l = (text_lt_trans i j k h.0 l, AllBelow-append m j v k h.1 l)

-- The keys of the first map are below those of the second, which is in order.
abbrev Fits : Dict Text → Dict Text → Type 0
Fits m [] = Unit
Fits m ((k, v) ∷ hs) = AllBelow m k

Fits-append :
    (m hs : Dict Text) (j v : Text) → AllBelow m j → Below j hs → Fits (m ++ (j, v) ∷ []) hs
Fits-append m [] j v h b = tt
Fits-append m ((k, w) ∷ hs) j v h b = AllBelow-append m j v k h b

apply_headers-append :
    (hs : Dict Text) (r : HttpResponse)
    → Fits r.headers hs
    → IsOrdered hs
    → apply_headers hs r ≡ record r { headers = r.headers ++ hs }
unfolding add_header
apply_headers-append [] r f o = rw (append-nil r.headers) refl
apply_headers-append ((k, v) ∷ hs) r f o =
    let e = assign_sorted-append k v r.headers f in
    apply_headers-append hs (add_header k v r) (rw e (Fits-append r.headers hs k v f o.0)) o.1
    ∙ ap (λ h. record r { headers = h })
        (ap (λ m. m ++ hs) e ∙ append_assoc r.headers ((k, v) ∷ []) hs)

-- A text that is set only if it is not empty.
message-if :
    (s : Text) (q : HttpResponse)
    → q.status_message ≡ []
    → (if is_empty s then q else set_status_message s q) ≡ set_status_message s q
message-if [] q e = ap (λ m. record q { status_message = m }) e
message-if (x ∷ s) q e = refl

body-if :
    (s : Text) (q : HttpResponse)
    → q.body ≡ []
    → (if is_empty s then q else set_body s q) ≡ set_body s q
body-if [] q e = ap (λ m. record q { body = m }) e
body-if (x ∷ s) q e = refl

none-Fits : (hs : Dict Text) → Fits [] hs
none-Fits [] = tt
none-Fits ((k, v) ∷ hs) = tt

-- A response whose headers are in order, as addHeader keeps them, comes back from the cache whole
-- when it is applied to a new response, but for the HTTP version and the closing of the connection,
-- which are those of the new one.
pub apply_to-cached_response :
    (now : ℕ) (r : HttpResponse) (ttl : ℤ) (close : Bool)
    → IsOrdered r.headers
    → apply_to (cached_response now r ttl) (new_response close)
      ≡ record r { http_version = http_1_1; close_connection = close }
unfolding apply_to
apply_to-cached_response now r ttl close h =
    let r1 = set_status_code r.status_code (new_response close) in
    let r2 = set_status_message r.status_message r1 in
    let texts =
      ap (λ q. if is_empty r.body then q else set_body r.body q)
        (message-if r.status_message r1 refl)
      ∙ body-if r.body r2 refl in
    ap (apply_headers r.headers) texts
    ∙ apply_headers-append r.headers (set_body r.body r2) (none-Fits r.headers) h

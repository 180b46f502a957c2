-- ===== src/Http/Response/Headers.antt =====
-- The headers of a response, which a `std::map` keeps in order.
use cyclone_httpserver.Common.{◌≡◌, some, if◌then◌else◌}
use cyclone_httpserver.Common.Bytes.{Text, text_eq}
use cyclone_httpserver.Common.Dict.{lookup, lookup-assign_sorted}
use cyclone_httpserver.Common.Dict.Order.{IsOrdered, assign_sorted-IsOrdered}
use cyclone_httpserver.Http.Response.{HttpResponse, add_header}

-- addHeader keeps the keys of the headers in strict order, so that none stands there twice, and
-- afterwards its key has its value, while every other key has the value it had.
pub add_header_lem :
    (key value : Text) (r : HttpResponse)
    → IsOrdered r.headers
    → IsOrdered (add_header key value r).headers
      × ((q : Text)
          → lookup q (add_header key value r).headers
            ≡ (if text_eq key q then some value else lookup q r.headers))
unfolding add_header
add_header_lem key value r h =
    (assign_sorted-IsOrdered key value r.headers h, λ q. lookup-assign_sorted key q value r.headers)

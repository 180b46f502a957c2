-- ===== src/Middleware.antt =====
-- HttpServer/include/Middleware.hpp, MiddlewareChain.hpp and HttpServer/src/MiddlewareChain.cpp: a
-- middleware is what its two virtual functions do to the application's state `W` and to the request
-- or the response. The pointers of the chain are not null.
pub mod Chain
pub mod Cors
pub mod Tests
use cyclone_httpserver.Common.{Option, none, some, List, [], ◌∷◌, ◌++◌, reverse}
use cyclone_httpserver.Common.Bytes.{Text}
use cyclone_httpserver.Http.Request.{HttpRequest}
use cyclone_httpserver.Http.Response.{HttpResponse}

-- What code throws: a response, or a `std::exception` with its `what()`.
pub data Thrown : Type 0 where
  response : HttpResponse → Thrown
  exception : Text → Thrown

-- The end of `before`: the request as it leaves it, or what it throws.
pub data Before : Type 0 where
  passed : HttpRequest → Before
  refused : Thrown → Before

-- The end of a function that fills in a response: the response as it leaves it, and what it throws.
pub record Filled : Type 0 where
  pub result : HttpResponse
  pub thrown : Option Thrown

pub record Middleware (W : Type 0) : Type 0 where
  pub before : W → HttpRequest → W × Before
  pub after : W → HttpResponse → W × Filled

-- The `catch` of `processAfter`, which takes no thrown response.
abbrev pub catch_exception : Filled → Filled
catch_exception end = elim end.thrown [
  | some (exception what) ↦ record { result = end.result; thrown = none }
  | _ ↦ end
]

module _ {W : Type 0} where
  -- `addMiddleware`.
  abbrev pub add_middleware : Middleware W → List (Middleware W) → List (Middleware W)
  add_middleware m ms = ms ++ m ∷ []

  -- `processBefore`.
  unfoldable pub process_before : List (Middleware W) → W → HttpRequest → W × Before
  process_before [] w req = (w, passed req)
  process_before (m ∷ ms) w req =
      let (w', end) = m.before w req in
      elim end [ passed req' ↦ process_before ms w' req' | refused t ↦ (w', refused t) ]

  -- The loop of `processAfter`, over the middlewares in the order of the calls.
  unfoldable pub after_loop : List (Middleware W) → W → HttpResponse → W × Filled
  after_loop [] w resp = (w, record { result = resp; thrown = none })
  after_loop (m ∷ ms) w resp =
      let (w', end) = m.after w resp in
      elim end.thrown [ none ↦ after_loop ms w' end.result | some t ↦ (w', end) ]

  unfoldable pub process_after : List (Middleware W) → W → HttpResponse → W × Filled
  process_after ms w resp =
      let (w', end) = after_loop (reverse ms) w resp in (w', catch_exception end)

-- ===== src/Http.antt =====
-- The HTTP data types and the parser of requests: HttpServer/include/Http*.hpp and
-- HttpServer/src/Http*.cpp.
pub mod Types
pub mod Buffer
pub mod Request
pub mod Context
pub mod Response
pub mod Tests

-- ===== src/Db.antt =====
-- The database layer of the server, over the MySQL connector that the build links.
pub mod Connection
pub mod Pool
mod Tests

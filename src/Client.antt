-- ===== src/Client.antt =====
-- The programs that use the database over HTTP, and what they are served.
pub mod FillLog
pub mod Serve
pub mod Filled
pub mod Examples

-- ===== src/Net.antt =====
-- src/net: the requests over HTTP, and what the controller makes of them.
pub mod Request
pub mod Response
pub mod Controller
pub mod Examples

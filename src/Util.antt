-- ===== src/Util.antt =====
-- src/util: the status codes that functions return, and what a failed `invariant` does.
pub mod Status
pub mod Outcome
pub mod Int

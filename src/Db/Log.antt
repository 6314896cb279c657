-- ===== src/Db/Log.antt =====
-- src/db/log_manager.h and src/db/log_manager.cc: the log on the device.
pub mod Checksum
pub mod Layout
pub mod Entry
pub mod SuperBlock
pub mod LogBlock
pub mod Manager
pub mod Reader
pub mod Segment
pub mod Append
pub mod Extend
pub mod Operation
pub mod Replay
pub mod Generation
pub mod Count

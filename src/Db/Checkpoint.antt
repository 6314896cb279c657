-- ===== src/Db/Checkpoint.antt =====
-- src/db/checkpoint_manager.h and src/db/checkpoint_manager.cc: the image of the store that is
-- written to the device, as a stream of 64-bit words.
pub mod SuperBlock
pub mod Writer
pub mod Reader
pub mod Manager
pub mod Word
pub mod Stream
pub mod Restore
pub mod Entries
pub mod RoundTrip
pub mod Examples

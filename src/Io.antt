-- ===== src/Io.antt =====
-- src/io: the block device and its buffers.
pub mod Words
pub mod Device

-- ===== src/Db.antt =====
-- src/db: the stores, the log and the checkpoints.
pub mod IdSet
pub mod Types
pub mod NodeMap
pub mod MemoryStore
pub mod Log
pub mod Checkpoint
pub mod LoggedStore
pub mod Partition
pub mod GraphStore
pub mod Replication

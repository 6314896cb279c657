-- ===== src/Db/Partition.antt =====
-- src/db/partition: which partition holds a node, and the connections to the other partitions.
pub mod Manager
pub mod Targets
pub mod Remote
pub mod Examples

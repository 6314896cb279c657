-- ===== src/Db/NodeMap.antt =====
-- std::map<NodeId, std::unique_ptr<Node>>, as src/db/memory_store.h uses it: the entries in the
-- order of the keys, which is that of signed 64-bit integers. A `Node*` that the map owns is
-- modelled by its key; `write` is a change of the node behind such a pointer.
mod Order
pub use Order.{IsSorted, Above, emplace-IsSorted, write-IsSorted, erase-IsSorted}
mod Defs
unfoldable pub use Defs.{find, place, emplace, write, erase, signed_rank}
pub use Defs.{NodeMap, find-emplace, emplace_fresh, find-write, find-erase}

-- ===== src/Db/Partition/Manager.antt =====
-- `PartitionConfig` of src/db/partition/partition_config.cc and `PartitionManager` of
-- src/db/partition/partition_manager.cc. A connection is modelled by the address that it is made to;
-- addresses are of any type, with the test that stands for the equality of strings. Remote.antt has the
-- calls of addEdge and removeEdge. A configuration has at least one partition: the remainder by zero has
-- no defined result in the source.
use graph_store.Prelude.{
  ℕ, ◌-◌, ◌%◌, Bool, not, none, some, List, [], ◌∷◌, ◌==◌, ltb, if◌then◌else◌, length, get_elem?,
}
use graph_store.Util.Status.{StatusCode, StatusWith, with_result, without_result}
use graph_store.Util.Outcome.{Outcome, done, exited, invariant}
use graph_store.Db.Types.{NodeId}

pub record PartitionConfig {ℓ} (A : Type ℓ) : Type ℓ where
  pub partitions : List A
  pub us : ℕ

-- The place in `_partitions` that `getPartitionOutbound` takes.
unfoldable pub outbound_index : ℕ → ℕ → ℕ
outbound_index us id = if ltb us id then id - 1 else id

module _ {ℓ} {A : Type ℓ} where
  -- `nodeId % _partitions.size()`, on `uint64_t`
  unfoldable pub target : PartitionConfig A → NodeId → ℕ
  target c node_id = node_id % length c.partitions

  -- the loop of `start`, with the address `own` of this partition
  unfoldable pub others : (A → A → Bool) → A → List A → List A
  others same own [] = []
  others same own (x ∷ xs) = let rest = others same own xs in if same x own then rest else x ∷ rest

  unfoldable pub get_edge_part : PartitionConfig A → NodeId → NodeId → StatusWith (NodeId × NodeId)
  unfolding target
  get_edge_part c a b =
      if target c a == c.us
      then with_result (a, b)
      else if target c b == c.us
      then with_result (b, a)
      else without_result StatusCode.wrong_partition

  -- `getPartitionOutbound(id)`, after `start`; `exited` also stands for an index out of range.
  unfoldable pub get_partition_outbound : (A → A → Bool) → PartitionConfig A → ℕ → Outcome A
  get_partition_outbound same c id =
      invariant (not (id == c.us)) (elim (get_elem? c.partitions c.us) [
        | none ↦ exited
        | some own ↦ elim (get_elem? (others same own c.partitions) (outbound_index c.us id)) [
          | none ↦ exited
          | some a ↦ done a
        ]
      ])

-- ===== src/Db/Partition/Examples.antt =====
-- Three partitions, of which this is the second.
use graph_store.Prelude.{ℕ, zero, suc, ◌≡◌, refl, ◌==◌, some, [], ◌∷◌, arith, get_elem?}
use graph_store.Util.Outcome.{done}
use graph_store.Db.Partition.Manager.{PartitionConfig, get_partition_outbound}
use graph_store.Db.Partition.Targets.{get_partition_outbound_lem}

abbrev config : PartitionConfig ℕ
config = record { partitions = 10 ∷ 20 ∷ 30 ∷ []; us = 1 }

distinct : (j b : ℕ) → get_elem? config.partitions j ≡ some b → (b == 20) ≡ (j == 1)
distinct zero b h = ground arith
distinct (suc zero) b h = ground arith
distinct (suc (suc zero)) b h = ground arith
distinct (suc (suc (suc j))) b h = cc

get_partition_outbound_lem_example : get_partition_outbound (λ a b. a == b) config 2 ≡ done 30
get_partition_outbound_lem_example =
    get_partition_outbound_lem (λ a b. a == b) config 20 30 2 refl distinct
      (λ e. absurd (omega (arith, e))) refl

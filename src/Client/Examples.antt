-- ===== src/Client/Examples.antt =====
-- The client against the server at a device of twenty blocks of zeros, alone and as the only partition.
use graph_store.Prelude.{ℕ, ◌≡◌, arith, Option, some, Bool, true, false, [], ◌∷◌, ◌==◌}
use graph_store.Util.Outcome.{done}
use graph_store.Io.Device.{Device}
use graph_store.Db.Types.{NodeId}
use graph_store.Db.LoggedStore.{LoggedStore, format_store}
use graph_store.Db.Partition.Manager.{PartitionConfig, target}
use graph_store.Db.Partition.Remote.{Remote}
use graph_store.Net.Controller.{Site, is_elsewhere}
use graph_store.Client.FillLog.{fill_log}
use graph_store.Client.Serve.{serve_add_node, logging_controller}
use graph_store.Client.Filled.{fill_log_ends}

abbrev dev : Device
dev = record { size = 20; block = λ n i. 0 }

abbrev config : PartitionConfig ℕ
config = record { partitions = 10 ∷ []; us = 0 }

abbrev same : ℕ → ℕ → Bool
same a b = a == b

-- No other partition, so that no call is ever made.
abbrev manager : Option (Remote Unit ℕ)
manager = some (λ r a op. done (r, true))

all_here :
    (id : NodeId) → is_elsewhere (logging_controller {W = Unit} config same manager) id ≡ false
unfolding is_elsewhere target
all_here id = ground arith

fill_log_ends_example :
    (s : LoggedStore) × (t : Site LoggedStore Unit Unit) × (format_store dev ≡ done s)
    × (fill_log 4000
          (serve_add_node (logging_controller config same manager))
          (record { store = s; successors = tt; remotes = tt })
        ≡ done (some (t, 3211)))
fill_log_ends_example =
    fill_log_ends config same manager tt tt dev 4000 all_here (omega arith) (omega arith)
      (omega arith)

-- ===== src/Scons/Executor.antt =====
-- The lists that an `Executor` of scons/scons-local-2.5.0/SCons/Executor.py gives to the task master.
-- `action_targets` is what `get_action_targets` returns: it depends on the first action, which is
-- not modelled. The children of a node are what its scanner finds, which may raise an exception; they
-- are a parameter.
pub mod Unique
pub mod Changes
use graph_store.Prelude.{ℕ, Option, none, some, true, false, List, [], ◌∷◌, ◌++◌, if◌then◌else◌}
use graph_store.Db.IdSet
use graph_store.Scons.Node.{NodeId}

pub record Batch : Type 0 where
  pub targets : List NodeId
  pub sources : List NodeId

pub record Executor : Type 0 where
  pub batches : List Batch
  pub action_targets : List NodeId

-- The exceptions that the engine tells apart, and any other by its number.
pub data Exception : Type 0 where
  system_exit : (code : ℕ) → Exception
  explicit_exit : NodeId → (code : ℕ) → Exception
  build_error : NodeId → Exception
  user_error : Exception
  stop_error : Exception
  raised : ℕ → Exception

-- What a scan for children gives.
pub data Scan : Type 0 where
  found : List NodeId → Scan
  thrown : Exception → Scan

abbrev pub Children : Type 0
Children = NodeId → Scan

-- `uniquer_hashables`, the items behind those that were seen
unfoldable pub unique_from : (seen seq : List NodeId) → List NodeId
unique_from seen [] = []
unique_from seen (item ∷ seq) = elim (IdSet.contains item seen) [
  | true ↦ unique_from seen seq
  | false ↦ item ∷ unique_from (item ∷ seen) seq
]

unfoldable pub uniquer_hashables : List NodeId → List NodeId
unfolding unique_from
uniquer_hashables seq = unique_from [] seq

-- `uniquer`, where `idfun` gives the marker of an item
unfoldable pub uniquer_from : (idfun : NodeId → ℕ) → (seen seq : List NodeId) → List NodeId
uniquer_from idfun seen [] = []
uniquer_from idfun seen (item ∷ seq) = elim (IdSet.contains (idfun item) seen) [
  | true ↦ uniquer_from idfun seen seq
  | false ↦ item ∷ uniquer_from idfun (idfun item ∷ seen) seq
]

unfoldable pub uniquer : List NodeId → (idfun : NodeId → ℕ) → List NodeId
unfolding uniquer_from
uniquer seq idfun = uniquer_from idfun [] seq

-- `Executor.__init__`, with the targets of the first action
abbrev pub new_executor : (targets sources action_targets : List NodeId) → Executor
new_executor [] [] action_targets = record { batches = []; action_targets = action_targets }
new_executor [] (s ∷ sources) action_targets = record {
  batches = record { targets = []; sources = s ∷ sources } ∷ [];
  action_targets = action_targets;
}
new_executor (t ∷ targets) sources action_targets = record {
  batches = record { targets = t ∷ targets; sources = sources } ∷ [];
  action_targets = action_targets;
}

unfoldable pub targets_of : List Batch → List NodeId
targets_of [] = []
targets_of (batch ∷ batches) = batch.targets ++ targets_of batches

unfoldable pub get_all_targets : Executor → List NodeId
unfolding targets_of
get_all_targets e = targets_of e.batches

unfoldable pub sources_of : List Batch → List NodeId
sources_of [] = []
sources_of (batch ∷ batches) = batch.sources ++ sources_of batches

unfoldable pub get_all_sources : Executor → List NodeId
unfolding sources_of
get_all_sources e = sources_of e.batches

-- the loop of `get_all_children`, from the data that the list holds
unfoldable pub extend_children : Children → (data' : List NodeId) → List NodeId → Scan
extend_children children data' [] = found (uniquer_hashables data')
extend_children children data' (target ∷ targets) = elim (children target) [
  | found cs ↦ extend_children children (data' ++ cs) targets
  | thrown e ↦ thrown e
]

unfoldable pub get_all_children : Executor → Children → Scan
unfolding extend_children
get_all_children e children = extend_children children [] (get_all_targets e)

-- An attribute of several targets, in one list; a `None` is the empty list.
unfoldable pub concat : (NodeId → List NodeId) → List NodeId → List NodeId
concat f [] = []
concat f (target ∷ targets) = f target ++ concat f targets

unfoldable pub get_all_prerequisites : Executor → (NodeId → List NodeId) → List NodeId
unfolding concat
get_all_prerequisites e prerequisites = uniquer_hashables (concat prerequisites (get_all_targets e))

unfoldable pub get_action_side_effects : Executor → (NodeId → List NodeId) → List NodeId
unfolding concat
get_action_side_effects e side_effects = uniquer_hashables (concat side_effects e.action_targets)

-- The sources that are not there; `none` of `add_sources` is the failed `assert` of one batch.
unfoldable pub fresh_sources : (known sources : List NodeId) → List NodeId
fresh_sources known [] = []
fresh_sources known (x ∷ xs) =
    let rest = fresh_sources known xs in if IdSet.contains x known then rest else x ∷ rest

unfoldable pub add_sources : Executor → List NodeId → Option Executor
unfolding fresh_sources
add_sources e sources = elim e.batches [
  | [] ↦ none
  | batch ∷ batches ↦ elim batches [
    | b ∷ bs ↦ none
    | [] ↦
        let fresh = fresh_sources batch.sources sources in
        some (record e { batches = record batch { sources = batch.sources ++ fresh } ∷ [] })
  ]
]

unfoldable pub add_batch : Executor → (targets sources : List NodeId) → Executor
add_batch e targets sources = record e {
  batches = e.batches ++ record { targets = targets; sources = sources } ∷ [];
}

-- ===== src/Db/MemoryStore/ShortestPath.antt =====
-- `MemoryStore::shortestPath` of src/db/memory_store.cc. The `while` loop runs on fuel: the number
-- of nodes and two more rounds, since each round but the first and the last finds a node.
pub mod Expand
pub mod Walk
pub mod Correct
use graph_store.Prelude.{
  ℕ, zero, suc, ◌+◌, Bool, true, false, Option, none, some, List, [], ◌∷◌, ◌++◌, ◌==◌,
  if◌then◌else◌, length,
}
use graph_store.Util.Status.{StatusCode, StatusWith, with_result, without_result}
use graph_store.Util.Outcome.{Outcome, done, exited, ◌>>=◌}
use graph_store.Db.IdSet
use graph_store.Db.Types.{NodeId, Node}
use graph_store.Db.NodeMap
use graph_store.Db.NodeMap.{NodeMap}
use graph_store.Db.MemoryStore.{MemoryStore, find_node}

-- the set `found` and the queue `nextSearch`
pub record Frontier : Type 0 where
  pub found : List NodeId
  pub next : List Node

-- the loop over `n->edges()`
unfoldable pub add_edges : NodeMap → List NodeId → Frontier → Outcome Frontier
add_edges m [] f = done f
add_edges m (edge_id ∷ rest) f = elim (IdSet.insert edge_id f.found).1 [
  | false ↦ add_edges m rest f
  | true ↦ elim (NodeMap.find m edge_id) [
    | none ↦ exited
    | some edge ↦
        add_edges m rest
          (record { found = (IdSet.insert edge_id f.found).0; next = f.next ++ edge ∷ [] })
  ]
]

pub data Level : Type 0 where
  match_found : Level
  searched : Frontier → Level

-- the loop over `toSearch`
unfoldable pub search_level : NodeMap → NodeId → List Node → Frontier → Outcome Level
search_level m target [] f = done (searched f)
search_level m target (n ∷ ns) f = elim (n.id == target) [
  | true ↦ done match_found
  | false ↦ do f' ← add_edges m n.edges f; search_level m target ns f'
]

pub data Search : Type 0 where
  distance : ℕ → Search
  no_path : Search
  out_of_fuel : Search

-- the `while` loop, in its round number `d`
unfoldable pub search :
    ℕ → NodeMap → NodeId → (d : ℕ) (to_search : List Node) (found : List NodeId) → Outcome Search
search zero m target d to_search found = done out_of_fuel
search (suc fuel) m target d [] found = done no_path
search (suc fuel) m target d (n ∷ ns) found = do
  level ← search_level m target (n ∷ ns) (record { found = found; next = [] })
  elim level [
    | match_found ↦ done (distance d)
    | searched f ↦ search fuel m target (suc d) f.next f.found
  ]

-- What the method returns for an end of the search; fuel that runs out has no counterpart in it.
unfoldable pub reply : Search → Option (StatusWith ℕ)
reply (distance d) = some (with_result d)
reply no_path = some (without_result StatusCode.no_action)
reply out_of_fuel = none

unfoldable pub shortest_path : MemoryStore → NodeId → NodeId → Outcome (Option (StatusWith ℕ))
unfolding find_node reply
shortest_path s a b = elim (find_node s a) [
  | without_result code ↦ done (some (without_result code))
  | with_result start ↦ elim (find_node s b) [
    | without_result code ↦ done (some (without_result StatusCode.does_not_exist))
    | with_result _ ↦
        if a == b
        then done (some (without_result StatusCode.no_action))
        else do ended ← search (length s.nodes + 2) s.nodes b 0 (start ∷ []) []; done (reply ended)
  ]
]

-- ===== src/Db/MemoryStore/Examples.antt =====
-- The theorems on the store in memory at a store of three nodes in a row and a fourth one apart.
use graph_store.Prelude.{
  ℕ, ◌≡◌, refl, subst, ap, sym, ◌∙◌, false, not, ◌&&◌, some, List, [], ◌∷◌, arith,
}
use graph_store.Util.Status.{StatusCode, StatusWith, with_result, get_code}
use graph_store.Util.Outcome
use graph_store.Util.Outcome.{Outcome, done, exited, done-injective}
use graph_store.Db.IdSet
use graph_store.Db.Types
use graph_store.Db.NodeMap
use graph_store.Db.MemoryStore
use graph_store.Db.MemoryStore.{MemoryStore, empty}
use graph_store.Db.MemoryStore.View.{has, linked}
use graph_store.Db.MemoryStore.Invariant.{IsWf, empty-IsWf}
use graph_store.Db.MemoryStore.Graph.{Op, add_node, remove_node, add_edge, remove_edge}
use graph_store.Db.MemoryStore.Simulation.{view, Refines}
use graph_store.Db.MemoryStore.Refinement.{run, run_graph, apply-Refines, run-Refines}
use graph_store.Db.MemoryStore.Queries.{queries_agree, neighbors_exact}
use graph_store.Db.MemoryStore.Parts.{
  add_part, PartRefines, apply_part-Refines, part-then-remove_node,
}
use graph_store.Db.MemoryStore.ShortestPath.{shortest_path}
use graph_store.Db.MemoryStore.ShortestPath.Correct.{Answers, shortest_path-Answers}

abbrev ops : List Op
ops = add_node 1 ∷ add_node 2 ∷ add_node 3 ∷ add_node 4 ∷ add_edge 1 2 ∷ add_edge 2 3 ∷ []

abbrev pub row : MemoryStore
row = record {
  nodes =
      (1, record { id = 1; edges = 2 ∷ [] })
      ∷ (2, record { id = 2; edges = 3 ∷ 1 ∷ [] })
      ∷ (3, record { id = 3; edges = 2 ∷ [] })
      ∷ (4, record { id = 4; edges = [] })
      ∷ [];
}

run-row : run empty ops ≡ done (row, (run_graph (view empty) ops).1)
unfolding run has linked NodeMap.find MemoryStore.add_node MemoryStore.add_edge NodeMap.emplace
    NodeMap.place NodeMap.signed_rank IdSet.insert IdSet.contains NodeMap.write Types.add_edge
    Types.has_edge
run-row = refl

pub row-IsWf : IsWf row.nodes
row-IsWf =
    let (t, ran, _, wf) = run-Refines empty ops (omega arith) empty-IsWf in
    subst (λ (s : MemoryStore). IsWf s.nodes)
      (ap (λ x. x.0) (done-injective _ _ (sym ran ∙ run-row))) wf

apply-Refines_example : Refines row (remove_node 2)
apply-Refines_example = apply-Refines row (remove_node 2) (omega arith) row-IsWf

run-Refines_example :
    (t : MemoryStore) × (run row (remove_node 2 ∷ add_edge 1 4 ∷ remove_edge 2 3 ∷ [])
      ≡ done (t, StatusCode.success ∷ StatusCode.success ∷ StatusCode.does_not_exist ∷ []))
    × (view t ≡ (run_graph (view row) (remove_node 2 ∷ add_edge 1 4 ∷ remove_edge 2 3 ∷ [])).0)
    × IsWf t.nodes
unfolding has linked NodeMap.find Types.has_edge IdSet.contains
run-Refines_example =
    run-Refines row (remove_node 2 ∷ add_edge 1 4 ∷ remove_edge 2 3 ∷ []) (omega arith) row-IsWf

shortest_path-Answers_example :
    (w : StatusWith ℕ) × (shortest_path row 1 3 ≡ done (some w)) × Answers row.nodes 1 3 w
shortest_path-Answers_example = shortest_path-Answers row 1 3 row-IsWf

queries_agree_example :
    (get_code (MemoryStore.find_node row 1) ≡ StatusCode.success)
    × (get_code (MemoryStore.get_neighbors row 1) ≡ StatusCode.success)
    × (Outcome.map get_code (MemoryStore.get_edge row 1 3) ≡ done StatusCode.does_not_exist)
unfolding has linked NodeMap.find Types.has_edge IdSet.contains
queries_agree_example = queries_agree row 1 3 row-IsWf

neighbors_of_2 : MemoryStore.get_neighbors row 2 ≡ with_result (3 ∷ 1 ∷ [])
unfolding MemoryStore.get_neighbors NodeMap.find
neighbors_of_2 = refl

neighbors_exact_example :
    IdSet.IsNodup (3 ∷ 1 ∷ [])
    × (IdSet.contains 1 (3 ∷ 1 ∷ []) ≡ linked row.nodes 2 1)
    × ((IdSet.contains 1 (3 ∷ 1 ∷ []) && not (has row.nodes 1)) ≡ false)
neighbors_exact_example = neighbors_exact row 2 (3 ∷ 1 ∷ []) 1 row-IsWf neighbors_of_2

apply_part-Refines_example : PartRefines row (add_part 1 9)
apply_part-Refines_example =
    apply_part-Refines row (add_part 1 9)
      (record { sorted = row-IsWf.sorted; proper = row-IsWf.proper })

part-then-remove_node_example :
    (s' : MemoryStore) × (MemoryStore.add_edge_part row 1 9 ≡ done (s', StatusCode.success))
    × (MemoryStore.remove_node s' 1 ≡ exited)
unfolding has NodeMap.find
part-then-remove_node_example = part-then-remove_node row 1 9 row-IsWf refl refl

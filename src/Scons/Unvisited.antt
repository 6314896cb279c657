-- ===== src/Scons/Unvisited.antt =====
-- How far a search can still go: the nodes that it has not visited.
use graph_store.Prelude.{
  ℕ, suc, ◌+◌, ◌≤◌, ◌≡◌, ap, refl, inl, inr, true, false, List, [], ◌∷◌, arith, length, Bool-cases,
  if◌then◌else◌,
}
use native.Mathlib.Decide.{ℕ_discrete}
use graph_store.Db.IdSet
use graph_store.Scons.Node.{NodeId}

abbrev pub Includes : (small large : List NodeId) → Type 0
Includes small large = (m : NodeId) → IdSet.contains m small ≡ true → IdSet.contains m large ≡ true

-- The nodes of a list that are not visited, each with what it leads to.
abbrev pub unvisited : (NodeId → List NodeId) → (nodes visited : List NodeId) → ℕ
unvisited f [] visited = 0
unvisited f (n ∷ nodes) visited =
    (if IdSet.contains n visited then 0 else suc (length (f n))) + unvisited f nodes visited

pub unvisited_mono :
    (f : NodeId → List NodeId) (nodes small large : List NodeId)
    → Includes small large
    → unvisited f nodes large ≤ unvisited f nodes small
unvisited_mono f [] small large h = omega arith
unvisited_mono f (n ∷ nodes) small large h =
    ground (arith, h n, unvisited_mono f nodes small large h)

pub Includes-cons : (n : NodeId) (visited : List NodeId) → Includes visited (n ∷ visited)
unfolding IdSet.contains
Includes-cons n visited m h = ground (arith, h)

visit_drops :
    (f : NodeId → List NodeId) (nodes visited : List NodeId) (n : NodeId)
    → IdSet.contains n nodes ≡ true
    → IdSet.contains n visited ≡ false
    → length (f n) + unvisited f nodes (n ∷ visited) ≤ unvisited f nodes visited
unfolding IdSet.contains
visit_drops f [] visited n h out = absurd (ground (arith, h))
visit_drops f (m ∷ nodes) visited n h out = elim (ℕ_discrete m n) [
  | yes e ↦
      let z : length (f m) ≡ length (f n) = rw e refl in
      let o : IdSet.contains m visited ≡ false = rw e out in
      ground
        (arith, z, o, e, unvisited_mono f nodes visited (n ∷ visited) (Includes-cons n visited))
  | no ne ↦
      let h' : IdSet.contains n nodes ≡ true = ground arith in
      ground (arith, ne, visit_drops f nodes visited n h' out)
]

pub enter_drops :
    (f : NodeId → List NodeId) (all visited : List NodeId) (n : NodeId)
    → ((m : NodeId) → IdSet.contains m all ≡ false → f m ≡ [])
    → IdSet.contains n visited ≡ false
    → length (f n) + unvisited f all (n ∷ visited) ≤ unvisited f all visited
enter_drops f all visited n w out = elim (Bool-cases (IdSet.contains n all)) [
  | inl e ↦ visit_drops f all visited n e out
  | inr e ↦
      let z : length (f n) ≡ 0 = ap length (w n e) in
      omega (arith, z, unvisited_mono f all visited (n ∷ visited) (Includes-cons n visited))
]

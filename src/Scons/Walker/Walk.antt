-- ===== src/Scons/Walker/Walk.antt =====
-- A whole walk.
use graph_store.Prelude.{
  ℕ, zero, suc, ◌+◌, ◌≤◌, ◌≡◌, refl, ap, ◌∙◌, inl, inr, false, List, [], ◌∷◌, ◌++◌, none, some,
  arith, length, Bool-cases, List-cases, Option-cases, subst,
}
use graph_store.Db.IdSet
use graph_store.Scons.Node.{NodeId}
use graph_store.Scons.Unvisited.{unvisited, enter_drops}
use graph_store.Scons.Walker.{Kids, Walker, set_wkids, new_walker, turn, get_next, walk}
use graph_store.Scons.Walker.Order.{order, order-Visits, turn_pop, set_wkids_at}

order_ends :
    (all : List NodeId) (kids : Kids) (fuel : ℕ) (path ks : List NodeId)
    → ((m : NodeId) → IdSet.contains m all ≡ false → kids m ≡ [])
    → length ks + unvisited kids all path ≤ fuel
    → (nodes : List NodeId) × (order fuel kids path ks ≡ some nodes)
unfolding order
order_ends all kids fuel path [] w le = ([], refl)
order_ends all kids zero path (k ∷ ks) w le = absurd (omega (arith, le))
order_ends all kids (suc fuel) path (k ∷ ks) w le =
    let (rest, e) = order_ends all kids fuel path ks w (omega (arith, le)) in
    elim (Bool-cases (IdSet.contains k path)) [
      | inl i ↦ (rest, ground (arith, e, i))
      | inr i ↦
          let (below, e') =
            order_ends all kids fuel (k ∷ path) (kids k) w
              (omega (arith, le, enter_drops kids all path k w i)) in
          (below ++ k ∷ rest, ground (arith, e, i, e'))
    ]

-- The nodes that calls of `get_next` return, one after the other, until one returns none; every call
-- ends.
pub data Returns (kids : Kids) : Walker → List NodeId → Type 0 where
  ends : (fuel : ℕ) (w w' : Walker) → get_next fuel kids w ≡ some (w', none) → Returns kids w []
  returns :
      (fuel : ℕ) (w w' : Walker) (n : NodeId) (nodes : List NodeId)
      → get_next fuel kids w ≡ some (w', some n)
      → Returns kids w' nodes
      → Returns kids w (n ∷ nodes)

-- A round that returns no node.
Returns-turn :
    (kids : Kids) (w : Walker) (n : NodeId) (st nodes : List NodeId)
    → w.stack ≡ n ∷ st
    → (turn kids w).1 ≡ none
    → Returns kids (turn kids w).0 nodes
    → Returns kids w nodes
unfolding get_next
Returns-turn kids w n st nodes s t r = go (turn kids w).0 nodes refl r
  where
    go :
        (w1 : Walker) (nodes : List NodeId)
        → (turn kids w).0 ≡ w1
        → Returns kids w1 nodes
        → Returns kids w nodes
    go w1 nodes e (ends fuel v w' h) =
        ends (suc fuel) w w' (ground (arith, s, t, ap (get_next fuel kids) e ∙ h))
    go w1 nodes e (returns fuel v w' m more h r') =
        returns (suc fuel) w w' m more (ground (arith, s, t, ap (get_next fuel kids) e ∙ h)) r'

walk-Returns :
    (fuel : ℕ) (kids : Kids) (w : Walker) (nodes : List NodeId)
    → walk fuel kids w ≡ some nodes
    → Returns kids w nodes
unfolding walk get_next
walk-Returns zero kids w nodes h = elim (List-cases w.stack) [
  | inl e ↦
      let n : [] ≡ nodes = ground (arith, e, h) in
      subst (Returns kids w) n (ends 0 w w (ground (arith, e)))
  | inr (m, st, e) ↦ absurd (ground (arith, e, h))
]
walk-Returns (suc fuel) kids w nodes h = elim (List-cases w.stack) [
  | inl e ↦
      let n : [] ≡ nodes = ground (arith, e, h) in
      subst (Returns kids w) n (ends 1 w w (ground (arith, e)))
  | inr (m, st, e) ↦ elim (Option-cases (walk fuel kids (turn kids w).0)) [
    | inl e1 ↦ absurd (ground (arith, e, e1, h))
    | inr (more, e1) ↦
        let r = walk-Returns fuel kids (turn kids w).0 more e1 in
        elim (Option-cases (turn kids w).1) [
          | inl t ↦
              let n : more ≡ nodes = ground (arith, e, e1, t, h) in
              subst (Returns kids w) n (Returns-turn kids w m st more e t r)
          | inr (k, t) ↦
              let n : k ∷ more ≡ nodes = ground (arith, e, e1, t, h) in
              subst (Returns kids w) n (returns 1 w (turn kids w).0 k more (ground (arith, e, t)) r)
        ]
  ]
]

-- Where no node outside some list has kids, the calls of `get_next` on a new walker end, and return
-- the node that it starts from last and before it, depth first, the kids that are not on the path
-- from the start, each behind its own kids.
pub get_next-order :
    (all : List NodeId) (kids : Kids) (n : NodeId) (fuel : ℕ)
    → ((m : NodeId) → IdSet.contains m all ≡ false → kids m ≡ [])
    → length (kids n) + unvisited kids all (n ∷ []) ≤ fuel
    → (nodes : List NodeId) × (order fuel kids (n ∷ []) (kids n) ≡ some nodes)
      × Returns kids (new_walker kids n) (nodes ++ n ∷ [])
unfolding walk IdSet.contains
get_next-order all kids n fuel w le =
    let (nodes, e) = order_ends all kids fuel (n ∷ []) (kids n) w le in
    let (wkids', z, same, leads) =
      order-Visits fuel kids (set_wkids (λ m. []) n (kids n)) n [] (kids n) nodes (refl, tt)
        (set_wkids_at (λ m. []) n (kids n)) e in
    let (fuel1, e1) = turn_pop kids wkids' n [] (refl, tt) z 0 [] refl in
    let (fuel2, e2) = leads fuel1 (n ∷ []) e1 in
    (nodes, e, walk-Returns fuel2 kids (new_walker kids n) (nodes ++ n ∷ []) e2)

-- ===== src/Scons/Taskmaster/Walk/Measure.antt =====
-- What falls in each round of `_find_next_ready_node`.
use graph_store.Prelude.{
  ℕ, ◌+◌, ◌≤◌, ◌≡◌, refl, inl, inr, Bool, true, false, ◌||◌, List, [], ◌∷◌, arith, ==_refl, length,
  Bool-cases, if◌then◌else◌,
}
use native.Mathlib.Decide.{ℕ_discrete}
use graph_store.Db.IdSet
use graph_store.Scons.Node.{NodeId, NodeState, Store, get_state, same_state}
use graph_store.Scons.Taskmaster.State.{extend}

abbrev pub is_new : Store → NodeId → Bool
is_new s n = same_state (get_state s n) NodeState.no_state

-- Twice a weight for each node of a list that was not visited.
abbrev pub unseen : Store → (weight : ℕ) → (nodes : List NodeId) → ℕ
unseen s w [] = 0
unseen s w (n ∷ nodes) = (if is_new s n then w + w else 0) + unseen s w nodes

-- The weight, unless the top of the stack was not visited.
abbrev pub top_cost : Store → (weight : ℕ) → (stack : List NodeId) → ℕ
top_cost s w [] = 0
top_cost s w (n ∷ stack) = if is_new s n then 0 else w

-- No node goes back to having no state.
abbrev pub Advances : Store → Store → Type 0
Advances s s' = (n : NodeId) → is_new s' n ≡ true → is_new s n ≡ true

abbrev pub IsInside : (nodes all : List NodeId) → Type 0
IsInside nodes all = (m : NodeId) → IdSet.contains m nodes ≡ true → IdSet.contains m all ≡ true

pub unseen_mono :
    (s s' : Store) (w : ℕ) (nodes : List NodeId)
    → Advances s s'
    → unseen s' w nodes ≤ unseen s w nodes
unseen_mono s s' w [] h = omega arith
unseen_mono s s' w (n ∷ nodes) h = ground (arith, h n, unseen_mono s s' w nodes h)

pub unseen_drops :
    (s s' : Store) (w : ℕ) (nodes : List NodeId) (n : NodeId)
    → Advances s s'
    → IdSet.contains n nodes ≡ true
    → is_new s n ≡ true
    → is_new s' n ≡ false
    → unseen s' w nodes + w + w ≤ unseen s w nodes
unfolding IdSet.contains
unseen_drops s s' w [] n h i a b = absurd (ground (arith, i))
unseen_drops s s' w (m ∷ nodes) n h i a b = elim (ℕ_discrete m n) [
  | yes e ↦
      let a' : is_new s m ≡ true = rw e a in
      let b' : is_new s' m ≡ false = rw e b in ground (arith, a', b', unseen_mono s s' w nodes h)
  | no ne ↦
      let i' : IdSet.contains n nodes ≡ true = ground (arith, i) in
      ground (arith, h m, unseen_drops s s' w nodes n h i' a b)
]

-- An advance never raises the measure of a stack inside the list.
pub advance_le :
    (s s' : Store) (w : ℕ) (all stack : List NodeId)
    → Advances s s'
    → IsInside stack all
    → unseen s' w all + top_cost s' w stack ≤ unseen s w all + top_cost s w stack
unfolding IdSet.contains
advance_le s s' w all [] h i = omega (arith, unseen_mono s s' w all h)
advance_le s s' w all (n ∷ stack) h i =
    let inside : IdSet.contains n all ≡ true = i n (ground (arith, ==_refl n)) in
    elim (Bool-cases (is_new s n)) [
      | inr a ↦ ground (arith, a, h n, unseen_mono s s' w all h)
      | inl a ↦ elim (Bool-cases (is_new s' n)) [
        | inl b ↦ ground (arith, a, b, unseen_mono s s' w all h)
        | inr b ↦ ground (arith, a, b, unseen_drops s s' w all n h inside a b)
      ]
    ]

pub length-extend :
    (nodes stack : List NodeId) → length (extend nodes stack) ≡ length nodes + length stack
unfolding extend
length-extend [] stack = omega arith
length-extend (n ∷ nodes) stack = omega (arith, length-extend nodes (n ∷ stack))

pub contains-extend :
    (m : NodeId) (nodes stack : List NodeId)
    → IdSet.contains m (extend nodes stack) ≡ (IdSet.contains m nodes || IdSet.contains m stack)
unfolding extend IdSet.contains
contains-extend m [] stack = refl
contains-extend m (n ∷ nodes) stack = ground (arith, contains-extend m nodes (n ∷ stack))

abbrev pub AreNew : Store → List NodeId → Type 0
AreNew s nodes = (m : NodeId) → IdSet.contains m nodes ≡ true → is_new s m ≡ true

top_cost-extend :
    (s : Store) (w : ℕ) (nodes stack : List NodeId)
    → AreNew s nodes
    → top_cost s w (extend nodes stack) ≤ top_cost s w stack
unfolding extend IdSet.contains
top_cost-extend s w [] stack h = omega arith
top_cost-extend s w (n ∷ nodes) stack h =
    let new : is_new s n ≡ true = h n (ground (arith, ==_refl n)) in
    let h' = λ (m : NodeId) (i : IdSet.contains m nodes ≡ true). h m (ground (arith, i)) in
    ground (arith, new, top_cost-extend s w nodes (n ∷ stack) h')

pub cost_le : (s : Store) (w : ℕ) (stack : List NodeId) → top_cost s w stack ≤ w
cost_le s w [] = omega arith
cost_le s w (n ∷ stack) = ground arith

-- Nodes that were not visited cost as much as the top that they hide.
pub push_le :
    (s : Store) (w : ℕ) (nodes stack : List NodeId)
    → AreNew s nodes
    → length nodes ≤ w
    → length (extend nodes stack) + top_cost s w (extend nodes stack) ≤ length stack + w
unfolding extend IdSet.contains
push_le s w [] stack h le = ground (arith, cost_le s w stack)
push_le s w (n ∷ nodes) stack h le =
    let new : is_new s n ≡ true = h n (ground (arith, ==_refl n)) in
    let h' = λ (m : NodeId) (i : IdSet.contains m nodes ≡ true). h m (ground (arith, i)) in
    ground
      (arith, new, top_cost-extend s w nodes (n ∷ stack) h', length-extend nodes (n ∷ stack), le)

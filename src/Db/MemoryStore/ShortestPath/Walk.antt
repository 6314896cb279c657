-- ===== src/Db/MemoryStore/ShortestPath/Walk.antt =====
-- Walks along the edges of a store, and the state of the search between two rounds.
use graph_store.Prelude.{
  ℕ, zero, suc, ◌≤◌, ◌<◌, ◌≡◌, Bool, true, false, ◌||◌, List, [], ◌∷◌, arith, ◌==◌, ◌⊎◌, inl, inr,
  Bool-cases, ◌∙◌, ==_refl,
}
use graph_store.Db.IdSet
use graph_store.Db.Types
use graph_store.Db.Types.{NodeId, Node}
use graph_store.Db.NodeMap.{NodeMap}
use graph_store.Db.MemoryStore.View.{linked, linked_at}
use graph_store.Db.MemoryStore.ShortestPath.{Frontier}
use graph_store.Db.MemoryStore.ShortestPath.Expand.{queued, touches, AllStored, Expanded}

-- A walk from `a` over the given number of edges.
pub data Walk (m : NodeMap) (a : NodeId) : ℕ → NodeId → Type 0 where
  here : Walk m a zero a
  step : {d : ℕ} {u v : NodeId} → Walk m a d u → linked m u v ≡ true → Walk m a (suc d) v

touches_of_queued :
    (m : NodeMap) (ns : List Node) (u x : NodeId)
    → AllStored m ns
    → queued u ns ≡ true
    → linked m u x ≡ true
    → touches ns x ≡ true
touches_of_queued m [] u x st q l = cc
touches_of_queued m (n ∷ ns) u x st q l =
    ground (arith, touches_of_queued m ns u x st.1, linked_at m n.id x n st.0)

queued_of_touches :
    (m : NodeMap) (ns : List Node) (x : NodeId)
    → AllStored m ns
    → touches ns x ≡ true
    → (u : NodeId) × (queued u ns ≡ true) × (linked m u x ≡ true)
queued_of_touches m [] x st t = cc
queued_of_touches m (n ∷ ns) x st t = elim (Bool-cases (Types.has_edge n x)) [
  | inl e ↦ (n.id, ground arith, linked_at m n.id x n st.0 ∙ e)
  | inr e ↦ let (u, q, l) = queued_of_touches m ns x st.1 (ground arith) in (u, ground arith, l)
]

-- `a`, where the search starts, is not put into `found` at first.
abbrev pub known : NodeId → List NodeId → NodeId → Bool
known a found x = a == x || IdSet.contains x found

module _ (m : NodeMap) (a target : NodeId) where
  -- All edges of `x` have been followed, and `x` is not the target.
  pub record IsSettled (found : List NodeId) (x : NodeId) : Type 0 where
    pub other : (x == target) ≡ false
    pub followed : (y : NodeId) → linked m x y ≡ true → IdSet.contains y found ≡ true

  -- Between two rounds, the queue holds the nodes at distance `d`.
  pub record Inv (d : ℕ) (queue : List Node) (found : List NodeId) : Type 0 where
    pub stored : AllStored m queue
    pub reached : (x : NodeId) → queued x queue ≡ true → Walk m a d x
    pub covered : (e : ℕ) (x : NodeId) → Walk m a e x → e ≤ d → known a found x ≡ true
    pub settled :
        (x : NodeId) → known a found x ≡ true → (queued x queue ≡ true) ⊎ IsSettled found x
    pub unreached : (e : ℕ) → e < d → Walk m a e target → ⊥

  module _ (d : ℕ) (queue : List Node) (found : List NodeId) (f : Frontier)
      (inv : Inv d queue found) (miss : queued target queue ≡ false)
      (ex : Expanded m (touches queue) (record { found = found; next = [] }) f) where
    IsSettled-now : (x : NodeId) → known a found x ≡ true → IsSettled f.found x
    IsSettled-now x k = elim (inv.settled x k) [
      | inl q ↦ record {
        other = ground arith;
        followed = λ y l. ground (arith, ex.grown y, touches_of_queued m queue x y inv.stored q l);
      }
      | inr s ↦ record {
        other = s.other;
        followed = λ y l. ground (arith, ex.grown y, s.followed y l);
      }
    ]

    covered_now : (e : ℕ) (x : NodeId) → e ≤ suc d → Walk m a e x → known a f.found x ≡ true
    covered_now zero x h here = ground (arith, ==_refl a)
    covered_now (suc e) x h (step {u} w l) =
        let s = IsSettled-now u (inv.covered e u w (omega arith)) in ground (arith, s.followed x l)

    IsSettled-or_queued :
        (x : NodeId) → known a f.found x ≡ true → (queued x f.next ≡ true) ⊎ IsSettled f.found x
    IsSettled-or_queued x k = elim (Bool-cases (known a found x)) [
      | inl old ↦ inr (IsSettled-now x old)
      | inr new ↦ inl (ground (arith, ex.queue x))
    ]

    not_yet : (e : ℕ) → e ≤ d → Walk m a e target → ⊥
    not_yet e h w = cc ((IsSettled-now target (inv.covered e target w h)).other, ==_refl target)

    pub Inv-round : Inv (suc d) f.next f.found
    Inv-round = record {
      stored = ex.stored;
      reached = λ x q.
          let (u, qu, l) =
            queued_of_touches m queue x inv.stored (ground (arith, ex.queue x, ex.grown x)) in
          step (inv.reached u qu) l;
      covered = λ e x w h. covered_now e x h w;
      settled = IsSettled-or_queued;
      unreached = λ e h w. not_yet e (omega arith) w;
    }

-- ===== src/Scons/Taskmaster/Cycle/Ends.antt =====
-- How much fuel `find_cycle` needs, and what it decides.
use graph_store.Prelude.{
  ℕ, zero, suc, ◌+◌, ◌≤◌, ◌≡◌, refl, ◌⊎◌, inl, inr, none, some, List, [], ◌∷◌, arith, ◌==◌, length,
  Bool-cases, Option-cases,
}
use graph_store.Db.IdSet
use graph_store.Scons.Node.{NodeId, Store}
use graph_store.Scons.Taskmaster.Flush.Failed.{Waits}
use graph_store.Scons.Taskmaster.Flush.Ends.{IsWithin}
use graph_store.Scons.Unvisited.{unvisited, unvisited_mono, enter_drops, Includes-cons}
use graph_store.Scons.Taskmaster.Cycle.{Found, follow, find_cycle}
use graph_store.Scons.Taskmaster.Cycle.Complete.{follow-IsExhausted, find_cycle-none}
use graph_store.Scons.Taskmaster.Cycle.Sound.{IsCycle, find_cycle-IsCycle}

abbrev pub parents_of : Store → NodeId → List NodeId
parents_of s n = (s n).waiting_parents

follow_ends :
    (all : List NodeId) (fuel : ℕ) (s : Store) (origin : NodeId)
    (stack before parents : List NodeId)
    → IsWithin s all
    → length parents + unvisited (parents_of s) all before ≤ fuel
    → (r : Found) × (follow fuel s origin stack before parents ≡ some r)
unfolding follow
follow_ends all fuel s origin stack before [] w le = ((none, before), refl)
follow_ends all zero s origin stack before (n ∷ parents) w le = absurd (omega (arith, le))
follow_ends all (suc fuel) s origin stack before (n ∷ parents) w le =
    elim (Bool-cases (n == origin)) [
      | inl e ↦ ((some (n ∷ stack), before), rw (e, follow) refl)
      | inr e ↦ elim (Bool-cases (IdSet.contains n before)) [
        | inl i ↦
            let (r, q) = follow_ends all fuel s origin stack before parents w (omega (arith, le)) in
            (r, ground (arith, e, i, q))
        | inr i ↦
            let (r, q) =
              follow_ends all fuel s origin (n ∷ stack) (n ∷ before) (s n).waiting_parents w
                (omega (arith, le, enter_drops (parents_of s) all before n w i)) in
            elim (Option-cases r.0) [
              | inr (c, e3) ↦ ((some c, r.1), ground (arith, e, i, q, e3))
              | inl e3 ↦
                  let x =
                    follow-IsExhausted fuel s origin (n ∷ stack) (n ∷ before) (s n).waiting_parents
                      r.1 (ground (arith, q, e3)) in
                  let m =
                    unvisited_mono (parents_of s) all before r.1
                      (λ k h. x.0 k (Includes-cons n before k h)) in
                  let (r', q') =
                    follow_ends all fuel s origin stack r.1 parents w (omega (arith, le, m)) in
                  (r', ground (arith, e, i, q, e3, q'))
            ]
      ]
    ]

-- Where no node outside some list has waiting parents, `find_cycle` ends, given fuel for the list's
-- nodes and all their waiting parents: it gives a cycle, which begins and ends with the node and in
-- which each node waits for the next, or it gives none and the node does not wait for itself, at
-- any remove.
pub find_cycle_decides :
    (all : List NodeId) (fuel : ℕ) (s : Store) (n : NodeId)
    → IsWithin s all
    → length (s n).waiting_parents + unvisited (parents_of s) all (n ∷ []) ≤ fuel
    → ((cycle : List NodeId) × (visited : List NodeId) × (find_cycle fuel s n
          ≡ some (some cycle, visited))
        × IsCycle s n cycle)
      ⊎ ((visited : List NodeId) × (find_cycle fuel s n ≡ some (none, visited))
          × ¬ Waits s (s n).waiting_parents n)
unfolding find_cycle
find_cycle_decides all fuel s n w le =
    let (r, q) = follow_ends all fuel s n (n ∷ []) (n ∷ []) (s n).waiting_parents w le in
    elim (Option-cases r.0) [
      | inr (c, e) ↦
          let q' : find_cycle fuel s n ≡ some (some c, r.1) = ground (arith, q, e) in
          inl (c, r.1, q', find_cycle-IsCycle fuel s n c r.1 q')
      | inl e ↦
          let q' : find_cycle fuel s n ≡ some (none, r.1) = ground (arith, q, e) in
          inr (r.1, q', find_cycle-none fuel s n r.1 q')
    ]

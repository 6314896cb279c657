-- ===== src/Scons/Taskmaster/Cycle/Sound.antt =====
-- What `find_cycle` finds, and how much fuel it needs.
use graph_store.Prelude.{
  ℕ, zero, suc, ◌≡◌, refl, inl, inr, true, some, List, [], ◌∷◌, arith, ◌==◌, ==_refl, eq_of_==,
  Bool-cases, Option-cases, subst,
}
use graph_store.Db.IdSet
use graph_store.Scons.Node.{NodeId, Store}
use graph_store.Scons.Taskmaster.Cycle.{follow, find_cycle}

-- Every node of a stack waits for the one below it, and the lowest is the origin.
abbrev pub IsPath : Store → (origin : NodeId) → (stack : List NodeId) → Type 0
IsPath s origin [] = ⊥
IsPath s origin (n ∷ []) = n ≡ origin
IsPath s origin (n ∷ m ∷ stack) =
    (IdSet.contains n (s m).waiting_parents ≡ true) × IsPath s origin (m ∷ stack)

-- The stack comes back to the origin.
abbrev pub IsCycle : Store → (origin : NodeId) → (stack : List NodeId) → Type 0
IsCycle s origin [] = ⊥
IsCycle s origin (n ∷ []) = ⊥
IsCycle s origin (n ∷ m ∷ stack) = (n ≡ origin) × IsPath s origin (n ∷ m ∷ stack)

follow-IsCycle :
    (fuel : ℕ) (s : Store) (origin top : NodeId) (stack before parents cycle visited : List NodeId)
    → follow fuel s origin (top ∷ stack) before parents ≡ some (some cycle, visited)
    → IsPath s origin (top ∷ stack)
    → ((k : NodeId)
        → IdSet.contains k parents ≡ true
        → IdSet.contains k (s top).waiting_parents ≡ true)
    → IsCycle s origin cycle
unfolding follow IdSet.contains
follow-IsCycle fuel s origin top stack before [] cycle visited h p f = absurd (ground (arith, h))
follow-IsCycle zero s origin top stack before (n ∷ parents) cycle visited h p f =
    absurd (ground (arith, h))
follow-IsCycle (suc fuel) s origin top stack before (n ∷ parents) cycle visited h p f =
    let up : IdSet.contains n (s top).waiting_parents ≡ true = f n (ground (arith, ==_refl n)) in
    let f' = λ (k : NodeId) (i : IdSet.contains k parents ≡ true). f k (ground (arith, i)) in
    elim (Bool-cases (n == origin)) [
      | inl e ↦
          let c : n ∷ top ∷ stack ≡ cycle = ground (arith, e, h) in
          subst (IsCycle s origin) c (eq_of_== n origin e, (up, p))
      | inr e ↦ elim (Bool-cases (IdSet.contains n before)) [
        | inl i ↦
            follow-IsCycle fuel s origin top stack before parents cycle visited
              (ground (arith, e, i, h)) p f'
        | inr i ↦
            elim (Option-cases
              (follow fuel s origin (n ∷ top ∷ stack) (n ∷ before) (s n).waiting_parents)) [
                | inl e2 ↦ absurd (ground (arith, e, i, e2, h))
                | inr (r, e2) ↦ elim (Option-cases r.0) [
                  | inr (c, e3) ↦
                      let same : c ≡ cycle = ground (arith, e, i, e2, e3, h) in
                      subst (IsCycle s origin) same (
                        follow-IsCycle fuel s origin n (top ∷ stack) (n ∷ before)
                          (s n).waiting_parents c r.1 (ground (arith, e2, e3)) (up, p) (λ k j. j))
                  | inl e3 ↦
                      follow-IsCycle fuel s origin top stack r.1 parents cycle visited
                        (ground (arith, e, i, e2, e3, h)) p f'
                ]
              ]
      ]
    ]

-- A cycle that `find_cycle` gives has at least two entries, begins and ends with the node, and each
-- of its nodes waits for the next.
pub find_cycle-IsCycle :
    (fuel : ℕ) (s : Store) (n : NodeId) (cycle visited : List NodeId)
    → find_cycle fuel s n ≡ some (some cycle, visited)
    → IsCycle s n cycle
unfolding find_cycle
find_cycle-IsCycle fuel s n cycle visited h =
    follow-IsCycle fuel s n n [] (n ∷ []) (s n).waiting_parents cycle visited h refl (λ k i. i)

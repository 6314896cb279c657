-- ===== src/Scons/Taskmaster/Cycle/Complete.antt =====
-- Where `find_cycle` finds nothing.
use graph_store.Prelude.{
  ℕ, zero, suc, ◌≡◌, ◌≢◌, refl, inl, inr, true, false, none, some, List, [], ◌∷◌, arith, ◌==◌,
  ==_refl, Bool-cases, Option-cases, subst,
}
use native.Mathlib.Decide.{ℕ_discrete}
use graph_store.Db.IdSet
use graph_store.Scons.Unvisited.{Includes}
use graph_store.Scons.Node.{NodeId, Store}
use graph_store.Scons.Taskmaster.Flush.Failed.{Waits, chosen, parent}
use graph_store.Scons.Taskmaster.Cycle.{follow, find_cycle}

-- The nodes of a list are visited, and the origin is not among them.
abbrev pub AreVisited : (origin : NodeId) → (nodes visited : List NodeId) → Type 0
AreVisited origin nodes visited =
    (k : NodeId) → IdSet.contains k nodes ≡ true → (IdSet.contains k visited ≡ true) × (k ≢ origin)

-- The waiting parents of the nodes visited since are visited, and the origin is not among them.
abbrev pub IsClean : Store → (origin : NodeId) → (before visited : List NodeId) → Type 0
IsClean s origin before visited =
    (m : NodeId)
    → IdSet.contains m visited ≡ true
    → IdSet.contains m before ≡ false
    → AreVisited origin (s m).waiting_parents visited

abbrev pub IsExhausted : Store → (origin : NodeId) → (parents before visited : List NodeId) → Type 0
IsExhausted s origin parents before visited =
    Includes before visited × AreVisited origin parents visited × IsClean s origin before visited

skip-IsExhausted :
    (s : Store) (origin n : NodeId) (parents before visited : List NodeId)
    → n ≢ origin
    → IdSet.contains n before ≡ true
    → IsExhausted s origin parents before visited
    → IsExhausted s origin (n ∷ parents) before visited
unfolding IdSet.contains
skip-IsExhausted s origin n parents before visited ne e (a, b, c) = (
  a,
  λ k h. elim (ℕ_discrete k n) [ yes d ↦ rw d (a n e, ne) | no nd ↦ b k (ground (arith, h)) ],
  c,
)

enter-IsExhausted :
    (s : Store) (origin n : NodeId) (parents before middle visited : List NodeId)
    → n ≢ origin
    → IsExhausted s origin (s n).waiting_parents (n ∷ before) middle
    → IsExhausted s origin parents middle visited
    → IsExhausted s origin (n ∷ parents) before visited
unfolding IdSet.contains
enter-IsExhausted s origin n parents before middle visited ne (a, b, c) (a', b', c') =
    let to_middle : Includes before middle = λ m h. a m (ground (arith, h)) in
    let here : IdSet.contains n visited ≡ true = a' n (a n (ground (arith, ==_refl n))) in
    let widen : (k : NodeId)
        → (IdSet.contains k middle ≡ true) × (k ≢ origin)
        → (IdSet.contains k visited ≡ true) × (k ≢ origin) =
      λ k p. (a' k p.0, p.1) in
    (
      λ m h. a' m (to_middle m h),
      λ k h. elim (ℕ_discrete k n) [ yes d ↦ rw d (here, ne) | no nd ↦ b' k (ground (arith, h)) ],
      λ m h out. elim (Bool-cases (IdSet.contains m middle)) [
        | inr e ↦ c' m h e
        | inl e ↦ elim (ℕ_discrete m n) [
          | yes d ↦
              λ k i. widen k (b k (subst (λ z. IdSet.contains k (s z).waiting_parents ≡ true) d i))
          | no nd ↦ λ k i. widen k (c m e (ground (arith, out)) k i)
        ]
      ],
    )

no_member : (k : NodeId) → ¬ (IdSet.contains k [] ≡ true)
unfolding IdSet.contains
no_member k h = ground (arith, h)

pub follow-IsExhausted :
    (fuel : ℕ) (s : Store) (origin : NodeId) (stack before parents visited : List NodeId)
    → follow fuel s origin stack before parents ≡ some (none, visited)
    → IsExhausted s origin parents before visited
unfolding follow
follow-IsExhausted fuel s origin stack before [] visited h =
    let e : before ≡ visited = ground (arith, h) in
    (
      λ m i. subst (λ v. IdSet.contains m v ≡ true) e i,
      λ k i. absurd (no_member k i),
      λ m i out. absurd (ground (arith, subst (λ v. IdSet.contains m v ≡ false) e out, i)),
    )
follow-IsExhausted zero s origin stack before (n ∷ parents) visited h = absurd (ground (arith, h))
follow-IsExhausted (suc fuel) s origin stack before (n ∷ parents) visited h =
    elim (Bool-cases (n == origin)) [
      | inl e ↦ absurd (ground (arith, e, h))
      | inr e ↦ elim (Bool-cases (IdSet.contains n before)) [
        | inl i ↦
            skip-IsExhausted s origin n parents before visited (λ d. ground (arith, e, d)) i
              (follow-IsExhausted fuel s origin stack before parents visited
                (ground (arith, e, i, h)))
        | inr i ↦
            elim (Option-cases
              (follow fuel s origin (n ∷ stack) (n ∷ before) (s n).waiting_parents)) [
                | inl e2 ↦ absurd (ground (arith, e, i, e2, h))
                | inr (r, e2) ↦ elim (Option-cases r.0) [
                  | inr (c, e3) ↦ absurd (ground (arith, e, i, e2, e3, h))
                  | inl e3 ↦
                      enter-IsExhausted s origin n parents before r.1 visited
                        (λ d. ground (arith, e, d))
                        (follow-IsExhausted fuel s origin (n ∷ stack) (n ∷ before)
                          (s n).waiting_parents r.1 (ground (arith, e2, e3)))
                        (follow-IsExhausted fuel s origin stack r.1 parents visited
                          (ground (arith, e, i, e2, e3, h)))
                ]
              ]
      ]
    ]

-- Every node reached from the origin has been visited, and is another.
reached-IsClean :
    (s : Store) (origin : NodeId) (visited : List NodeId) {m : NodeId}
    → AreVisited origin (s origin).waiting_parents visited
    → IsClean s origin (origin ∷ []) visited
    → Waits s (s origin).waiting_parents m
    → (IdSet.contains m visited ≡ true) × (m ≢ origin)
unfolding IdSet.contains
reached-IsClean s origin visited {m} b c (chosen h) = b m h
reached-IsClean s origin visited {m} b c (parent {m = k} w h) =
    let (i, ne) = reached-IsClean s origin visited b c w in c k i (ground (arith, ne)) m h

-- If `find_cycle` ends and gives no cycle, the node does not wait for itself at any remove.
pub find_cycle-none :
    (fuel : ℕ) (s : Store) (n : NodeId) (visited : List NodeId)
    → find_cycle fuel s n ≡ some (none, visited)
    → ¬ Waits s (s n).waiting_parents n
unfolding find_cycle
find_cycle-none fuel s n visited h w =
    let (a, b, c) = follow-IsExhausted fuel s n (n ∷ []) (n ∷ []) (s n).waiting_parents visited h in
    (reached-IsClean s n visited b c w).1 refl

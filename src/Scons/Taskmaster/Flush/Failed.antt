-- ===== src/Scons/Taskmaster/Flush/Failed.antt =====
-- Which nodes `will_not_build` reaches, and what it makes of them when a task has failed.
use graph_store.Prelude.{
  ℕ, zero, suc, ◌≡◌, ◌≢◌, ◌∙◌, ◌⊎◌, inl, inr, true, some, List, [], ◌∷◌, arith, ==_refl, Bool-cases,
  subst,
}
use native.Mathlib.Decide.{ℕ_discrete}
use graph_store.Db.IdSet
use graph_store.Scons.Node.{NodeId, NodeState, Store}
use graph_store.Scons.Taskmaster.Flush.{union, give_up, mark_failed, flush}
use graph_store.Scons.Taskmaster.Flush.Sets.{
  contains-union, give_up-failed, give_up_keeps, give_up_other, mark_failed_parents,
}

-- The nodes of a list and, through any number of steps, those that wait for one of them.
pub data Waits (s : Store) (nodes : List NodeId) : NodeId → Type 0 where
  chosen : {n : NodeId} → IdSet.contains n nodes ≡ true → Waits s nodes n
  parent :
      {m n : NodeId}
      → Waits s nodes m
      → IdSet.contains n (s m).waiting_parents ≡ true
      → Waits s nodes n

abbrev pub IsGivenUp : Store → NodeId → Type 0
IsGivenUp s n = ((s n).state ≡ NodeState.failed) × ((s n).waiting_parents ≡ [])

give_up-IsGivenUp :
    (s : Store) (v n : NodeId) → IsGivenUp s n ⊎ (n ≡ v) → IsGivenUp (give_up mark_failed s v) n
give_up-IsGivenUp s v n h = elim (ℕ_discrete n v) [
  | yes e ↦ rw e (give_up-failed s v)
  | no ne ↦ ground (arith, give_up_keeps s v n)
]

none_waits :
    (s : Store) (v n : NodeId)
    → ¬ (IdSet.contains n (give_up mark_failed s v v).waiting_parents ≡ true)
unfolding IdSet.contains
none_waits s v n h = ground (arith, give_up-failed s v)

-- The waiting parents after a round were there before it.
parent_before :
    (s : Store) (v m n : NodeId)
    → IdSet.contains n (give_up mark_failed s v m).waiting_parents ≡ true
    → (m ≢ v) × (IdSet.contains n (s m).waiting_parents ≡ true)
unfolding IdSet.contains
parent_before s v m n h = elim (ℕ_discrete m v) [
  | yes e ↦ absurd (
      none_waits s v n
        (subst (λ k. IdSet.contains n (give_up mark_failed s v k).waiting_parents ≡ true) e h))
  | no ne ↦ (ne, ground (arith, give_up_keeps s v m ne, h))
]

-- What waits before a round is the node of the round, or waits behind it.
pub Waits-round :
    (s : Store) (v : NodeId) (nodes : List NodeId) {n : NodeId}
    → Waits s (v ∷ nodes) n
    → (n ≡ v) ⊎ Waits (give_up mark_failed s v) (union (mark_failed s v v).waiting_parents nodes) n
unfolding IdSet.contains
Waits-round s v nodes {n} (chosen h) = elim (ℕ_discrete n v) [
  | yes e ↦ inl e
  | no ne ↦
      inr (chosen (ground (arith, contains-union n (mark_failed s v v).waiting_parents nodes)))
]
Waits-round s v nodes {n} (parent {m} w h) = elim (ℕ_discrete m v) [
  | yes e ↦ inr (
      chosen (
        ground (
          arith,
          contains-union n (mark_failed s v v).waiting_parents nodes,
          mark_failed_parents s v,
          subst (λ k. IdSet.contains n (s k).waiting_parents ≡ true) e h,
        )))
  | no ne ↦ elim (Waits-round s v nodes w) [
    | inl e ↦ absurd (ne e)
    | inr w' ↦ inr (parent w' (ground (arith, give_up_keeps s v m ne, h)))
  ]
]

-- What waits behind a round has waited before it.
pub Waits-before :
    (s : Store) (v : NodeId) (nodes : List NodeId) {n : NodeId}
    → Waits (give_up mark_failed s v) (union (mark_failed s v v).waiting_parents nodes) n
    → Waits s (v ∷ nodes) n
unfolding IdSet.contains
Waits-before s v nodes {n} (chosen h) = elim (Bool-cases (IdSet.contains n (s v).waiting_parents)) [
  | inl e ↦ parent (chosen (ground arith)) e
  | inr e ↦ chosen (
      ground (
        arith,
        contains-union n (mark_failed s v v).waiting_parents nodes,
        mark_failed_parents s v,
      ))
]
Waits-before s v nodes {n} (parent {m} w h) =
    parent (Waits-before s v nodes w) (parent_before s v m n h).1

pub nothing-Waits : {s : Store} {n : NodeId} → ¬ Waits s [] n
unfolding IdSet.contains
nothing-Waits (chosen h) = ground arith
nothing-Waits (parent w h) = nothing-Waits w

-- A round leaves a node alone that does not wait.
untouched :
    (s : Store) (v : NodeId) (nodes : List NodeId) (n : NodeId)
    → ¬ Waits s (v ∷ nodes) n
    → give_up mark_failed s v n ≡ s n
unfolding IdSet.contains
untouched s v nodes n un =
    let first : IdSet.contains v (v ∷ nodes) ≡ true = ground (arith, ==_refl v) in
    give_up_other s v n (λ e. un (chosen (ground (arith, first, e))))
      (elim (Bool-cases (IdSet.contains n (s v).waiting_parents)) [
        | inl e ↦ absurd (un (parent (chosen first) e))
        | inr e ↦ e
      ])

-- The loop never takes back that a node is given up.
flush_keeps-IsGivenUp :
    (fuel : ℕ) (s : Store) (nodes pending : List NodeId) (r : Store × List NodeId) (n : NodeId)
    → flush fuel mark_failed s nodes pending ≡ some r
    → IsGivenUp s n
    → IsGivenUp r.0 n
unfolding flush
flush_keeps-IsGivenUp fuel s [] pending r n e h = ground arith
flush_keeps-IsGivenUp zero s (v ∷ nodes) pending r n e h = absurd (ground arith)
flush_keeps-IsGivenUp (suc fuel) s (v ∷ nodes) pending r n e h =
    flush_keeps-IsGivenUp fuel _ _ _ r n e (give_up-IsGivenUp s v n (inl h))

pub flush-IsGivenUp :
    (fuel : ℕ) (s : Store) (nodes pending : List NodeId) (r : Store × List NodeId) (n : NodeId)
    → flush fuel mark_failed s nodes pending ≡ some r
    → Waits s nodes n
    → IsGivenUp r.0 n
unfolding flush
flush-IsGivenUp fuel s [] pending r n e w = absurd (nothing-Waits w)
flush-IsGivenUp zero s (v ∷ nodes) pending r n e w = absurd (ground arith)
flush-IsGivenUp (suc fuel) s (v ∷ nodes) pending r n e w = elim (Waits-round s v nodes w) [
  | inl g ↦ flush_keeps-IsGivenUp fuel _ _ _ r n e (give_up-IsGivenUp s v n (inr g))
  | inr w' ↦ flush-IsGivenUp fuel _ _ _ r n e w'
]

pub flush_other :
    (fuel : ℕ) (s : Store) (nodes pending : List NodeId) (r : Store × List NodeId) (n : NodeId)
    → flush fuel mark_failed s nodes pending ≡ some r
    → ¬ Waits s nodes n
    → r.0 n ≡ s n
unfolding flush
flush_other fuel s [] pending r n e un = ground arith
flush_other zero s (v ∷ nodes) pending r n e un = absurd (ground arith)
flush_other (suc fuel) s (v ∷ nodes) pending r n e un =
    flush_other fuel _ _ _ r n e (λ w. un (Waits-before s v nodes w)) ∙ untouched s v nodes n un

pub Waits-mono :
    {s : Store} {nodes nodes' : List NodeId} {n : NodeId}
    → ((m : NodeId) → IdSet.contains m nodes ≡ true → IdSet.contains m nodes' ≡ true)
    → Waits s nodes n
    → Waits s nodes' n
Waits-mono {s} {nodes} {nodes'} {n} f (chosen h) = chosen (f n h)
Waits-mono f (parent w h) = parent (Waits-mono f w) h

-- ===== src/Scons/Taskmaster/Flush/Ends.antt =====
-- How many rounds the loop of `will_not_build` takes.
use graph_store.Prelude.{
  ℕ, zero, suc, ◌+◌, ◌≤◌, ◌≡◌, refl, true, false, some, List, [], ◌∷◌, length, arith, Bool-cases,
  inl, inr, ap,
}
use native.Mathlib.Decide.{ℕ_discrete}
use graph_store.Db.IdSet
use graph_store.Scons.Node.{NodeId, Store}
use graph_store.Scons.Taskmaster.Flush.{give_up, mark_failed, flush}
use graph_store.Scons.Taskmaster.Flush.Sets.{
  length-union, give_up-failed, give_up_keeps, mark_failed_parents,
}

-- The waiting parents of all nodes of a list, together.
abbrev pub waiting_total : Store → (nodes : List NodeId) → ℕ
waiting_total s [] = 0
waiting_total s (n ∷ nodes) = length (s n).waiting_parents + waiting_total s nodes

-- The nodes outside the list have no waiting parents.
abbrev pub IsWithin : Store → (nodes : List NodeId) → Type 0
IsWithin s nodes = (n : NodeId) → IdSet.contains n nodes ≡ false → (s n).waiting_parents ≡ []

give_up-length :
    (s : Store) (v n : NodeId)
    → length (give_up mark_failed s v n).waiting_parents ≤ length (s n).waiting_parents
give_up-length s v n = elim (ℕ_discrete n v) [
  | yes e ↦ rw e (ground (arith, give_up-failed s v))
  | no ne ↦ ground (arith, give_up_keeps s v n ne)
]

total_mono :
    (s : Store) (v : NodeId) (nodes : List NodeId)
    → waiting_total (give_up mark_failed s v) nodes ≤ waiting_total s nodes
total_mono s v [] = omega arith
total_mono s v (n ∷ nodes) = omega (arith, total_mono s v nodes, give_up-length s v n)

-- The round of a node of the list takes its waiting parents from the total.
total_drops :
    (s : Store) (v : NodeId) (nodes : List NodeId)
    → IdSet.contains v nodes ≡ true
    → waiting_total (give_up mark_failed s v) nodes + length (s v).waiting_parents
      ≤ waiting_total s nodes
unfolding IdSet.contains
total_drops s v [] h = absurd (ground arith)
total_drops s v (n ∷ nodes) h = elim (ℕ_discrete n v) [
  | yes e ↦
      let z : length (give_up mark_failed s v n).waiting_parents ≡ 0 =
        rw e (ap length (give_up-failed s v).1) in
      let z' : length (s n).waiting_parents ≡ length (s v).waiting_parents = rw e refl in
      omega (arith, total_mono s v nodes, z, z')
  | no ne ↦
      let h' : IdSet.contains v nodes ≡ true = ground arith in
      omega (arith, total_drops s v nodes h', give_up-length s v n)
]

round_drops :
    (s : Store) (v : NodeId) (nodes : List NodeId)
    → IsWithin s nodes
    → waiting_total (give_up mark_failed s v) nodes + length (s v).waiting_parents
      ≤ waiting_total s nodes
round_drops s v nodes h = elim (Bool-cases (IdSet.contains v nodes)) [
  | inl e ↦ total_drops s v nodes e
  | inr e ↦
      let z : length (s v).waiting_parents ≡ 0 = ap length (h v e) in
      omega (arith, total_mono s v nodes)
]

give_up-IsWithin :
    (s : Store) (v : NodeId) (nodes : List NodeId)
    → IsWithin s nodes
    → IsWithin (give_up mark_failed s v) nodes
give_up-IsWithin s v nodes h n e = elim (ℕ_discrete n v) [
  | yes d ↦ rw d (give_up-failed s v).1
  | no ne ↦ ground (arith, give_up_keeps s v n ne, h n e)
]

pub flush_ends :
    (all : List NodeId) (fuel : ℕ) (s : Store) (nodes pending : List NodeId)
    → IsWithin s all
    → length nodes + waiting_total s all ≤ fuel
    → (r : Store × List NodeId) × (flush fuel mark_failed s nodes pending ≡ some r)
unfolding flush
flush_ends all fuel s [] pending h le = ((s, pending), refl)
flush_ends all zero s (v ∷ nodes) pending h le = absurd (omega arith)
flush_ends all (suc fuel) s (v ∷ nodes) pending h le =
    let ps : List NodeId = (mark_failed s v v).waiting_parents in
    let n : length ps ≡ length (s v).waiting_parents = ap length (mark_failed_parents s v) in
    flush_ends all fuel _ _ _ (give_up-IsWithin s v all h)
      (omega (arith, le, n, round_drops s v all h, length-union ps nodes))

-- ===== src/Scons/Taskmaster/Flush/Pending.antt =====
-- What `will_not_build` takes out of the pending children when a task has failed.
use graph_store.Prelude.{
  ℕ, zero, suc, ◌≡◌, ◌∙◌, inl, inr, true, false, some, List, [], ◌∷◌, arith, ==_refl, Bool-cases,
}
use graph_store.Db.IdSet
use graph_store.Scons.Node.{NodeId, Store}
use graph_store.Scons.Taskmaster.Flush.{union, minus, mark_failed, flush}
use graph_store.Scons.Taskmaster.Flush.Sets.{contains-union, contains-minus, mark_failed_parents}
use graph_store.Scons.Taskmaster.Flush.Failed.{
  Waits, chosen, parent, Waits-round, Waits-before, nothing-Waits,
}

flush_pending_stays_out :
    (fuel : ℕ) (s : Store) (nodes pending : List NodeId) (r : Store × List NodeId) (n : NodeId)
    → flush fuel mark_failed s nodes pending ≡ some r
    → IdSet.contains n pending ≡ false
    → IdSet.contains n r.1 ≡ false
unfolding flush
flush_pending_stays_out fuel s [] pending r n e h = ground arith
flush_pending_stays_out zero s (v ∷ nodes) pending r n e h = absurd (ground arith)
flush_pending_stays_out (suc fuel) s (v ∷ nodes) pending r n e h =
    flush_pending_stays_out fuel _ _ _ r n e
      (ground (arith, contains-minus n pending (mark_failed s v v).waiting_parents))

-- The nodes still to visit are out of the pending children, and stay so.
abbrev pub IsApart : (nodes pending : List NodeId) → Type 0
IsApart nodes pending =
    (m : NodeId) → IdSet.contains m nodes ≡ true → IdSet.contains m pending ≡ false

round-IsApart :
    (v : NodeId) (nodes pending parents : List NodeId)
    → IsApart (v ∷ nodes) pending
    → IsApart (union parents nodes) (minus pending parents)
unfolding IdSet.contains
round-IsApart v nodes pending parents h m e =
    ground (arith, h m, contains-union m parents nodes, contains-minus m pending parents)

pub flush_pending_out :
    (fuel : ℕ) (s : Store) (nodes pending : List NodeId) (r : Store × List NodeId) (n : NodeId)
    → flush fuel mark_failed s nodes pending ≡ some r
    → IsApart nodes pending
    → Waits s nodes n
    → IdSet.contains n r.1 ≡ false
unfolding flush IdSet.contains
flush_pending_out fuel s [] pending r n e h w = absurd (nothing-Waits w)
flush_pending_out zero s (v ∷ nodes) pending r n e h w = absurd (ground arith)
flush_pending_out (suc fuel) s (v ∷ nodes) pending r n e h w = elim (Waits-round s v nodes w) [
  | inl g ↦
      flush_pending_stays_out (suc fuel) s (v ∷ nodes) pending r n e
        (h n (ground (arith, g, ==_refl v)))
  | inr w' ↦ flush_pending_out fuel _ _ _ r n e (round-IsApart v nodes pending _ h) w'
]

pub flush_pending_other :
    (fuel : ℕ) (s : Store) (nodes pending : List NodeId) (r : Store × List NodeId) (n : NodeId)
    → flush fuel mark_failed s nodes pending ≡ some r
    → ¬ Waits s nodes n
    → IdSet.contains n r.1 ≡ IdSet.contains n pending
unfolding flush IdSet.contains
flush_pending_other fuel s [] pending r n e un = ground arith
flush_pending_other zero s (v ∷ nodes) pending r n e un = absurd (ground arith)
flush_pending_other (suc fuel) s (v ∷ nodes) pending r n e un =
    let out : IdSet.contains n (s v).waiting_parents ≡ false =
      elim (Bool-cases (IdSet.contains n (s v).waiting_parents)) [
        | inl h ↦ absurd (un (parent (chosen (ground (arith, ==_refl v))) h))
        | inr h ↦ h
      ] in
    flush_pending_other fuel _ _ _ r n e (λ w. un (Waits-before s v nodes w))
    ∙ ground (
      arith,
      out,
      mark_failed_parents s v,
      contains-minus n pending (mark_failed s v v).waiting_parents,
    )

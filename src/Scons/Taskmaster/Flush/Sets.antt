-- ===== src/Scons/Taskmaster/Flush/Sets.antt =====
-- The sets and the reference counts that `will_not_build` works with.
use graph_store.Prelude.{
  suc, ◌+◌, ◌≤◌, ◌≡◌, ◌≢◌, refl, false, not, ◌&&◌, ◌||◌, List, [], ◌∷◌, length, arith,
}
use graph_store.Util.Int.{pos, ◌-ℤ◌}
use graph_store.Db.IdSet
use graph_store.Db.IdSet.{contains-insert, contains-erase}
use graph_store.Scons.Node.{
  NodeId, NodeState, Store, update, set_ref_count, set_waiting_parents, set_state,
}
use graph_store.Scons.Taskmaster.Flush.{union, minus, release_parents, give_up, mark_failed}

pub contains-union :
    (b : NodeId) (xs ys : List NodeId)
    → IdSet.contains b (union xs ys) ≡ (IdSet.contains b xs || IdSet.contains b ys)
unfolding union IdSet.contains
contains-union b [] ys = refl
contains-union b (x ∷ xs) ys =
    ground (arith, contains-union b xs (IdSet.insert x ys).0, contains-insert b x ys)

pub contains-minus :
    (b : NodeId) (xs ys : List NodeId)
    → IdSet.contains b (minus xs ys) ≡ (IdSet.contains b xs && not (IdSet.contains b ys))
unfolding minus IdSet.contains
contains-minus b xs [] = ground arith
contains-minus b xs (y ∷ ys) =
    ground (arith, contains-minus b (IdSet.erase y xs) ys, contains-erase b y xs)

length-insert : (a : NodeId) (xs : List NodeId) → length (IdSet.insert a xs).0 ≤ suc (length xs)
unfolding IdSet.insert
length-insert a xs = ground arith

pub length-union : (xs ys : List NodeId) → length (union xs ys) ≤ length xs + length ys
unfolding union
length-union [] ys = omega arith
length-union (x ∷ xs) ys = omega (arith, length-union xs (IdSet.insert x ys).0, length-insert x ys)

-- Letting parents go changes their counts alone.
pub release_parents_keeps :
    (s : Store) (ps : List NodeId) (n : NodeId)
    → ((release_parents s ps n).state ≡ (s n).state)
      × ((release_parents s ps n).waiting_parents ≡ (s n).waiting_parents)
unfolding release_parents set_ref_count update
release_parents_keeps s [] n = (refl, refl)
release_parents_keeps s (p ∷ ps) n =
    ground (arith, release_parents_keeps (set_ref_count s p ((s p).ref_count -ℤ pos 1)) ps n)

pub release_parents_other :
    (s : Store) (ps : List NodeId) (n : NodeId)
    → IdSet.contains n ps ≡ false
    → release_parents s ps n ≡ s n
unfolding release_parents set_ref_count update IdSet.contains
release_parents_other s [] n h = refl
release_parents_other s (p ∷ ps) n h =
    ground (arith, release_parents_other (set_ref_count s p ((s p).ref_count -ℤ pos 1)) ps n)

-- A node that is given up as failed is failed, and nothing waits for it; the others keep their
-- state and their waiting parents.
pub give_up-failed :
    (s : Store) (v : NodeId)
    → ((give_up mark_failed s v v).state ≡ NodeState.failed)
      × ((give_up mark_failed s v v).waiting_parents ≡ [])
unfolding give_up set_waiting_parents set_state update
give_up-failed s v = ground (
  arith,
  release_parents_keeps (set_waiting_parents (set_state s v NodeState.failed) v [])
      (set_state s v NodeState.failed v).waiting_parents v,
)

pub give_up_keeps :
    (s : Store) (v n : NodeId)
    → n ≢ v
    → ((give_up mark_failed s v n).state ≡ (s n).state)
      × ((give_up mark_failed s v n).waiting_parents ≡ (s n).waiting_parents)
unfolding give_up set_waiting_parents set_state update
give_up_keeps s v n ne = ground (
  arith,
  release_parents_keeps (set_waiting_parents (set_state s v NodeState.failed) v [])
      (set_state s v NodeState.failed v).waiting_parents n,
)

pub mark_failed_parents :
    (s : Store) (v : NodeId) → (mark_failed s v v).waiting_parents ≡ (s v).waiting_parents
unfolding set_state update
mark_failed_parents s v = ground arith

pub give_up_other :
    (s : Store) (v n : NodeId)
    → n ≢ v
    → IdSet.contains n (s v).waiting_parents ≡ false
    → give_up mark_failed s v n ≡ s n
unfolding give_up set_waiting_parents set_state update
give_up_other s v n ne h = ground (
  arith,
  mark_failed_parents s v,
  release_parents_other (set_waiting_parents (set_state s v NodeState.failed) v [])
      (set_state s v NodeState.failed v).waiting_parents n,
)

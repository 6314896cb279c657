-- ===== src/Scons/Executor/Unique.antt =====
-- The lists that an executor gathers from its targets.
use graph_store.Prelude.{
  ◌≡◌, refl, sym, ◌∙◌, ap, inl, inr, not, ◌&&◌, List, [], ◌∷◌, ◌++◌, arith, ==_refl, Bool-cases,
}
use mathlib.Core.List.{append-nil, append_assoc}
use graph_store.Db.IdSet
use graph_store.Db.IdSet.{IsNodup}
use graph_store.Scons.Node.{NodeId}
use graph_store.Scons.Executor.{
  Executor, found, unique_from, uniquer_hashables, get_all_targets, concat, extend_children,
  get_all_children,
}

pub contains_unique :
    (m : NodeId) (seen seq : List NodeId)
    → IdSet.contains m (unique_from seen seq)
      ≡ (IdSet.contains m seq && not (IdSet.contains m seen))
unfolding unique_from IdSet.contains
contains_unique m seen [] = refl
contains_unique m seen (x ∷ seq) = elim (Bool-cases (IdSet.contains x seen)) [
  | inl e ↦ ground (arith, e, contains_unique m seen seq)
  | inr e ↦ ground (arith, e, contains_unique m (x ∷ seen) seq)
]

pub unique_from-IsNodup : (seen seq : List NodeId) → IsNodup (unique_from seen seq)
unfolding unique_from IdSet.contains
unique_from-IsNodup seen [] = tt
unique_from-IsNodup seen (x ∷ seq) = elim (Bool-cases (IdSet.contains x seen)) [
  | inl e ↦ ground (arith, e, unique_from-IsNodup seen seq)
  | inr e ↦
      ground
        (arith, e, ==_refl x, unique_from-IsNodup (x ∷ seen) seq, contains_unique x (x ∷ seen) seq)
]

extend_children-concat :
    (f : NodeId → List NodeId) (before targets : List NodeId)
    → extend_children (λ n. found (f n)) before targets
      ≡ found (uniquer_hashables (before ++ concat f targets))
unfolding extend_children concat
extend_children-concat f before [] = ap (λ l. found (uniquer_hashables l)) (sym (append-nil before))
extend_children-concat f before (t ∷ targets) =
    extend_children-concat f (before ++ f t) targets
    ∙ ap (λ l. found (uniquer_hashables l)) (append_assoc before (f t) (concat f targets))

-- Where no scan raises an exception, `get_all_children` gives, without repetition, exactly the
-- children that the scans of the targets find.
pub get_all_children_members :
    (e : Executor) (f : NodeId → List NodeId)
    → (cs : List NodeId) × (get_all_children e (λ n. found (f n)) ≡ found cs)
      × IsNodup cs
      × ((m : NodeId) → IdSet.contains m cs ≡ IdSet.contains m (concat f (get_all_targets e)))
unfolding get_all_children uniquer_hashables IdSet.contains
get_all_children_members e f = (
  uniquer_hashables (concat f (get_all_targets e)),
  extend_children-concat f [] (get_all_targets e),
  unique_from-IsNodup [] (concat f (get_all_targets e)),
  λ m. ground (arith, contains_unique m [] (concat f (get_all_targets e))),
)

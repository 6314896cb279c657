-- ===== src/Scons/Children/Added.antt =====
-- What the lists of children hold.
use graph_store.Prelude.{
  ◌≡◌, refl, sym, ◌∙◌, ap, inl, inr, not, ◌&&◌, ◌||◌, List, [], ◌∷◌, ◌++◌, arith, Bool-cases,
  List-cases, subst,
}
use mathlib.Core.List.{append-nil, append_assoc}
use graph_store.Db.IdSet
use graph_store.Db.IdSet.{IsNodup, contains-append}
use graph_store.Scons.Node.{NodeId}
use graph_store.Scons.Executor.{unique_from, uniquer_hashables}
use graph_store.Scons.Executor.Unique.{contains_unique, unique_from-IsNodup}
use graph_store.Scons.UniqueList.Reads.{unique_from_members, unique_from-append, no_repeat}
use graph_store.Scons.Children.{
  Collection, Links, add_child, all_children, drop_ignored, children_get,
}

add_child-items :
    (c : Collection) (child : List NodeId)
    → (add_child c child).items ≡ c.items ++ unique_from c.members child
unfolding add_child unique_from
add_child-items c [] = sym (append-nil c.items)
add_child-items c (x ∷ child) =
    let more : Collection = record { items = c.items ++ x ∷ []; members = x ∷ c.members } in
    elim (Bool-cases (IdSet.contains x c.members)) [
      | inl e ↦ ground (arith, e, add_child-items c child)
      | inr e ↦ ground (
        arith,
        e,
        add_child-items more child,
        append_assoc c.items (x ∷ []) (unique_from (x ∷ c.members) child),
      )
    ]

add_child-members :
    (c : Collection) (child : List NodeId) (m : NodeId)
    → IdSet.contains m (add_child c child).members
      ≡ (IdSet.contains m c.members || IdSet.contains m child)
unfolding add_child IdSet.contains
add_child-members c [] m = ground arith
add_child-members c (x ∷ child) m =
    let more : Collection = record { items = c.items ++ x ∷ []; members = x ∷ c.members } in
    elim (Bool-cases (IdSet.contains x c.members)) [
      | inl e ↦ ground (arith, e, add_child-members c child m)
      | inr e ↦ ground (arith, e, add_child-members more child m)
    ]

-- The list has no repetition, and the set its members.
abbrev pub IsPaired : Collection → Type 0
IsPaired c =
    IsNodup c.items × ((m : NodeId) → IdSet.contains m c.items ≡ IdSet.contains m c.members)

contains-uniquer :
    (m : NodeId) (seq : List NodeId)
    → IdSet.contains m (uniquer_hashables seq) ≡ IdSet.contains m seq
unfolding uniquer_hashables IdSet.contains
contains-uniquer m seq = ground (arith, contains_unique m [] seq)

-- Adding children to a list without repetition, whose set has its members, leaves such a list: the
-- first occurrences, in order, of the items that were there and the new ones.
pub add_child-IsPaired :
    (c : Collection) (child : List NodeId)
    → IsPaired c
    → IsPaired (add_child c child)
      × ((add_child c child).items ≡ uniquer_hashables (c.items ++ child))
unfolding uniquer_hashables
add_child-IsPaired c child (d, h) =
    let s : unique_from c.members child ≡ unique_from (c.items ++ []) child =
      unique_from_members c.members (c.items ++ []) child
        (λ m. sym (h m) ∙ ap (IdSet.contains m) (sym (append-nil c.items))) in
    let e : (add_child c child).items ≡ uniquer_hashables (c.items ++ child) = ground (
      arith,
      s,
      add_child-items c child,
      unique_from-append [] c.items child,
      no_repeat c.items d,
    ) in
    (
      (
        subst IsNodup (sym e) (unique_from-IsNodup [] (c.items ++ child)),
        λ m.
            ap (IdSet.contains m) e
            ∙ contains-uniquer m (c.items ++ child)
            ∙ contains-append m c.items child
            ∙ ap (λ b. b || IdSet.contains m child) (h m)
            ∙ sym (add_child-members c child m),
      ),
      e,
    )

contains-drop_ignored :
    (m : NodeId) (ignored nodes : List NodeId)
    → IdSet.contains m (drop_ignored ignored nodes)
      ≡ (IdSet.contains m nodes && not (IdSet.contains m ignored))
unfolding drop_ignored IdSet.contains
contains-drop_ignored m ignored [] = refl
contains-drop_ignored m ignored (i ∷ nodes) = elim (Bool-cases (IdSet.contains i ignored)) [
  | inl e ↦ ground (arith, e, contains-drop_ignored m ignored nodes)
  | inr e ↦ ground (arith, e, contains-drop_ignored m ignored nodes)
]

-- The children of a node are its sources, dependencies and implicit dependencies that are not ignored.
pub contains-children_get :
    (l : Links) (m : NodeId)
    → IdSet.contains m (children_get l)
      ≡ (IdSet.contains m (all_children l) && not (IdSet.contains m l.ignore.members))
unfolding children_get IdSet.contains
contains-children_get l m = elim (List-cases l.ignore.members) [
  | inl e ↦ ground (arith, e)
  | inr (i, is, e) ↦ ground (arith, e, contains-drop_ignored m (i ∷ is) (all_children l))
]

-- ===== src/Scons/Children.antt =====
-- The lists of children of a `Node` of scons/scons-local-2.5.0/SCons/Node/__init__.py, and
-- `children_are_up_to_date`. Every list has its set beside it; a scan is not part of them.
pub mod Added
pub mod UpToDate
use graph_store.Prelude.{
  ℕ, zero, suc, Bool, true, false, ◌||◌, ◌&&◌, not, ltb, List, [], ◌∷◌, ◌++◌, ◌==◌, if◌then◌else◌,
}
use graph_store.Db.IdSet
use graph_store.Scons.Node.{NodeId, NodeState, Store, get_state, rank}

-- A collection and its set.
pub record Collection : Type 0 where
  pub items : List NodeId
  pub members : List NodeId

-- `ignore` has no items but its set is read.
pub record Links : Type 0 where
  pub sources : Collection
  pub depends : Collection
  pub ignore : Collection
  pub implicit : List NodeId
  pub specific_sources : Bool

unfoldable pub add_child : Collection → (child : List NodeId) → Collection
add_child c [] = c
add_child c (x ∷ child) =
    let more : Collection = record { items = c.items ++ x ∷ []; members = x ∷ c.members } in
    add_child (if IdSet.contains x c.members then c else more) child

unfoldable pub add_dependency : Links → List NodeId → Links
unfolding add_child
add_dependency l depend = record l { depends = add_child l.depends depend }

unfoldable pub add_ignore : Links → List NodeId → Links
unfolding add_child
add_ignore l depend = record l { ignore = add_child l.ignore depend }

unfoldable pub add_source : Links → List NodeId → Links
unfolding add_child
add_source l source =
    if l.specific_sources then l else (record l { sources = add_child l.sources source })

unfoldable pub set_specific_source : Links → List NodeId → Links
unfolding add_source
set_specific_source l source = record (add_source l source) { specific_sources = true }

unfoldable pub all_children : Links → List NodeId
all_children l = l.sources.items ++ l.depends.items ++ l.implicit

unfoldable pub drop_ignored : (ignored nodes : List NodeId) → List NodeId
drop_ignored ignored [] = []
drop_ignored ignored (i ∷ nodes) =
    let rest = drop_ignored ignored nodes in if IdSet.contains i ignored then rest else i ∷ rest

-- `children(None)` is `_children_get`, whose memoised value is left out.
unfoldable pub children_get : Links → List NodeId
unfolding all_children drop_ignored
children_get l = elim l.ignore.members [
  | [] ↦ all_children l
  | i ∷ is ↦ drop_ignored (i ∷ is) (all_children l)
]

-- The loop of `children_are_up_to_date` over the kids, and its body
unfoldable pub higher : (state k : ℕ) → ℕ
higher state k = if not (k == 0) && (state == 0 || ltb state k) then k else state

unfoldable pub highest_state : Store → (state : ℕ) → (kids : List NodeId) → ℕ
unfolding higher
highest_state s state [] = state
highest_state s state (kid ∷ kids) = highest_state s (higher state (rank (get_state s kid))) kids

unfoldable pub children_are_up_to_date : Store → Links → (always_build : Bool) → Bool
unfolding highest_state children_get
children_are_up_to_date s l always_build =
    let state = highest_state s 0 (children_get l) in
    if always_build then false else state == 0 || state == rank NodeState.up_to_date

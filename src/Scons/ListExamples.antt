-- ===== src/Scons/ListExamples.antt =====
-- Lists of nodes with repetitions, and a walk through a circle.
use graph_store.Prelude.{
  zero, suc, ◌≡◌, ◌↔◌, refl, true, false, some, List, [], ◌∷◌, ◌++◌, arith, not, ◌==◌, none,
}
use graph_store.Db.IdSet
use graph_store.Scons.Node.{NodeId, NodeState, new_node, Store}
use graph_store.Scons.Executor.{uniquer_hashables}
use graph_store.Scons.UniqueList.{new_list, make_unique}
use graph_store.Scons.UniqueList.Reads.{
  Use, extends, appends, reads, use_all, added, use_all-uniquer_hashables,
}
use graph_store.Scons.Children.{Collection, Links, children_get, children_are_up_to_date}
use graph_store.Scons.Children.Added.{IsPaired}
use graph_store.Scons.Children.UpToDate.{NoneHigher, children_are_up_to_date-NoneHigher}
use graph_store.Scons.Changed.{BuildInfo, Decider, changed}
use graph_store.Scons.Changed.Unchanged.{AreSame, changed-AreSame}
use graph_store.Scons.Walker.{Kids, new_walker}
use graph_store.Scons.Walker.Order.{order}
use graph_store.Scons.Walker.Walk.{Returns, get_next-order}

abbrev some_uses : List Use
some_uses = extends (1 ∷ 2 ∷ 1 ∷ []) ∷ reads ∷ appends 2 ∷ extends (3 ∷ 1 ∷ []) ∷ []

use_all-uniquer_hashables_example :
    (make_unique (use_all (new_list []) some_uses)).data'
    ≡ uniquer_hashables ((new_list []).data' ++ added some_uses)
unfolding new_list
use_all-uniquer_hashables_example = use_all-uniquer_hashables (new_list []) some_uses (λ e. tt)

abbrev two_children : Collection
two_children = record { items = 1 ∷ 2 ∷ []; members = 2 ∷ 1 ∷ [] }

two_children-IsPaired : IsPaired two_children
unfolding IdSet.contains
two_children-IsPaired = ((refl, (refl, tt)), λ m. ground arith)

abbrev links : Links
links = record {
  sources = two_children;
  depends = record { items = []; members = [] };
  ignore = record { items = []; members = [] };
  implicit = [];
  specific_sources = false;
}

-- The first child is pending, and the second up to date.
abbrev mixed : Store
mixed zero = new_node
mixed (suc zero) = record new_node { state = NodeState.pending }
mixed (suc (suc n)) = record new_node { state = NodeState.up_to_date }

children_are_up_to_date-NoneHigher_example :
    (children_are_up_to_date mixed links false ≡ true) ↔ NoneHigher mixed (children_get links)
children_are_up_to_date-NoneHigher_example = children_are_up_to_date-NoneHigher mixed links

-- 0 leads to 1 and 2, 1 to 2, and 2 back to 0.
abbrev circle : Kids
circle zero = 1 ∷ 2 ∷ []
circle (suc zero) = 2 ∷ []
circle (suc (suc zero)) = 0 ∷ []
circle (suc (suc (suc n))) = []

circle_inside : (m : NodeId) → IdSet.contains m (0 ∷ 1 ∷ 2 ∷ []) ≡ false → circle m ≡ []
unfolding IdSet.contains
circle_inside zero e = absurd (ground (arith, e))
circle_inside (suc zero) e = absurd (ground (arith, e))
circle_inside (suc (suc zero)) e = absurd (ground (arith, e))
circle_inside (suc (suc (suc n))) e = refl

get_next-order_example :
    (nodes : List NodeId) × (order 6 circle (0 ∷ []) (circle 0) ≡ some nodes)
    × Returns circle (new_walker circle 0) (nodes ++ 0 ∷ [])
unfolding IdSet.contains
get_next-order_example = get_next-order (0 ∷ 1 ∷ 2 ∷ []) circle 0 6 circle_inside (omega arith)

-- Two sources and an implicit dependency; a child has changed if its signature is not its number.
abbrev info : BuildInfo
info = record { source_sigs = 1 ∷ 2 ∷ []; depend_sigs = []; implicit_sigs = 3 ∷ []; act_sig = 7 }

abbrev by_number : Decider
by_number child target none = true
by_number child target (some sig) = not (sig == child)

changed-AreSame_example :
    (changed by_number 0 info (1 ∷ 2 ∷ 3 ∷ []) true 7 ≡ false)
    ↔ (AreSame by_number 0 (1 ∷ 2 ∷ 3 ∷ []) (1 ∷ 2 ∷ 3 ∷ []) × (true ≡ true → info.act_sig ≡ 7))
changed-AreSame_example = changed-AreSame by_number 0 info (1 ∷ 2 ∷ 3 ∷ []) true 7

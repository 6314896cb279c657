-- ===== src/Db/MemoryStore/Graph.antt =====
-- The abstract specification of the store: an undirected graph without loops, and what each of
-- the operations of src/db/graph_store.h on nodes and edges does to it.
use graph_store.Prelude.{◌^◌, ◌<◌, ◌≡◌, Bool, true, false, not, ◌&&◌, ◌||◌, ◌==◌, if◌then◌else◌}
use graph_store.Util.Status.{StatusCode}
use graph_store.Db.Types.{NodeId}

pub record Graph : Type 0 where
  pub node : NodeId → Bool
  pub edge : NodeId → NodeId → Bool

-- Edges join different nodes, in both directions.
pub record IsGraph (g : Graph) : Type 0 where
  pub symmetric : (a b : NodeId) → g.edge a b ≡ g.edge b a
  pub irreflexive : (a : NodeId) → g.edge a a ≡ false
  pub ends : (a b : NodeId) → g.edge a b ≡ true → g.node a ≡ true

pub data Op : Type 0 where
  add_node remove_node : NodeId → Op
  add_edge remove_edge : NodeId → NodeId → Op

-- The ids of an operation are 64-bit patterns.
abbrev pub InRange : Op → Type 0
InRange (add_node a) = a < 2 ^ 64
InRange (remove_node a) = a < 2 ^ 64
InRange (add_edge a b) = (a < 2 ^ 64) × (b < 2 ^ 64)
InRange (remove_edge a b) = (a < 2 ^ 64) × (b < 2 ^ 64)

-- `x` and `y` are `a` and `b`, in one order or the other.
abbrev pub joins : NodeId → NodeId → NodeId → NodeId → Bool
joins a b x y = a == x && b == y || b == x && a == y

abbrev pub status : Graph → Op → StatusCode
status g (add_node a) = if g.node a then StatusCode.no_action else StatusCode.success
status g (remove_node a) = if g.node a then StatusCode.success else StatusCode.does_not_exist
status g (add_edge a b) =
    if a == b
    then StatusCode.invalid
    else if not (g.node a && g.node b)
    then StatusCode.does_not_exist
    else if g.edge a b
    then StatusCode.no_action
    else StatusCode.success
status g (remove_edge a b) =
    if a == b
    then StatusCode.invalid
    else if g.edge a b
    then StatusCode.success
    else StatusCode.does_not_exist

abbrev pub effect : Graph → Op → Graph
effect g (add_node a) = record g { node = λ x. a == x || g.node x }
effect g (remove_node a) = record {
  node = λ x. not (a == x) && g.node x;
  edge = λ x y. not (a == x) && (not (a == y) && g.edge x y);
}
effect g (add_edge a b) = record g {
  edge = λ x y. g.edge x y || (not (a == b) && (g.node a && g.node b)) && joins a b x y;
}
effect g (remove_edge a b) = record g { edge = λ x y. not (joins a b x y) && g.edge x y }

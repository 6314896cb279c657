-- ===== src/Db/GraphStore/Idle.antt =====
-- An operation of src/db/graph_store.h whose status is not SUCCESS leaves the abstract graph as it is.
use mathlib.Core.Path.{fun_ext}
use graph_store.Prelude.{◌≡◌, arith, refl, false}
use graph_store.Util.Status.{is_success}
use graph_store.Db.Types.{NodeId}
use graph_store.Db.MemoryStore.Graph.{
  Graph, Op, IsGraph, status, effect, add_node, remove_node, add_edge, remove_edge,
}

idle_node :
    (g : Graph) (op : Op) (x : NodeId)
    → IsGraph g
    → is_success (status g op) ≡ false
    → (effect g op).node x ≡ g.node x
idle_node g (add_node a) x w h = ground (arith, h)
idle_node g (remove_node a) x w h = ground (arith, h)
idle_node g (add_edge a b) x w h = refl
idle_node g (remove_edge a b) x w h = refl

idle_edge :
    (g : Graph) (op : Op) (x y : NodeId)
    → IsGraph g
    → is_success (status g op) ≡ false
    → (effect g op).edge x y ≡ g.edge x y
idle_edge g (add_node a) x y w h = refl
idle_edge g (remove_node a) x y w h = ground (arith, h, w.ends x y, w.ends y x, w.symmetric x y)
idle_edge g (add_edge a b) x y w h = ground (arith, h, w.symmetric a b)
idle_edge g (remove_edge a b) x y w h = ground (arith, h, w.symmetric a b, w.irreflexive a)

pub effect_idle :
    (g : Graph) (op : Op) → IsGraph g → is_success (status g op) ≡ false → effect g op ≡ g
effect_idle g op w h i = record {
  node = fun_ext (λ x. idle_node g op x w h) i;
  edge = fun_ext (λ x. fun_ext (λ y. idle_edge g op x y w h)) i;
}

-- ===== src/Scons/Walker.antt =====
-- `Walker` of scons/scons-local-2.5.0/SCons/Node/__init__.py. The attribute `wkids` of the nodes is a
-- function, and `None` of it the empty list; `kids_func` looks at the node alone, and the functions
-- `cycle_func` and `eval_func` change nothing.
pub mod Order
pub mod Walk
use graph_store.Prelude.{
  ℕ, zero, suc, Bool, true, false, List, [], ◌∷◌, Option, none, some, ◌==◌, if◌then◌else◌,
}
use graph_store.Db.IdSet
use graph_store.Scons.Node.{NodeId}

abbrev pub Kids : Type 0
Kids = NodeId → List NodeId

pub record Walker : Type 0 where
  pub wkids : Kids
  pub stack : List NodeId
  pub history : List NodeId

unfoldable pub set_wkids : Kids → NodeId → List NodeId → Kids
set_wkids wkids n kids m = if n == m then kids else wkids m

-- `Walker.__init__`, from nodes without `wkids`
abbrev pub new_walker : Kids → NodeId → Walker
new_walker kids node = record {
  wkids = set_wkids (λ n. []) node (kids node);
  stack = node ∷ [];
  history = node ∷ [];
}

-- One round of the loop of `get_next`, with the node if it returns one.
unfoldable pub turn : Kids → Walker → Walker × Option NodeId
unfolding set_wkids
turn kids w = elim w.stack [
  | [] ↦ (w, none)
  | top ∷ below ↦ elim (w.wkids top) [
    | [] ↦ (record w { stack = below; history = IdSet.erase top w.history }, some top)
    | node ∷ rest ↦ elim (IdSet.contains node w.history) [
      | true ↦ (record w { wkids = set_wkids w.wkids top rest }, none)
      | false ↦ (
        record {
          wkids = set_wkids (set_wkids w.wkids top rest) node (kids node);
          stack = node ∷ top ∷ below;
          history = node ∷ w.history;
        },
        none,
      )
    ]
  ]
]

-- `none` is out of fuel, and `some (w, none)` the end of the walk.
unfoldable pub get_next : (fuel : ℕ) → Kids → Walker → Option (Walker × Option NodeId)
unfolding turn
get_next zero kids w = elim w.stack [ [] ↦ some (w, none) | n ∷ stack ↦ none ]
get_next (suc fuel) kids w = elim w.stack [
  | [] ↦ some (w, none)
  | n ∷ stack ↦ elim (turn kids w).1 [
    | some node ↦ some ((turn kids w).0, some node)
    | none ↦ get_next fuel kids (turn kids w).0
  ]
]

abbrev pub is_done : Walker → Bool
is_done w = elim w.stack [ [] ↦ true | n ∷ stack ↦ false ]

-- All the nodes that calls of `get_next` return until the walk ends; the fuel is for the rounds of
-- its loop in all calls.
unfoldable pub walk : (fuel : ℕ) → Kids → Walker → Option (List NodeId)
unfolding turn
walk zero kids w = elim w.stack [ [] ↦ some [] | n ∷ stack ↦ none ]
walk (suc fuel) kids w = elim w.stack [
  | [] ↦ some []
  | n ∷ stack ↦ elim (walk fuel kids (turn kids w).0) [
    | none ↦ none
    | some nodes ↦ elim (turn kids w).1 [ none ↦ some nodes | some node ↦ some (node ∷ nodes) ]
  ]
]

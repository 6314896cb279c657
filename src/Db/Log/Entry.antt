-- ===== src/Db/Log/Entry.antt =====
-- LogManager::OpCode and LogManager::Entry of src/db/log_manager.h.
use graph_store.Prelude.{ℕ, ◌<◌, ◌≡◌, refl, arith, ◌==◌, if◌then◌else◌}
use graph_store.Db.Types.{NodeId}

-- `other` is a value that a `uint32_t` may have and that no enumerator has.
pub data OpCode : Type 0 where
  add_node add_edge add_edge_part remove_node remove_edge remove_edge_part : OpCode
  other : ℕ → OpCode

pub record Entry : Type 0 where
  pub opcode : OpCode
  pub id_a : NodeId
  pub id_b : NodeId

unfoldable pub to_code : OpCode → ℕ
to_code add_node = 0
to_code add_edge = 1
to_code add_edge_part = 2
to_code remove_node = 3
to_code remove_edge = 4
to_code remove_edge_part = 5
to_code (other n) = n

unfoldable pub of_code : ℕ → OpCode
of_code n =
    if n == 0
    then add_node
    else if n == 1
    then add_edge
    else if n == 2
    then add_edge_part
    else if n == 3
    then remove_node
    else if n == 4
    then remove_edge
    else if n == 5
    then remove_edge_part
    else other n

-- The opcode is one of the enumerators.
abbrev pub IsNamed : OpCode → Type 0
IsNamed (other n) = ⊥
IsNamed _ = Unit

pub of_code-to_code : (op : OpCode) → IsNamed op → of_code (to_code op) ≡ op
unfolding of_code to_code
of_code-to_code add_node h = refl
of_code-to_code add_edge h = refl
of_code-to_code add_edge_part h = refl
of_code-to_code remove_node h = refl
of_code-to_code remove_edge h = refl
of_code-to_code remove_edge_part h = refl
of_code-to_code (other n) h = elim h [ ]

pub to_code-lt : (op : OpCode) → IsNamed op → to_code op < 6
unfolding to_code
to_code-lt add_node h = omega arith
to_code-lt add_edge h = omega arith
to_code-lt add_edge_part h = omega arith
to_code-lt remove_node h = omega arith
to_code-lt remove_edge h = omega arith
to_code-lt remove_edge_part h = omega arith
to_code-lt (other n) h = elim h [ ]

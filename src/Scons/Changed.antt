-- ===== src/Scons/Changed.antt =====
-- `Node.changed` of scons/scons-local-2.5.0/SCons/Node/__init__.py. A signature is a number; the
-- decider of a child, the stored build info and the signature of the executor's contents are
-- parameters. The node information that a decider updates is left out.
pub mod Unchanged
use graph_store.Prelude.{
  ℕ, zero, suc, ◌-◌, Bool, true, false, not, ◌||◌, ◌&&◌, Option, none, some, List, [], ◌∷◌, ◌++◌,
  ◌==◌, length,
}
use graph_store.Scons.Node.{NodeId}

abbrev pub Sig : Type 0
Sig = ℕ

pub record BuildInfo : Type 0 where
  pub source_sigs : List Sig
  pub depend_sigs : List Sig
  pub implicit_sigs : List Sig
  pub act_sig : Sig

-- `changed_since_last_build` of a child, for the node and what was stored of the child
abbrev pub Decider : Type 0
Decider = (child target : NodeId) → Option Sig → Bool

abbrev pub stored_sigs : BuildInfo → List Sig
stored_sigs bi = bi.source_sigs ++ bi.depend_sigs ++ bi.implicit_sigs

-- `then.extend([None] * diff)`
unfoldable pub pad_sigs : (stored : List Sig) → (diff : ℕ) → List (Option Sig)
pad_sigs [] zero = []
pad_sigs [] (suc diff) = none ∷ pad_sigs [] diff
pad_sigs (sig ∷ stored) diff = some sig ∷ pad_sigs stored diff

-- the loop over `zip(children, then)`
unfoldable pub any_changed :
    Decider → (target : NodeId) → (children : List NodeId) → List (Option Sig) → Bool
any_changed decide target [] stored = false
any_changed decide target (child ∷ children) [] = false
any_changed decide target (child ∷ children) (prev ∷ stored) =
    decide child target prev || any_changed decide target children stored

-- A list that is longer than the children is not extended.
unfoldable pub changed :
    Decider
    → (node : NodeId) → BuildInfo
    → (children : List NodeId) → (has_builder : Bool) → (new_sig : Sig) → Bool
unfolding pad_sigs any_changed
changed decide node bi children has_builder new_sig =
    let stored = stored_sigs bi in
    not (length children == length stored)
    || any_changed decide node children (pad_sigs stored (length children - length stored))
    || (has_builder && not (bi.act_sig == new_sig))

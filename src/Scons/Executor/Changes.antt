-- ===== src/Scons/Executor/Changes.antt =====
-- `_get_changes`, `get_unignored_sources` and `execute_action_list` of
-- scons/scons-local-2.5.0/SCons/Executor.py. `rfile` of a node is the node itself, the memoised values
-- are left out, and an action is what it returns.
use graph_store.Prelude.{
  ℕ, zero, suc, ◌≡◌, ◌≢◌, refl, ◌⊎◌, inl, inr, Bool, true, false, not, ◌&&◌, ◌||◌, List, [], ◌∷◌,
  ◌++◌, Option, none, some, arith, if◌then◌else◌,
}
use graph_store.Db.IdSet
use graph_store.Db.IdSet.{contains-append}
use graph_store.Scons.Node.{NodeId}
use graph_store.Scons.Executor.{Batch, Executor, targets_of, sources_of, get_all_sources}

pub record Changes : Type 0 where
  pub changed_sources : List NodeId
  pub changed_targets : List NodeId
  pub unchanged_sources : List NodeId
  pub unchanged_targets : List NodeId

-- Whether a batch is unchanged: its first target is up to date and not always built.
unfoldable pub is_unchanged :
    (always_build is_up_to_date : NodeId → Bool) → (targets : List NodeId) → Option Bool
is_unchanged always_build is_up_to_date [] = none
is_unchanged always_build is_up_to_date (t ∷ targets) =
    some (not (always_build t) && is_up_to_date t)

unfoldable pub put_batch : (unchanged : Bool) → Batch → Changes → Changes
put_batch true b c = record c {
  unchanged_sources = b.sources ++ c.unchanged_sources;
  unchanged_targets = b.targets ++ c.unchanged_targets;
}
put_batch false b c = record c {
  changed_sources = b.sources ++ c.changed_sources;
  changed_targets = b.targets ++ c.changed_targets;
}

-- The lists are filled from the front of the batches; `none` is an `IndexError`.
unfoldable pub get_changes :
    (always_build is_up_to_date : NodeId → Bool) → List Batch → Option Changes
unfolding is_unchanged put_batch
get_changes always_build is_up_to_date [] = some (record {
  changed_sources = [];
  changed_targets = [];
  unchanged_sources = [];
  unchanged_targets = [];
})
get_changes always_build is_up_to_date (b ∷ batches) =
    elim (is_unchanged always_build is_up_to_date b.targets) [
      | none ↦ none
      | some unchanged ↦ elim (get_changes always_build is_up_to_date batches) [
        | none ↦ none
        | some c ↦ some (put_batch unchanged b c)
      ]
    ]

-- The sources of the first batch with the node among its targets.
unfoldable pub sources_for : (node : NodeId) → List Batch → List NodeId
sources_for node [] = []
sources_for node (b ∷ batches) =
    let rest = sources_for node batches in if IdSet.contains node b.targets then b.sources else rest

unfoldable pub without : (ignore nodes : List NodeId) → List NodeId
without ignore [] = []
without ignore (n ∷ nodes) =
    let rest = without ignore nodes in if IdSet.contains n ignore then rest else n ∷ rest

unfoldable pub get_unignored_sources :
    Executor → (node : Option NodeId) → (ignore : List NodeId) → List NodeId
unfolding sources_for without
get_unignored_sources e node ignore =
    let sources : List NodeId = elim node [
      | none ↦ get_all_sources e
      | some n ↦ sources_for n e.batches
    ] in
    elim ignore [ [] ↦ sources | i ∷ is ↦ without (i ∷ is) sources ]

-- What an action returns: a status, or a `BuildError`.
pub data ActionResult : Type 0 where
  status : ℕ → ActionResult
  build_error : ActionResult

-- The `BuildError` that is raised: one that an action returned, or one made from a status.
pub data Failure : Type 0 where
  returned : Failure
  from_status : ℕ → Failure

-- The actions are run in order, up to the first that fails.
unfoldable pub execute_action_list : List ActionResult → Failure ⊎ ℕ
execute_action_list [] = inr 0
execute_action_list (build_error ∷ actions) = inl returned
execute_action_list (status zero ∷ actions) = execute_action_list actions
execute_action_list (status (suc n) ∷ actions) = inl (from_status (suc n))

-- Every batch has a target.
abbrev pub HaveTargets : List Batch → Type 0
HaveTargets [] = Unit
HaveTargets (b ∷ batches) = (b.targets ≢ []) × HaveTargets batches

abbrev pub Splits : List Batch → Changes → Type 0
Splits batches c =
    (m : NodeId)
    → ((IdSet.contains m c.changed_targets || IdSet.contains m c.unchanged_targets)
        ≡ IdSet.contains m (targets_of batches))
      × ((IdSet.contains m c.changed_sources || IdSet.contains m c.unchanged_sources)
          ≡ IdSet.contains m (sources_of batches))

put_batch-Splits :
    (unchanged : Bool) (b : Batch) (batches : List Batch) (c : Changes)
    → Splits batches c
    → Splits (b ∷ batches) (put_batch unchanged b c)
unfolding put_batch targets_of sources_of
put_batch-Splits true b batches c h m = ground (
  arith,
  h m,
  contains-append m b.targets c.unchanged_targets,
  contains-append m b.sources c.unchanged_sources,
  contains-append m b.targets (targets_of batches),
  contains-append m b.sources (sources_of batches),
)
put_batch-Splits false b batches c h m = ground (
  arith,
  h m,
  contains-append m b.targets c.changed_targets,
  contains-append m b.sources c.changed_sources,
  contains-append m b.targets (targets_of batches),
  contains-append m b.sources (sources_of batches),
)

is_unchanged-some :
    (always_build is_up_to_date : NodeId → Bool) (targets : List NodeId)
    → targets ≢ []
    → (u : Bool) × (is_unchanged always_build is_up_to_date targets ≡ some u)
unfolding is_unchanged
is_unchanged-some always_build is_up_to_date [] h = absurd (h refl)
is_unchanged-some always_build is_up_to_date (t ∷ targets) h =
    (not (always_build t) && is_up_to_date t, refl)

-- Where every batch has a target, `_get_changes` raises no exception, and the changed and the
-- unchanged targets together are the targets of the batches, and so are the sources.
pub get_changes-Splits :
    (always_build is_up_to_date : NodeId → Bool) (batches : List Batch)
    → HaveTargets batches
    → (c : Changes) × (get_changes always_build is_up_to_date batches ≡ some c) × Splits batches c
unfolding get_changes is_unchanged targets_of sources_of IdSet.contains
get_changes-Splits always_build is_up_to_date [] h = (
  record {
    changed_sources = [];
    changed_targets = [];
    unchanged_sources = [];
    unchanged_targets = [];
  },
  refl,
  λ m. (refl, refl),
)
get_changes-Splits always_build is_up_to_date (b ∷ batches) h =
    let (c, g, s) = get_changes-Splits always_build is_up_to_date batches h.1 in
    let (u, e) = is_unchanged-some always_build is_up_to_date b.targets h.0 in
    (put_batch u b c, ground (arith, e, g), put_batch-Splits u b batches c s)

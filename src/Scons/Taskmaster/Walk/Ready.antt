-- ===== src/Scons/Taskmaster/Walk/Ready.antt =====
-- What holds of a node that `_find_next_ready_node` returns.
use graph_store.Prelude.{
  ◌≡◌, ◌≢◌, refl, sym, ap, subst, List-cases, ◌∙◌, ◌⊎◌, inl, inr, Bool, false, none, some, List, [],
  ◌∷◌, ◌++◌, arith, Bool-cases,
}
use graph_store.Scons.Node.{NodeId, NodeState, Store, get_state, set_state, update, same_state}
use graph_store.Scons.Executor.{
  Exception, Scan, found, thrown, get_all_children, get_all_prerequisites, get_action_side_effects,
}
use graph_store.Scons.Taskmaster.State.{Engine, Taskmaster}
use graph_store.Scons.Taskmaster.Walk.{
  ChildStates, note_child, sort_children, wait_side_effects, settle, examine, consider, ready, next,
  explain, push_children,
}

abbrev pub IsBuilt : NodeState → Type 0
IsBuilt v = (v ≡ NodeState.up_to_date) ⊎ (v ≡ NodeState.executed)

abbrev pub AreBuilt : Store → List NodeId → Type 0
AreBuilt s [] = Unit
AreBuilt s (n ∷ nodes) = IsBuilt (get_state s n) × AreBuilt s nodes

abbrev pub NoneExecuting : Store → List NodeId → Type 0
NoneExecuting s [] = Unit
NoneExecuting s (n ∷ nodes) = (get_state s n ≢ NodeState.executing) × NoneExecuting s nodes

-- The node is pending, its scan has given children, they and its prerequisites are built, and none
-- of its side effects is being built.
abbrev pub IsReady : Engine → Store → NodeId → Type 0
IsReady eng s node =
    (get_state s node ≡ NodeState.pending)
    × ((children : List NodeId) × (get_all_children (eng.executor node) (eng.children s)
          ≡ found children)
        × AreBuilt s (get_all_prerequisites (eng.executor node) eng.prerequisites ++ children))
    × NoneExecuting s (get_action_side_effects (eng.executor node) eng.side_effects)

-- The exception of the scan of a pending node is recorded.
abbrev pub IsProblem : Engine → Taskmaster → NodeId → Type 0
IsProblem eng tm node =
    (get_state tm.store node ≡ NodeState.pending)
    × ((e : Exception) × (get_all_children (eng.executor node) (eng.children tm.store) ≡ thrown e)
        × (tm.ready_exc ≡ some (explain node e)))

note_child-IsBuilt :
    (child : NodeId) (v : NodeState) (r : ChildStates)
    → (note_child child v r).failed ≡ false
    → (note_child child v r).not_ready ≡ []
    → IsBuilt v × (r.failed ≡ false) × (r.not_ready ≡ [])
unfolding note_child
note_child-IsBuilt child NodeState.no_state r h e = absurd (ground arith)
note_child-IsBuilt child NodeState.pending r h e = absurd (ground arith)
note_child-IsBuilt child NodeState.executing r h e = absurd (ground arith)
note_child-IsBuilt child NodeState.up_to_date r h e = (inl refl, h, e)
note_child-IsBuilt child NodeState.executed r h e = (inr refl, h, e)
note_child-IsBuilt child NodeState.failed r h e = absurd (ground arith)

sort_children-AreBuilt :
    (s : Store) (children : List NodeId)
    → (sort_children s children).failed ≡ false
    → (sort_children s children).not_ready ≡ []
    → AreBuilt s children
unfolding sort_children
sort_children-AreBuilt s [] h e = tt
sort_children-AreBuilt s (c ∷ children) h e =
    let (b, h', e') = note_child-IsBuilt c (get_state s c) (sort_children s children) h e in
    (b, sort_children-AreBuilt s children h' e')

wait_side_effects-NoneExecuting :
    (s : Store) (node : NodeId) (ses : List NodeId)
    → (wait_side_effects s node ses).1 ≡ false
    → ((wait_side_effects s node ses).0 ≡ s) × NoneExecuting s ses
unfolding wait_side_effects
wait_side_effects-NoneExecuting s node [] h = (refl, tt)
wait_side_effects-NoneExecuting s node (se ∷ ses) h =
    elim (Bool-cases (same_state (get_state s se) NodeState.executing)) [
      | inl e ↦ absurd (ground (arith, e))
      | inr e ↦
          let h' : (wait_side_effects s node ses).1 ≡ false = ground (arith, e, h) in
          let (same, nothing) = wait_side_effects-NoneExecuting s node ses h' in
          rw (e, wait_side_effects) (same, ((λ d. ground (arith, e, d)), nothing))
    ]

settle_ready :
    (eng : Engine) (tm tm' : Taskmaster) (node : NodeId) (c : ChildStates)
    → settle eng tm node c ≡ ready tm'
    → (c.failed ≡ false)
      × (c.not_ready ≡ [])
      × NoneExecuting tm.store (get_action_side_effects (eng.executor node) eng.side_effects)
      × (tm' ≡ tm)
unfolding settle
settle_ready eng tm tm' node c h =
    let ses : List NodeId = get_action_side_effects (eng.executor node) eng.side_effects in
    let r : Store × Bool = wait_side_effects tm.store node ses in
    elim (Bool-cases c.failed) [
      | inl e ↦ absurd (ground (arith, e, h))
      | inr e ↦ elim (List-cases c.not_ready) [
        | inr (x, xs, e') ↦ absurd (ground (arith, e, e', h))
        | inl e' ↦ elim (Bool-cases r.1) [
          | inl w ↦ absurd (ground (arith, e, e', w, h))
          | inr w ↦
              let (same, nothing) = wait_side_effects-NoneExecuting tm.store node ses w in
              let t : tm' ≡ record tm { store = r.0 } = ground (arith, e, e', w, h) in
              (e, e', nothing, t ∙ ap (λ s. record tm { store = s }) same)
        ]
      ]
    ]

pub Scan-cases :
    (scan : Scan)
    → ((children : List NodeId) × (scan ≡ found children)) ⊎ ((e : Exception) × (scan ≡ thrown e))
Scan-cases (found children) = inl (children, refl)
Scan-cases (thrown e) = inr (e, refl)

abbrev pub IsReturned : Engine → Taskmaster → NodeId → Type 0
IsReturned eng tm node = ((tm.ready_exc ≡ none) × IsReady eng tm.store node) ⊎ IsProblem eng tm node

examine_ready :
    (eng : Engine) (tm tm' : Taskmaster) (node : NodeId)
    → get_state tm.store node ≡ NodeState.pending
    → tm.ready_exc ≡ none
    → examine eng tm node ≡ ready tm'
    → IsReturned eng tm' node
unfolding examine push_children
examine_ready eng tm tm' node p x h =
    elim (Scan-cases (get_all_children (eng.executor node) (eng.children tm.store))) [
      | inr (e, e') ↦
          let t : record tm { ready_exc = some (explain node e) } ≡ tm' = ground (arith, e', h) in
          inr (subst (λ t. IsProblem eng t node) t (p, (e, e', refl)))
      | inl (children, e) ↦
          let all : List NodeId =
            get_all_prerequisites (eng.executor node) eng.prerequisites ++ children in
          let c : ChildStates = sort_children tm.store all in
          let g : settle eng (push_children eng tm c) node c ≡ ready tm' = ground (arith, e, h) in
          let (f, nr, ses, t) = settle_ready eng (push_children eng tm c) tm' node c g in
          inl (
            subst (λ t. (t.ready_exc ≡ none) × IsReady eng t.store node) (sym t)
              (x, (p, (children, e, sort_children-AreBuilt tm.store all f nr), ses)))
    ]

-- The state of the node before the round.
abbrev pub visit : Taskmaster → NodeId → Taskmaster
visit tm node = record tm { store = set_state tm.store node NodeState.pending }

pub consider-cases :
    (eng : Engine) (tm : Taskmaster) (node : NodeId)
    → (get_state tm.store node ≡ NodeState.no_state)
        × (consider eng tm node ≡ examine eng (visit tm node) node)
      ⊎ (get_state tm.store node ≡ NodeState.pending) × (consider eng tm node ≡ examine eng tm node)
      ⊎ (get_state tm.store node ≢ NodeState.no_state) × (consider eng tm node ≡ next tm)
unfolding consider
consider-cases eng tm node = by_state (get_state tm.store node) refl
  where
    by_state :
        (v : NodeState)
        → get_state tm.store node ≡ v
        → (get_state tm.store node ≡ NodeState.no_state)
            × (consider eng tm node ≡ examine eng (visit tm node) node)
          ⊎ (get_state tm.store node ≡ NodeState.pending)
            × (consider eng tm node ≡ examine eng tm node)
          ⊎ (get_state tm.store node ≢ NodeState.no_state) × (consider eng tm node ≡ next tm)
    by_state NodeState.no_state e = inl (e, rw (e, consider) refl)
    by_state NodeState.pending e = inr (inl (e, rw (e, consider) refl))
    by_state NodeState.executing e = inr (inr ((λ d. ground (arith, e, d)), rw (e, consider) refl))
    by_state NodeState.up_to_date e = inr (inr ((λ d. ground (arith, e, d)), rw (e, consider) refl))
    by_state NodeState.executed e = inr (inr ((λ d. ground (arith, e, d)), rw (e, consider) refl))
    by_state NodeState.failed e = inr (inr ((λ d. ground (arith, e, d)), rw (e, consider) refl))

pub set_state_at : (s : Store) (n : NodeId) (v : NodeState) → get_state (set_state s n v) n ≡ v
unfolding set_state update
set_state_at s n v = ground arith

pub consider_ready :
    (eng : Engine) (tm tm' : Taskmaster) (node : NodeId)
    → tm.ready_exc ≡ none
    → consider eng tm node ≡ ready tm'
    → IsReturned eng tm' node
consider_ready eng tm tm' node x h = elim (consider-cases eng tm node) [
  | inl (e, c) ↦
      examine_ready eng (visit tm node) tm' node (set_state_at tm.store node NodeState.pending) x
        (sym c ∙ h)
  | inr (inl (e, c)) ↦ examine_ready eng tm tm' node e x (sym c ∙ h)
  | inr (inr (e, c)) ↦ absurd (ground (arith, c, h))
]

-- ===== src/Scons/Taskmaster/Walk/Advance.antt =====
-- The states and the candidates behind a round of `_find_next_ready_node`.
use graph_store.Prelude.{
  ◌≤◌, ◌≡◌, refl, sym, ◌∙◌, ap, inl, inr, Bool, false, List, [], ◌∷◌, arith, length, Bool-cases,
  List-cases, subst, if◌then◌else◌,
}
use native.Mathlib.Decide.{ℕ_discrete}
use graph_store.Util.Int.{ℤ, pos, ◌+ℤ◌}
use graph_store.Db.IdSet
use graph_store.Scons.Node.{
  NodeId, NodeState, Store, get_state, set_state, set_ref_count, set_waiting_parents, update,
  same_state, add_to_waiting_parents, add_to_waiting_s_e,
}
use graph_store.Scons.Executor.{get_action_side_effects}
use graph_store.Scons.Taskmaster.State.{Engine, Taskmaster, set_states}
use graph_store.Scons.Taskmaster.Flush.{union}
use graph_store.Scons.Taskmaster.Walk.{
  ChildStates, note_child, sort_children, wait_for, wait_side_effects, settle, next,
}
use graph_store.Scons.Taskmaster.Walk.Measure.{is_new, Advances, IsInside, AreNew}

pub set_state-Advances :
    (s : Store) (n : NodeId) (v : NodeState)
    → same_state v NodeState.no_state ≡ false
    → Advances s (set_state s n v)
unfolding set_state update
set_state-Advances s n v h m e = ground (arith, h, e)

pub set_states-Advances :
    (s : Store) (nodes : List NodeId) (v : NodeState)
    → same_state v NodeState.no_state ≡ false
    → Advances s (set_states s nodes v)
unfolding set_states
set_states-Advances s [] v h m e = e
set_states-Advances s (n ∷ nodes) v h m e =
    set_state-Advances s n v h m (set_states-Advances (set_state s n v) nodes v h m e)

wait_one_keeps :
    (s : Store) (node child : NodeId) (c : ℤ) (m : NodeId)
    → get_state (set_ref_count (add_to_waiting_parents s child node).0 node c) m ≡ get_state s m
unfolding set_ref_count add_to_waiting_parents set_waiting_parents update
wait_one_keeps s node child c m = ground arith

wait_for_keeps :
    (s : Store) (node : NodeId) (children : List NodeId) (m : NodeId)
    → get_state (wait_for s node children) m ≡ get_state s m
unfolding wait_for
wait_for_keeps s node [] m = refl
wait_for_keeps s node (c ∷ children) m =
    let s' : Store =
      set_ref_count (add_to_waiting_parents s c node).0 node
        ((s node).ref_count +ℤ pos (add_to_waiting_parents s c node).1) in
    wait_for_keeps s' node children m ∙ wait_one_keeps s node c _ m

wait_se_keeps :
    (s : Store) (node se m : NodeId) → get_state (add_to_waiting_s_e s se node) m ≡ get_state s m
unfolding add_to_waiting_s_e update
wait_se_keeps s node se m = ground arith

wait_side_effects_keeps :
    (s : Store) (node : NodeId) (ses : List NodeId) (m : NodeId)
    → get_state (wait_side_effects s node ses).0 m ≡ get_state s m
unfolding wait_side_effects
wait_side_effects_keeps s node [] m = refl
wait_side_effects_keeps s node (se ∷ ses) m = ground (
  arith,
  wait_side_effects_keeps s node ses m,
  wait_side_effects_keeps (add_to_waiting_s_e s se node) node ses m,
  wait_se_keeps s node se m,
)

keeps-Advances : (s s' : Store) → ((m : NodeId) → get_state s' m ≡ get_state s m) → Advances s s'
keeps-Advances s s' h m e = ground (arith, h m, e)

-- What a round leaves alone.
abbrev pub GoesOn : Taskmaster → Taskmaster → Type 0
GoesOn tm tm' =
    Advances tm.store tm'.store
    × (tm'.candidates ≡ tm.candidates)
    × (tm'.top_targets_left ≡ tm.top_targets_left)
    × (tm'.stopped ≡ tm.stopped)

pub settle-GoesOn :
    (eng : Engine) (tm tm' : Taskmaster) (node : NodeId) (c : ChildStates)
    → settle eng tm node c ≡ next tm'
    → GoesOn tm tm'
unfolding settle
settle-GoesOn eng tm tm' node c h = elim (Bool-cases c.failed) [
  | inl e ↦
      let s : Store = set_states tm.store (eng.executor node).action_targets NodeState.failed in
      let t : record tm { store = s } ≡ tm' = ground (arith, e, h) in
      subst (GoesOn tm) t (
        set_states-Advances tm.store (eng.executor node).action_targets NodeState.failed refl,
        refl,
        refl,
        refl,
      )
  | inr e ↦ elim (List-cases c.not_ready) [
    | inr (x, xs, e') ↦
        let t : record tm {
          store = wait_for tm.store node (x ∷ xs);
          pending_children = union c.pending tm.pending_children;
        }
            ≡ tm' =
          ground (arith, e, e', h) in
        subst (GoesOn tm) t (
          keeps-Advances tm.store (wait_for tm.store node (x ∷ xs))
              (wait_for_keeps tm.store node (x ∷ xs)),
          refl,
          refl,
          refl,
        )
    | inl e' ↦
        let ses : List NodeId = get_action_side_effects (eng.executor node) eng.side_effects in
        let r : Store × Bool = wait_side_effects tm.store node ses in
        elim (Bool-cases r.1) [
          | inr w ↦ absurd (ground (arith, e, e', w, h))
          | inl w ↦
              let t : record tm { store = r.0 } ≡ tm' = ground (arith, e, e', w, h) in
              subst (GoesOn tm) t (
                keeps-Advances tm.store r.0 (wait_side_effects_keeps tm.store node ses),
                refl,
                refl,
                refl,
              )
        ]
  ]
]

note_child-not_visited :
    (c : NodeId) (v : NodeState) (r : ChildStates)
    → (note_child c v r).not_visited
      ≡ (if same_state v NodeState.no_state then c ∷ r.not_visited else r.not_visited)
unfolding note_child
note_child-not_visited c v r = ground arith

pub sort_children-not_visited :
    (s : Store) (children : List NodeId)
    → AreNew s (sort_children s children).not_visited
      × (length (sort_children s children).not_visited ≤ length children)
      × IsInside (sort_children s children).not_visited children
unfolding sort_children IdSet.contains
sort_children-not_visited s [] = (λ m i. absurd (ground (arith, i)), omega arith, λ m i. i)
sort_children-not_visited s (c ∷ children) =
    let r : ChildStates = sort_children s children in
    let (new, le, inside) = sort_children-not_visited s children in
    let e = note_child-not_visited c (get_state s c) r in
    elim (Bool-cases (is_new s c)) [
      | inr b ↦
          let d : (sort_children s (c ∷ children)).not_visited ≡ r.not_visited =
            ground (arith, e, b) in
          (
            λ m i. new m (ap (IdSet.contains m) (sym d) ∙ i),
            ground (arith, d, le),
            λ m i. ground (arith, inside m (ap (IdSet.contains m) (sym d) ∙ i)),
          )
      | inl b ↦
          let d : (sort_children s (c ∷ children)).not_visited ≡ c ∷ r.not_visited =
            ground (arith, e, b) in
          (
            λ m i. elim (ℕ_discrete m c) [
              | yes q ↦ rw q b
              | no ne ↦ new m (ground (arith, ap (IdSet.contains m) (sym d) ∙ i))
            ],
            ground (arith, d, le),
            λ m i. ground (arith, inside m, ap (IdSet.contains m) (sym d) ∙ i),
          )
    ]

-- ===== src/Scons/Taskmaster/Walk/Rounds.antt =====
-- What a round of `_find_next_ready_node` takes from the measure.
use graph_store.Prelude.{
  ℕ, ◌+◌, ◌≤◌, ◌≡◌, refl, sym, ◌∙◌, inl, inr, true, false, List, [], ◌++◌, arith, length,
  Bool-cases, subst, if◌then◌else◌,
}
use graph_store.Db.IdSet
use graph_store.Scons.Node.{NodeId, NodeState, Store, get_state}
use graph_store.Scons.Executor.{found, get_all_children, get_all_prerequisites}
use graph_store.Scons.Taskmaster.State.{Engine, Taskmaster, extend}
use graph_store.Scons.Taskmaster.Walk.{
  ChildStates, sort_children, settle, examine, consider, next, push_children,
}
use graph_store.Scons.Taskmaster.Walk.Ready.{visit, consider-cases, Scan-cases, set_state_at}
use graph_store.Scons.Taskmaster.Walk.Measure.{
  is_new, unseen, unseen_drops, cost_le, top_cost, IsInside, advance_le, push_le, length-extend,
  contains-extend,
}
use graph_store.Scons.Taskmaster.Walk.Advance.{
  settle-GoesOn, sort_children-not_visited, set_state-Advances,
}

-- What an engine over the nodes of a list does: its order is a rearrangement; the prerequisites of a
-- node and the children that a scan gives are together at most `width`, and stay inside the list; and
-- so do its alternatives.
pub record IsBounded (eng : Engine) (width : ℕ) (all : List NodeId) : Type 0 where
  pub length-order : (nodes : List NodeId) → length (eng.order nodes) ≡ length nodes
  pub contains-order :
      (m : NodeId) (nodes : List NodeId)
      → IdSet.contains m (eng.order nodes) ≡ IdSet.contains m nodes
  pub scans :
      (s : Store) (n : NodeId) (children : List NodeId)
      → get_all_children (eng.executor n) (eng.children s) ≡ found children
      → (length (get_all_prerequisites (eng.executor n) eng.prerequisites ++ children) ≤ width)
        × IsInside (get_all_prerequisites (eng.executor n) eng.prerequisites ++ children) all
  pub alternatives :
      (n : NodeId) → (length (eng.alter_targets n).0 ≤ width) × IsInside (eng.alter_targets n).0 all

module _ {eng : Engine} {w : ℕ} {all : List NodeId} (bounded : IsBounded eng w all) where
  -- What the candidates may still cost.
  abbrev pub cost : Taskmaster → ℕ
  cost tm = length tm.candidates + unseen tm.store w all + top_cost tm.store w tm.candidates

  abbrev pub RoundEnds : (tm tm' : Taskmaster) → (bound : ℕ) → Type 0
  RoundEnds tm tm' bound =
      (cost tm' ≤ bound)
      × IsInside tm'.candidates all
      × (tm'.top_targets_left ≡ tm.top_targets_left)
      × (tm'.stopped ≡ tm.stopped)

  push_children_le :
      (tm : Taskmaster) (children : List NodeId)
      → IsInside tm.candidates all
      → length children ≤ w
      → IsInside children all
      → (length (push_children eng tm (sort_children tm.store children)).candidates
            + top_cost tm.store w
                (push_children eng tm (sort_children tm.store children)).candidates
          ≤ length tm.candidates + w)
        × IsInside (push_children eng tm (sort_children tm.store children)).candidates all
  unfolding push_children IdSet.contains
  push_children_le tm children inside le within =
      let (new, le', sub) = sort_children-not_visited tm.store children in
      let nv : List NodeId = (sort_children tm.store children).not_visited in
      let l : List NodeId = eng.order (extend nv []) in
      let same =
        λ (m : NodeId). (bounded.contains-order m (extend nv []) ∙ contains-extend m nv []) in
      let of_l = λ (m : NodeId) (i : IdSet.contains m l ≡ true).
        (let j : IdSet.contains m nv ≡ true = ground (arith, same m, i) in j) in
      (
        push_le tm.store w l tm.candidates (λ m i. new m (of_l m i))
            (omega (arith, le, le', bounded.length-order (extend nv []), length-extend nv [])),
        λ m i. elim (Bool-cases (IdSet.contains m l)) [
          | inl j ↦ within m (sub m (of_l m j))
          | inr j ↦ inside m (ground (arith, j, i, contains-extend m l tm.candidates))
        ],
      )

  settle_le :
      (tm tm' : Taskmaster) (node : NodeId) (c : ChildStates)
      → IsInside tm.candidates all
      → settle eng tm node c ≡ next tm'
      → RoundEnds tm tm' (cost tm)
  settle_le tm tm' node c inside h =
      let (adv, same, tops, st) = settle-GoesOn eng tm tm' node c h in
      let le = advance_le tm.store tm'.store w all tm.candidates adv inside in
      (
        subst (λ l. length l + unseen tm'.store w all + top_cost tm'.store w l ≤ cost tm) (sym same)
            (omega (arith, le)),
        subst (λ l. IsInside l all) (sym same) inside,
        tops,
        st,
      )

  examine_le :
      (tm tm' : Taskmaster) (node : NodeId)
      → IsInside tm.candidates all
      → examine eng tm node ≡ next tm'
      → RoundEnds tm tm' (length tm.candidates + unseen tm.store w all + w)
  unfolding examine push_children
  examine_le tm tm' node inside h =
      elim (Scan-cases (get_all_children (eng.executor node) (eng.children tm.store))) [
        | inr (e, e') ↦ absurd (ground (arith, e', h))
        | inl (children, e) ↦
            let (len, within) = bounded.scans tm.store node children e in
            let cs : List NodeId =
              get_all_prerequisites (eng.executor node) eng.prerequisites ++ children in
            let c : ChildStates = sort_children tm.store cs in
            let (le, inside') = push_children_le tm cs inside len within in
            let (le', inside'', tops, st) =
              settle_le (push_children eng tm c) tm' node c inside' (ground (arith, e, h)) in
            (omega (arith, le, le'), inside'', tops, st)
      ]

  -- What a node costs that was visited before.
  abbrev pub visit_cost : Store → NodeId → ℕ
  visit_cost s n = if is_new s n then 0 else w

  visit_le :
      (tm : Taskmaster) (node : NodeId)
      → IdSet.contains node all ≡ true
      → is_new tm.store node ≡ true
      → unseen (visit tm node).store w all + w + w ≤ unseen tm.store w all
  visit_le tm node i e =
      unseen_drops tm.store (visit tm node).store w all node
        (set_state-Advances tm.store node NodeState.pending refl) i e
        (let p : get_state (visit tm node).store node ≡ NodeState.pending =
            set_state_at tm.store node NodeState.pending in
          ground (arith, p))

  pub consider_le :
      (tm tm' : Taskmaster) (node : NodeId)
      → IsInside tm.candidates all
      → IdSet.contains node all ≡ true
      → consider eng tm node ≡ next tm'
      → RoundEnds tm tm' (length tm.candidates + unseen tm.store w all + visit_cost tm.store node)
  consider_le tm tm' node inside i h = elim (consider-cases eng tm node) [
    | inl (e, c) ↦
        let n : is_new tm.store node ≡ true = ground (arith, e) in
        let (le, more, tops, st) = examine_le (visit tm node) tm' node inside (sym c ∙ h) in
        (ground (arith, le, n, visit_le tm node i n), more, tops, st)
    | inr (inl (e, c)) ↦
        let n : is_new tm.store node ≡ false = ground (arith, e) in
        let (le, more, tops, st) = examine_le tm tm' node inside (sym c ∙ h) in
        (ground (arith, le, n), more, tops, st)
    | inr (inr (e, c)) ↦
        let n : is_new tm.store node ≡ false = ground (arith, e) in
        let t : tm ≡ tm' = ground (arith, c, h) in
        subst
          (λ t.
            RoundEnds tm t
              (length tm.candidates + unseen tm.store w all + visit_cost tm.store node))
          t (ground (arith, n, cost_le tm.store w tm.candidates), inside, refl, refl)
  ]

-- ===== src/Scons/Taskmaster/Walk/Returned.antt =====
-- What `_find_next_ready_node` returns, over all its rounds.
use graph_store.Prelude.{
  ℕ, zero, suc, ◌≡◌, refl, sym, ap, subst, ◌∙◌, ◌⊎◌, inl, inr, Option, none, some, ◌++◌, arith,
  Option-cases,
}
use graph_store.Scons.Node.{NodeId}
use graph_store.Scons.Executor.{get_all_children, get_all_prerequisites}
use graph_store.Scons.Taskmaster.State.{Engine, Taskmaster}
use graph_store.Scons.Taskmaster.Walk.{
  ChildStates, sort_children, settle, examine, consider, Round, ready, next, push_children,
  next_candidate, find_ready, find_next_ready_node, find_next_candidate, descend,
}
use graph_store.Scons.Taskmaster.Walk.Ready.{
  visit, consider-cases, consider_ready, Scan-cases, IsReturned,
}

pub Round-cases :
    (r : Round) → ((tm : Taskmaster) × (r ≡ ready tm)) ⊎ ((tm : Taskmaster) × (r ≡ next tm))
Round-cases (ready tm) = inl (tm, refl)
Round-cases (next tm) = inr (tm, refl)

settle_exc :
    (eng : Engine) (tm tm' : Taskmaster) (node : NodeId) (c : ChildStates)
    → settle eng tm node c ≡ next tm'
    → tm'.ready_exc ≡ tm.ready_exc
unfolding settle
settle_exc eng tm tm' node c h = ground (arith, h)

examine_exc :
    (eng : Engine) (tm tm' : Taskmaster) (node : NodeId)
    → examine eng tm node ≡ next tm'
    → tm'.ready_exc ≡ tm.ready_exc
unfolding examine push_children
examine_exc eng tm tm' node h =
    elim (Scan-cases (get_all_children (eng.executor node) (eng.children tm.store))) [
      | inr (e, e') ↦ absurd (ground (arith, e', h))
      | inl (children, e) ↦
          let c : ChildStates =
            sort_children tm.store
              (get_all_prerequisites (eng.executor node) eng.prerequisites ++ children) in
          settle_exc eng (push_children eng tm c) tm' node c (ground (arith, e, h))
    ]

consider_exc :
    (eng : Engine) (tm tm' : Taskmaster) (node : NodeId)
    → consider eng tm node ≡ next tm'
    → tm'.ready_exc ≡ tm.ready_exc
consider_exc eng tm tm' node h = elim (consider-cases eng tm node) [
  | inl (e, c) ↦ examine_exc eng (visit tm node) tm' node (sym c ∙ h)
  | inr (inl (e, c)) ↦ examine_exc eng tm tm' node (sym c ∙ h)
  | inr (inr (e, c)) ↦ ground (arith, c, h)
]

find_next_candidate_exc :
    (eng : Engine) (tm : Taskmaster) → (find_next_candidate eng tm).0.ready_exc ≡ tm.ready_exc
unfolding find_next_candidate descend
find_next_candidate_exc eng tm = ground arith

next_candidate_node :
    (fuel : ℕ) (eng : Engine) (tm : Taskmaster) (r : Taskmaster × Option NodeId) (node : NodeId)
    → next_candidate fuel eng tm ≡ some r
    → r.1 ≡ some node
    → r ≡ find_next_candidate eng tm
next_candidate_node fuel eng tm r node h e = ground (arith, h, e)

same_result :
    (a b : Taskmaster) (m n : NodeId)
    → ◌≡◌ {A = Option (Taskmaster × Option NodeId)} (some (a, some m)) (some (b, some n))
    → (a ≡ b) × (m ≡ n)
same_result a b m n h = ground (arith, h)

find_ready-IsReturned :
    (fuel rounds : ℕ) (eng : Engine) (tm tm' : Taskmaster) (node : NodeId)
    → tm.ready_exc ≡ none
    → find_ready fuel rounds eng tm ≡ some (tm', some node)
    → IsReturned eng tm' node
unfolding find_ready
find_ready-IsReturned fuel zero eng tm tm' node x h = absurd (ground arith)
find_ready-IsReturned fuel (suc rounds) eng tm tm' node x h =
    elim (Option-cases (next_candidate fuel eng tm)) [
      | inl e ↦ absurd (ground (arith, e, h))
      | inr (r, e) ↦ elim (Option-cases r.1) [
        | inl e' ↦ absurd (ground (arith, e, e', h))
        | inr (n, e') ↦
            let x' : r.0.ready_exc ≡ none =
              ap (λ r. r.0.ready_exc) (next_candidate_node fuel eng tm r n e e')
              ∙ find_next_candidate_exc eng tm
              ∙ x in
            elim (Round-cases (consider eng r.0 n)) [
              | inl (tm1, c) ↦
                  let (t, m) = same_result tm1 tm' n node (ground (arith, e, e', c, h)) in
                  subst (λ k. IsReturned eng tm' k) m
                    (subst (λ k. IsReturned eng k n) t (consider_ready eng r.0 tm1 n x' c))
              | inr (tm1, c) ↦
                  find_ready-IsReturned fuel rounds eng tm1 tm' node
                    (consider_exc eng r.0 tm1 n c ∙ x') (ground (arith, e, e', c, h))
            ]
      ]
    ]

-- A node that `_find_next_ready_node` returns is pending. Either no exception is recorded, its scan
-- gives children, they and its prerequisites are all up to date or executed, and none of its side
-- effects is executing; or the exception of its scan is recorded.
pub find_next_ready_node-IsReturned :
    (fuel rounds : ℕ) (eng : Engine) (tm tm' : Taskmaster) (node : NodeId)
    → find_next_ready_node fuel rounds eng tm ≡ some (tm', some node)
    → IsReturned eng tm' node
unfolding find_next_ready_node
find_next_ready_node-IsReturned fuel rounds eng tm tm' node h =
    find_ready-IsReturned fuel rounds eng (record tm { ready_exc = none }) tm' node refl h

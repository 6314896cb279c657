-- ===== src/Scons/Taskmaster/Walk/Ends.antt =====
-- How many rounds `_find_next_ready_node` takes, and what each does.
use graph_store.Prelude.{
  ℕ, zero, suc, ◌+◌, ◌≤◌, ◌<◌, ◌≡◌, refl, sym, ◌∙◌, ap, ◌⊎◌, inl, inr, true, false, Option, none,
  some, List, [], ◌∷◌, arith, ◌==◌, ==_refl, eq_of_==, length, Bool-cases, List-cases, subst,
}
use graph_store.Db.IdSet
use graph_store.Scons.Node.{NodeId, Store}
use graph_store.Scons.Taskmaster.State.{Engine, Taskmaster, extend}
use graph_store.Scons.Taskmaster.Walk.{
  consider, find_next_candidate, descend, next_candidate, find_ready, find_next_ready_node,
}
use graph_store.Scons.Taskmaster.Walk.Ready.{IsReturned}
use graph_store.Scons.Taskmaster.Walk.Passed.{Run, consider_passes}
use graph_store.Scons.Taskmaster.Walk.Returned.{Round-cases, find_next_ready_node-IsReturned}
use graph_store.Scons.Taskmaster.Walk.Measure.{unseen, IsInside, length-extend, contains-extend}
use graph_store.Scons.Taskmaster.Walk.Rounds.{IsBounded, cost, visit_cost, consider_le}

same_node :
    (all : List NodeId) (m node : NodeId)
    → IdSet.contains node all ≡ true
    → (node == m) ≡ true
    → IdSet.contains m all ≡ true
same_node all m node i h = rw (sym (eq_of_== node m h)) i

-- No node, as no candidate and no target is left.
abbrev pub IsExhausted : Taskmaster × Option NodeId → Type 0
IsExhausted r = (r.1 ≡ none) × (r.0.candidates ≡ []) × (r.0.top_targets_left ≡ [])

abbrev pub IsEnd : Taskmaster × Option NodeId → Type 0
IsEnd r = IsExhausted r ⊎ ((n : NodeId) × (r.1 ≡ some n))

module _ {eng : Engine} {w : ℕ} {all : List NodeId} (bounded : IsBounded eng w all) where
  -- What the targets that are left may cost.
  abbrev pub targets_cost : (targets : List NodeId) → ℕ
  targets_cost [] = 0
  targets_cost (t ∷ targets) = suc (w + w) + targets_cost targets

  abbrev Descends : Taskmaster → Taskmaster × NodeId → Type 0
  Descends tm r =
      (length r.0.candidates ≤ w)
      × IsInside r.0.candidates all
      × (IdSet.contains r.1 all ≡ true)
      × (r.0.store ≡ tm.store)
      × (r.0.top_targets_left ≡ tm.top_targets_left)
      × (r.0.stopped ≡ tm.stopped)

  descend_le :
      (tm : Taskmaster) (node : NodeId)
      → tm.candidates ≡ []
      → IdSet.contains node all ≡ true
      → Descends tm (descend eng tm node)
  unfolding descend IdSet.contains
  descend_le tm node e i = elim (List-cases (eng.alter_targets node).0) [
    | inl a ↦
        let d : (tm, node) ≡ descend eng tm node = ground (arith, a) in
        subst (Descends tm) d
          (ground (arith, e), (λ m j. absurd (ground (arith, e, j))), i, refl, refl, refl)
    | inr (x, xs, a) ↦
        let (len, within) = bounded.alternatives node in
        let l : List NodeId = eng.order (x ∷ xs) in
        let ll : length l ≡ length (eng.alter_targets node).0 =
          bounded.length-order (x ∷ xs) ∙ ap length (sym a) in
        let member = λ (m : NodeId) (j : IdSet.contains m (extend l (node ∷ [])) ≡ true).
          elim (Bool-cases (IdSet.contains m l)) as (λ z. IdSet.contains m all ≡ true) [
            | inl k ↦
                within m (ap (IdSet.contains m) a ∙ sym (bounded.contains-order m (x ∷ xs)) ∙ k)
            | inr k ↦ same_node all m node i (ground (arith, j, k, contains-extend m l (node ∷ [])))
          ] in
        elim (List-cases (extend l (node ∷ []))) [
          | inl b ↦
              let z : length (extend l (node ∷ [])) ≡ 0 = ap length b in
              absurd (omega (arith, z, length-extend l (node ∷ [])))
          | inr (top, rest, b) ↦
              let z : length (extend l (node ∷ [])) ≡ suc (length rest) = ap length b in
              let d : (record tm { message = (eng.alter_targets node).1; candidates = rest }, top)
                  ≡ descend eng tm node =
                ground (arith, a, b) in
              subst (Descends tm) d (
                omega (arith, z, ll, len, length-extend l (node ∷ [])),
                (λ m j. member m (ap (IdSet.contains m) b ∙ ground (arith, j))),
                member top (ap (IdSet.contains top) b ∙ ground (arith, ==_refl top)),
                refl,
                refl,
                refl,
              )
        ]
  ]

  -- All candidates, and the targets that are left, are nodes of the list.
  abbrev pub StaysInside : Taskmaster → Type 0
  StaysInside tm = IsInside tm.candidates all × IsInside tm.top_targets_left all

  -- What is popped, and what the rest may cost behind it.
  abbrev Pops : Taskmaster → Taskmaster → NodeId → Type 0
  Pops tm tm' n =
      StaysInside tm'
      × (IdSet.contains n all ≡ true)
      × (length tm'.candidates
            + unseen tm'.store w all
            + visit_cost bounded tm'.store n
            + targets_cost tm'.top_targets_left
          < cost bounded tm + targets_cost tm.top_targets_left)
      × (tm'.stopped ≡ tm.stopped)

  abbrev IsPopped : Taskmaster → Taskmaster × Option NodeId → Type 0
  IsPopped tm r = IsExhausted r ⊎ ((n : NodeId) × (r.1 ≡ some n) × Pops tm r.0 n)

  visit_cost_le : (s : Store) (n : NodeId) → visit_cost bounded s n ≤ w
  visit_cost_le s n = ground arith

  find_next_candidate_pops :
      (tm : Taskmaster) → StaysInside tm → IsPopped tm (find_next_candidate eng tm)
  unfolding find_next_candidate IdSet.contains
  find_next_candidate_pops tm (inside, tops) = elim (List-cases tm.candidates) [
    | inr (n, rest, e) ↦
        let d : (record tm { candidates = rest }, some n) ≡ find_next_candidate eng tm =
          ground (arith, e) in
        let c : cost bounded tm
            ≡ suc (length rest) + unseen tm.store w all + visit_cost bounded tm.store n =
          rw e refl in
        let mem = λ (m : NodeId) (j : IdSet.contains m (n ∷ rest) ≡ true).
          inside m (ap (IdSet.contains m) e ∙ j) in
        subst (IsPopped tm) d (
          inr (
            n,
            refl,
            (
              ((λ m j. mem m (ground (arith, j))), tops),
              mem n (ground (arith, ==_refl n)),
              omega (arith, c),
              refl,
            ),
          ))
    | inl e ↦ elim (List-cases tm.top_targets_left) [
      | inl t ↦
          let d : (tm, none) ≡ find_next_candidate eng tm = ground (arith, e, t) in
          subst (IsPopped tm) d (inl (refl, e, t))
      | inr (n, left, t) ↦
          let tm0 : Taskmaster = record tm { top_targets_left = left; current_top = some n } in
          let d : ((descend eng tm0 n).0, some (descend eng tm0 n).1) ≡ find_next_candidate eng tm =
            ground (arith, e, t) in
          let mem = λ (m : NodeId) (j : IdSet.contains m (n ∷ left) ≡ true).
            tops m (ap (IdSet.contains m) t ∙ j) in
          let (le, inside', i, s, same, st) =
            descend_le tm0 n e (mem n (ground (arith, ==_refl n))) in
          let c : targets_cost tm.top_targets_left ≡ suc (w + w) + targets_cost left =
            ap targets_cost t in
          let c' : targets_cost (descend eng tm0 n).0.top_targets_left ≡ targets_cost left =
            ap targets_cost same in
          let u : unseen (descend eng tm0 n).0.store w all ≡ unseen tm.store w all =
            ap (λ s. unseen s w all) s in
          subst (IsPopped tm) d (
            inr (
              (descend eng tm0 n).1,
              refl,
              (
                (inside', (λ m j. mem m (ground (arith, ap (IdSet.contains m) (sym same) ∙ j)))),
                i,
                omega (
                  arith,
                  le,
                  c,
                  c',
                  u,
                  visit_cost_le (descend eng tm0 n).0.store (descend eng tm0 n).1,
                ),
                st,
              ),
            ))
    ]
  ]

  find_ready_ends :
      (fuel rounds : ℕ) (tm : Taskmaster)
      → tm.stopped ≡ false
      → StaysInside tm
      → cost bounded tm + targets_cost tm.top_targets_left < rounds
      → (r : Taskmaster × Option NodeId) × (find_ready fuel rounds eng tm ≡ some r)
        × IsEnd r
        × Run eng tm r
  unfolding find_ready
  find_ready_ends fuel zero tm st inside lt = absurd (omega (arith, lt))
  find_ready_ends fuel (suc rounds) tm st inside lt =
      let p : Taskmaster × Option NodeId = find_next_candidate eng tm in
      let c : next_candidate fuel eng tm ≡ some p = rw st refl in
      elim (find_next_candidate_pops tm inside) [
        | inl (e, m1, m2) ↦ (
          (p.0, none),
          ground (arith, c, e),
          inl (refl, m1, m2),
          Run.exhausted (ap (λ o. (p.0, o)) e),
        )
        | inr (n, e, (inside', i, lt', st')) ↦ elim (Round-cases (consider eng p.0 n)) [
          | inl (tm1, d) ↦ (
            (tm1, some n),
            ground (arith, c, e, d),
            inr (n, refl),
            Run.returned (ap (λ o. (p.0, o)) e) d,
          )
          | inr (tm1, d) ↦
              let (le, within, tops, st1) = consider_le bounded p.0 tm1 n inside'.0 i d in
              let k : targets_cost tm1.top_targets_left ≡ targets_cost p.0.top_targets_left =
                ap targets_cost tops in
              let (r, q, fin, run) =
                find_ready_ends fuel rounds tm1 (st1 ∙ st' ∙ st)
                  (within, subst (λ l. IsInside l all) (sym tops) inside'.1)
                  (omega (arith, lt, lt', le, k)) in
              (
                r,
                ground (arith, c, e, d, q),
                fin,
                Run.passed (ap (λ o. (p.0, o)) e) (consider_passes eng p.0 tm1 n d) d run,
              )
        ]
      ]

-- What a returned node is, or that nothing is left.
abbrev pub IsAnswer : Engine → Taskmaster × Option NodeId → Type 0
IsAnswer eng r = IsExhausted r ⊎ ((n : NodeId) × (r.1 ≡ some n) × IsReturned eng r.0 n)

-- The nodes that count are those of a list `all`. The candidates and the targets left are in it; for
-- each node, its prerequisites and the children of its scan together are at most `w` and in it, and
-- so are its alternatives; the order of the engine is a rearrangement; and the task master is not
-- stopped. Given rounds for more than the candidates, 2w for each node of the list without a state,
-- w if the candidate on top has one, and 2w + 1 for each target left, `_find_next_ready_node` returns.
-- It passes over a candidate only if that could not be returned: it is neither without a state nor
-- pending, or its scan raises no exception and a child, a prerequisite or a side effect stands in its
-- way. It returns none only when no candidate and no target is left. Otherwise the node is pending,
-- and no exception is recorded, its scan gives children, they and its prerequisites are all up to
-- date or executed, and none of its side effects is executing; or the exception of its scan is recorded.
pub find_next_ready_node_returns :
    {eng : Engine} {w : ℕ} {all : List NodeId} (bounded : IsBounded eng w all) (fuel rounds : ℕ)
    (tm : Taskmaster)
    → tm.stopped ≡ false
    → StaysInside bounded tm
    → cost bounded tm + targets_cost bounded tm.top_targets_left < rounds
    → (r : Taskmaster × Option NodeId) × (find_next_ready_node fuel rounds eng tm ≡ some r)
      × IsAnswer eng r
      × Run eng (record tm { ready_exc = none }) r
unfolding find_next_ready_node
find_next_ready_node_returns {eng} bounded fuel rounds tm st inside lt =
    let (r, e, fin, run) =
      find_ready_ends bounded fuel rounds (record tm { ready_exc = none }) st inside lt in
    elim fin [
      | inl x ↦ (r, e, inl x, run)
      | inr (n, s) ↦ (
        r,
        e,
        inr (
          n,
          s,
          find_next_ready_node-IsReturned fuel rounds eng tm r.0 n (e ∙ ap (λ o. some (r.0, o)) s),
        ),
        run,
      )
    ]

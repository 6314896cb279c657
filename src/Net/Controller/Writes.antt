-- ===== src/Net/Controller/Writes.antt =====
-- The writes of src/net/http_controller.cc on a server that stands alone or at the head of a chain
-- of replicas, against the abstract graph.
use graph_store.Prelude.{
  ℕ, zero, suc, ◌≡◌, refl, ap, ◌∙◌, sym, subst, true, false, not, ◌&&◌, none, List, [], ◌∷◌, inl,
  inr, if◌then◌else◌, Bool, Bool-cases, arith, ◌==◌, eq_of_==,
}
use graph_store.Util.Status.{StatusCode, is_success}
use graph_store.Util.Outcome.{Outcome, done}
use graph_store.Db.Types.{NodeId}
use graph_store.Db.MemoryStore.Graph.{
  Graph, Op, InRange, IsGraph, status, effect, add_node, remove_node, add_edge, remove_edge,
}
use graph_store.Db.MemoryStore.Refinement.{AllInRange, run_graph}
use graph_store.Db.GraphStore.{call}
use graph_store.Db.GraphStore.Contract.{Contract}
use graph_store.Db.GraphStore.Idle.{effect_idle}
use graph_store.Db.Replication.{NodeType, Chain, Network, Delivers}
use graph_store.Db.Replication.Agreement.{Holds, AllHold, HasRoom, replicate-Agrees, true_ne_false}
use graph_store.Net.Response.{Body, Response, make, added, removed}
use graph_store.Net.Controller
use graph_store.Net.Controller.{Controller, Site, is_found, is_elsewhere, replicated, commit}
use graph_store.Net.Controller.Specification.{
  manager, IsPlaced, write, has_replicas, response, Agree, serve_all, responses,
}

-- The nodes that a request needs are there.
abbrev admits : Graph → Op → Bool
admits g (add_node a) = true
admits g (remove_node a) = g.node a
admits g (add_edge a b) = g.node a && g.node b
admits g (remove_edge a b) = g.node a && g.node b

-- The reply of the handler to the status of the store.
abbrev answer : Op → StatusCode → Response
answer (add_node a) = added (Body.node_id a)
answer (remove_node a) = removed (Body.node_id a)
answer (add_edge a b) = added (Body.node_ids a b)
answer (remove_edge a b) = removed (Body.node_ids a b)

-- What the handlers reply, by the status in the specification, is what the specification says.
abbrev by_status : ℕ → Graph → Op → Response
by_status n g op =
    if not (admits g op)
    then make 400
    else if has_replicas n && not (is_success (status g op))
    then make 500
    else answer op (status g op)

response_lem : (n : ℕ) (g : Graph) (op : Op) → IsGraph g → by_status n g op ≡ response n g op
response_lem n g (add_node a) w = ground arith
response_lem n g (remove_node a) w = ground arith
response_lem n g (add_edge a b) w = ground arith
response_lem n g (remove_edge a b) w = elim (Bool-cases (a == b)) [
  | inl e ↦
      let none_here : g.edge a b ≡ false = rw (sym (eq_of_== a b e)) (w.irreflexive a) in
      ground (arith, e, none_here)
  | inr e ↦ ground (arith, e)
]

not_admitted :
    (g : Graph) (op : Op) → IsGraph g → admits g op ≡ false → is_success (status g op) ≡ false
not_admitted g (add_node a) w h = cc
not_admitted g (remove_node a) w h = ground (arith, h)
not_admitted g (add_edge a b) w h = ground (arith, h)
not_admitted g (remove_edge a b) w h = ground (arith, h, w.ends a b, w.ends b a, w.symmetric a b)

module _ {S R A : Type 0} (n : ℕ) (k : Controller S (Chain S n) R A) (laws : Contract k.methods)
    (room : HasRoom k.methods laws) where
  Agree-IsGraph : (g : Graph) (site : Site S (Chain S n) R) → Agree n k laws room g site → IsGraph g
  Agree-IsGraph g site h = subst IsGraph h.here.1 (laws.is_graph site.store h.here.0)

  found_lem :
      (g : Graph) (site : Site S (Chain S n) R) (a : NodeId)
      → Agree n k laws room g site
      → is_found k site a ≡ g.node a
  unfolding is_found
  found_lem g site a h =
      ap is_success (laws.finds site.store a h.here.0)
      ∙ ap
          (λ (x : Graph).
            is_success (if x.node a then StatusCode.success else StatusCode.does_not_exist))
          h.here.1
      ∙ ground arith

  -- What the store here does.
  store_lem :
      (g : Graph) (s : S) (op : Op)
      → InRange op
      → Holds k.methods laws g s
      → (s' : S) × (call k.methods s op ≡ done (s', status g op))
        × Holds k.methods laws (effect g op) s'
  store_lem g s op range (v, held) =
      let (s', c, ran, v', how) = laws.performs s op range v in
      elim how [
        | inl (right, after) ↦ (
          s',
          ran ∙ ap (λ x. done (s', x)) (right ∙ ap (λ x. status x op) held),
          (v', after ∙ ap (λ x. effect x op) held),
        )
        | inr (full, after) ↦ absurd (room s s' op range v (ran ∙ ap (λ x. done (s', x)) full))
      ]

module _ {S R A : Type 0} (network : Network) (delivers : Delivers network) (g : Graph) (op : Op)
    (range : InRange op) where
  -- What the replicas do, and whether the write goes on here.
  replicated_lem :
      (n : ℕ) (k : Controller S (Chain S n) R A) (laws : Contract k.methods)
      (room : HasRoom k.methods laws) (site : Site S (Chain S n) R)
      → k.repl_manager ≡ manager k.methods network n
      → Agree n k laws room g site
      → (c : Chain S n) × (replicated k site op
          ≡ done (
            record site { successors = c },
            not (has_replicas n && not (is_success (status g op))),
          ))
        × AllHold k.methods laws (effect g op) n c
        × IsPlaced S n c
  unfolding replicated
  replicated_lem zero k laws room site chained h = (site.successors, rw chained refl, tt, tt)
  replicated_lem (suc n) k laws room site chained h =
      let (c, b, ran, placed, _, agreed, idle, accepted) =
        replicate-Agrees k.methods laws network g op NodeType.head (suc n) site.successors delivers
          range h.behind h.placed (λ e. cc) in
      elim (Bool-cases (is_success (status g op))) [
        | inl ok ↦
            let taken : b ≡ true = accepted room ok in
            (c, rw chained (rw ran (rw taken (rw ok refl))), (agreed taken).1, placed)
        | inr bad ↦
            let same = effect_idle g op (Agree-IsGraph (suc n) k laws room g site h) bad in
            let refused : b ≡ false = elim (Bool-cases b) [
              | inl taken ↦ absurd (true_ne_false (sym (agreed taken).0 ∙ bad))
              | inr refused ↦ refused
            ] in
            (
              c,
              rw chained (rw ran (rw refused (rw bad refl))),
              subst (λ x. AllHold k.methods laws x (suc n) c) (sym same) (idle bad),
              placed,
            )
      ]

  module _ (n : ℕ) (k : Controller S (Chain S n) R A) (laws : Contract k.methods)
      (room : HasRoom k.methods laws) where
    -- A request that returns, with the reply of the specification, and leaves its graph everywhere.
    abbrev pub Served : Response → Outcome (Site S (Chain S n) R × Response) → Type 0
    Served r o =
        (site' : Site S (Chain S n) R) × (o ≡ done (site', r))
        × Agree n k laws room (effect g op) site'

    commit_lem :
        (site : Site S (Chain S n) R) (reply_to : StatusCode → Response)
        → k.repl_manager ≡ manager k.methods network n
        → Agree n k laws room g site
        → Served
            (if has_replicas n && not (is_success (status g op))
              then make 500
              else reply_to (status g op))
            (commit k site op reply_to)
    unfolding commit
    commit_lem site reply_to chained h =
        let (c, ran, behind, placed) = replicated_lem n k laws room site chained h in
        elim (Bool-cases (has_replicas n && not (is_success (status g op)))) [
          | inl stop ↦
              let bad : is_success (status g op) ≡ false = ground (arith, stop) in
              let same = effect_idle g op (Agree-IsGraph n k laws room g site h) bad in
              (
                record site { successors = c },
                rw ran (rw stop refl),
                record {
                  here = subst (λ x. Holds k.methods laws x site.store) (sym same) h.here;
                  behind = behind;
                  placed = placed;
                },
              )
          | inr go_on ↦
              let (s', called, holds) = store_lem n k laws room g site.store op range h.here in
              (
                record site { store = s'; successors = c },
                rw ran (rw go_on (rw called refl)),
                record { here = holds; behind = behind; placed = placed },
              )
        ]

module _ {S R A : Type 0} (network : Network) (delivers : Delivers network) (n : ℕ)
    (k : Controller S (Chain S n) R A) (laws : Contract k.methods) (room : HasRoom k.methods laws)
    (alone : k.part_manager ≡ none) (chained : k.repl_manager ≡ manager k.methods network n)
    (g : Graph) (site : Site S (Chain S n) R) (h : Agree n k laws room g site) where
  abbrev Answers : Op → Type 0
  Answers op =
      (site' : Site S (Chain S n) R) × (write k site op ≡ done (site', response n g op))
      × Agree n k laws room (effect g op) site'

  by_declined : (op : Op) → admits g op ≡ false → by_status n g op ≡ make 400
  by_declined op out = rw out refl

  by_committed :
      (op : Op)
      → admits g op ≡ true
      → by_status n g op ≡ (
          if has_replicas n && not (is_success (status g op))
          then make 500
          else answer op (status g op))
  by_committed op fit = rw fit refl

  declined : (op : Op) → write k site op ≡ done (site, make 400) → admits g op ≡ false → Answers op
  declined op e out =
      let said = response_lem n g op (Agree-IsGraph n k laws room g site h) in
      let bad = not_admitted g op (Agree-IsGraph n k laws room g site h) out in
      let same = effect_idle g op (Agree-IsGraph n k laws room g site h) bad in
      (
        site,
        e ∙ ap (λ x. done (site, x)) (sym (by_declined op out) ∙ said),
        subst (λ x. Agree n k laws room x site) (sym same) h,
      )

  committed :
      (op : Op)
      → InRange op
      → write k site op ≡ commit k site op (answer op)
      → admits g op ≡ true
      → Answers op
  committed op range e fit =
      let (site', ran, agree) =
        commit_lem network delivers g op range n k laws room site (answer op) chained h in
      let said = response_lem n g op (Agree-IsGraph n k laws room g site h) in
      (site', e ∙ ran ∙ ap (λ x. done (site', x)) (sym (by_committed op fit) ∙ said), agree)

  found_both : (a b : NodeId) → (is_found k site a && is_found k site b) ≡ (g.node a && g.node b)
  found_both a b =
      rw (found_lem n k laws room g site a h) (rw (found_lem n k laws room g site b h) refl)

  pub write_lem : (op : Op) → InRange op → Answers op
  unfolding is_elsewhere Controller.add_node Controller.remove_node Controller.add_edge
      Controller.remove_edge Controller.add_edge_local Controller.remove_edge_local
  write_lem (add_node a) range = committed (add_node a) range (rw alone refl) refl
  write_lem (remove_node a) range =
      let seen = found_lem n k laws room g site a h in
      elim (Bool-cases (g.node a)) [
        | inl there ↦ committed (remove_node a) range (rw (seen ∙ there) (rw alone refl)) there
        | inr absent ↦ declined (remove_node a) (rw (seen ∙ absent) refl) absent
      ]
  write_lem (add_edge a b) range = elim (Bool-cases (g.node a && g.node b)) [
    | inl there ↦ committed (add_edge a b) range (rw alone (rw (found_both a b ∙ there) refl)) there
    | inr absent ↦ declined (add_edge a b) (rw alone (rw (found_both a b ∙ absent) refl)) absent
  ]
  write_lem (remove_edge a b) range = elim (Bool-cases (g.node a && g.node b)) [
    | inl there ↦
        committed (remove_edge a b) range (rw alone (rw (found_both a b ∙ there) refl)) there
    | inr absent ↦ declined (remove_edge a b) (rw alone (rw (found_both a b ∙ absent) refl)) absent
  ]

-- On a server alone, or at the head of a chain whose stores all hold the graph `g`, over a network
-- that delivers its calls, with stores that are never out of space, and without a partition manager:
-- any requests to add or remove nodes and edges at 64-bit ids, in turn, return. The replies are those
-- that the specification reads off its graph: 200 with the ids where the request changes it, 400
-- where a node is missing, and otherwise 500 behind replicas, and alone 204 for a node or an edge
-- that is there already and 400 for an edge from a node to itself or one that is not there. At the end
-- the store here and all replicas hold the graph of the same run of the specification.
pub serve_all-Agree :
    {S R A : Type 0} (network : Network) (n : ℕ) (k : Controller S (Chain S n) R A)
    (laws : Contract k.methods) (room : HasRoom k.methods laws) (g : Graph)
    (site : Site S (Chain S n) R) (ops : List Op)
    → Delivers network
    → k.part_manager ≡ none
    → k.repl_manager ≡ manager k.methods network n
    → Agree n k laws room g site
    → AllInRange ops
    → (site' : Site S (Chain S n) R) × (serve_all k site ops ≡ done (site', responses n g ops))
      × Agree n k laws room (run_graph g ops).0 site'
unfolding serve_all
serve_all-Agree network n k laws room g site [] delivers alone chained h range = (site, refl, h)
serve_all-Agree network n k laws room g site (op ∷ ops) delivers alone chained h range =
    let (next, ran, agree) =
      write_lem network delivers n k laws room alone chained g site h op range.0 in
    let (last, rest, ends) =
      serve_all-Agree network n k laws room (effect g op) next ops delivers alone chained agree
        range.1 in
    (last, rw ran (rw rest refl), ends)

-- ===== src/Client/Filled.antt =====
-- The client of test/integration/fill_log.py against a controller of a logged store.
use graph_store.Prelude.{
  ℕ, zero, suc, ◌+◌, ◌-◌, ◌*◌, ◌^◌, ◌≤◌, ◌<◌, ◌≡◌, refl, ap, ◌∙◌, sym, subst, false, arith, some,
  length, ◌==◌, ◌||◌, [], ◌∷◌, Bool, Option,
}
use graph_store.Util.Status.{StatusCode}
use graph_store.Util.Outcome.{done}
use graph_store.Io.Device.{Device}
use graph_store.Db.Types.{NodeId}
use graph_store.Db.MemoryStore.View.{has}
use graph_store.Db.MemoryStore.Invariant.{IsWf, empty-IsWf}
use graph_store.Db.MemoryStore.Graph.{Graph, status, effect}
use graph_store.Db.MemoryStore.Graph as Spec
use graph_store.Db.Log.Segment.{IsLog, logged}
use graph_store.Db.Log.Count.{capacity, log_operation-capacity}
use graph_store.Db.Log.Manager as LogOps
use graph_store.Db.LoggedStore
use graph_store.Db.LoggedStore.{LoggedStore, logged_operation, format_store}
use graph_store.Db.LoggedStore.Durability.{entry_of}
use graph_store.Db.LoggedStore.Durability as Calls
use graph_store.Db.LoggedStore.Persistence.{Ran, perform-Ran}
use graph_store.Db.LoggedStore.Restart.{format_store-IsDurable}
use graph_store.Db.MemoryStore.{MemoryStore, empty}
use graph_store.Db.NodeMap
use graph_store.Db.Partition.Manager.{PartitionConfig}
use graph_store.Db.Partition.Remote.{Remote}
use graph_store.Net.Controller
use graph_store.Net.Controller.{Controller, Site, is_elsewhere, replicated, commit}
use graph_store.Client.FillLog.{fill_from, fill_log}
use graph_store.Client.Serve.{serve_add_node, logging_controller}

-- No node has the id `n` or a greater one.
abbrev NoneFrom : LoggedStore → NodeId → Type 0
NoneFrom s n = (i : NodeId) → n ≤ i → has s.memory.nodes i ≡ false

NoneFrom-suc :
    (s s' : LoggedStore) (n : NodeId)
    → NoneFrom s n
    → Ran s (Spec.add_node n ∷ []) s'
    → NoneFrom s' (n + 1)
NoneFrom-suc s s' n free r i le =
    let seen : has s'.memory.nodes i ≡ (n == i || has s.memory.nodes i) =
      ap (λ (g : Graph). g.node i) r.graph in
    seen ∙ ground (arith, free i)

module _ {W R A : Type 0} (c : PartitionConfig A) (same : A → A → Bool) (p : Option (Remote R A))
    (mine : (id : NodeId) → is_elsewhere (logging_controller {W = W} c same p) id ≡ false) where
  abbrev k : Controller LoggedStore W R A
  k = logging_controller c same p

  refused :
      (site : Site LoggedStore W R) (n : NodeId)
      → IsLog site.store.device site.store.log
      → length (logged site.store.device site.store.log) ≡ capacity site.store.device site.store.log
      → (site' : Site LoggedStore W R) × (serve_add_node k site n ≡ done (site', 507))
  unfolding serve_add_node Controller.add_node commit replicated LoggedStore.add_node
      logged_operation entry_of
  refused site n l full =
      let s = site.store in
      let e = entry_of (Calls.add_node n) in
      let (_, answer) = log_operation-capacity s.device s.log e tt l in
      let r = LogOps.log_operation s.device s.log e in
      let none_left : r.2 ≡ StatusCode.no_space = answer ∙ ground arith in
      (
        record site { store = record s { device = r.0; log = r.1 } },
        rw (mine n) (rw none_left refl),
      )

  accepted :
      (site : Site LoggedStore W R) (n : NodeId)
      → n < 2 ^ 64
      → IsLog site.store.device site.store.log
      → IsWf site.store.memory.nodes
      → NoneFrom site.store n
      → length (logged site.store.device site.store.log) < capacity site.store.device site.store.log
      → (s' : LoggedStore) × (serve_add_node k site n ≡ done (record site { store = s' }, 200))
        × Ran site.store (Spec.add_node n ∷ []) s'
  unfolding serve_add_node Controller.add_node commit replicated
  accepted site n h l wf free room =
      let (s', c, ran, code, r) = perform-Ran site.store (Spec.add_node n) h l wf room in
      let fresh : c ≡ StatusCode.success = code ∙ ground (arith, free n) in
      (s', rw (mine n) (rw ran (rw fresh refl)), r)

  -- The loop adds as many nodes as the log has room for, and stops at the first one that it has not.
  pub fill_from_lem :
      (fuel room : ℕ) (site : Site LoggedStore W R) (n : NodeId)
      → IsLog site.store.device site.store.log
      → IsWf site.store.memory.nodes
      → NoneFrom site.store n
      → length (logged site.store.device site.store.log) + room
        ≡ capacity site.store.device site.store.log
      → room < fuel
      → n + room < 2 ^ 64
      → (t : Site LoggedStore W R) × (fill_from fuel (serve_add_node k) site n
          ≡ done (some (t, n + room)))
  unfolding fill_from
  fill_from_lem zero room site n l wf free sum enough range = absurd (omega arith)
  fill_from_lem (suc fuel) zero site n l wf free sum enough range =
      let (t, answer) = refused site n l (omega arith) in
      (t, rw answer (ap (λ k. done (some (t, k))) (omega arith)))
  fill_from_lem (suc fuel) (suc room) site n l wf free sum enough range =
      let (s', answer, r) = accepted site n (omega arith) l wf free (omega arith) in
      let left : length (logged s'.device s'.log) + room ≡ capacity s'.device s'.log =
        omega (arith, r.count, r.place, r.device) in
      let next : Site LoggedStore W R = record site { store = s' } in
      let (t, ends) =
        fill_from_lem fuel room next (n + 1) r.in_order r.wf (NoneFrom-suc site.store s' n free r)
          left (omega arith) (omega arith) in
      (
        t,
        rw answer (
            subst (λ j. fill_from fuel (serve_add_node k) next (n + 1) ≡ done (some (t, j)))
              (omega arith) ends),
      )

none_in_empty : (i : NodeId) → has empty.nodes i ≡ false
unfolding has NodeMap.find
none_in_empty i = refl

-- The server is a controller of a logged store without a replication manager, and either without a
-- partition manager or with one to whose partition every id belongs. Its store has just been formatted,
-- on a device of at least ten blocks and of a size below 2^32. Against it the client ends: given more
-- rounds than 169 times one less than the blocks of the device, it stops at exactly that number, and
-- no reply fails its assertion.
pub fill_log_ends :
    {W R A : Type 0} (c : PartitionConfig A) (same : A → A → Bool) (p : Option (Remote R A)) (w : W)
    (r : R) (dev : Device) (fuel : ℕ)
    → ((id : NodeId) → is_elsewhere (logging_controller {W = W} c same p) id ≡ false)
    → 10 ≤ dev.size
    → dev.size < 2 ^ 32
    → 169 * (dev.size - 1) < fuel
    → (s : LoggedStore) × (t : Site LoggedStore W R) × (format_store dev ≡ done s)
      × (fill_log fuel
            (serve_add_node (logging_controller c same p))
            (record { store = s; successors = w; remotes = r })
          ≡ done (some (t, 169 * (dev.size - 1))))
unfolding fill_log
fill_log_ends c same p w r dev fuel mine h narrow enough =
    let (s, formatted, blank, size, unlogged, d) = format_store-IsDurable dev h narrow in
    let wf : IsWf s.memory.nodes =
      subst (λ (m : MemoryStore). IsWf m.nodes) (sym blank) empty-IsWf in
    let free : NoneFrom s 0 =
      λ i le. subst (λ (m : MemoryStore). has m.nodes i ≡ false) (sym blank) (none_in_empty i) in
    let sum : length (logged s.device s.log) + 169 * (dev.size - 1) ≡ capacity s.device s.log =
      omega (arith, ap (λ es. length es) unlogged, d.log_low) in
    let site : Site LoggedStore _ _ = record { store = s; successors = w; remotes = r } in
    let (t, ends) =
      fill_from_lem c same p mine fuel (169 * (dev.size - 1)) site 0 d.in_order wf free sum enough
        (omega arith) in
    (
      s,
      t,
      formatted,
      subst
          (λ j.
            fill_from fuel (serve_add_node (logging_controller c same p)) site 0
            ≡ done (some (t, j)))
          (omega arith) ends,
    )

-- ===== src/Db/MemoryStore/ShortestPath/Correct.antt =====
-- The answer of shortestPath of src/db/memory_store.cc, and the walks of the store.
use graph_store.Prelude.{
  ℕ, zero, suc, ◌+◌, ◌≤◌, ◌<◌, ◌≡◌, refl, true, false, some, List, [], ◌∷◌, arith, ◌==◌, ◌&&◌, ◌≢◌,
  ap, subst, inl, inr, ◌⊎◌, length, Option-cases, Bool-cases, eq_of_==, ==_refl,
}
use graph_store.Util.Status.{StatusCode, StatusWith, with_result, without_result}
use graph_store.Util.Outcome.{done}
use graph_store.Db.IdSet
use graph_store.Db.Types
use graph_store.Db.Types.{NodeId, Node}
use graph_store.Db.NodeMap
use graph_store.Db.NodeMap.{NodeMap}
use graph_store.Db.MemoryStore.{MemoryStore}
use graph_store.Db.MemoryStore.View.{has, linked, has_at}
use graph_store.Db.MemoryStore.Invariant.{IsWf}
use graph_store.Db.MemoryStore.ShortestPath.{
  Frontier, Level, match_found, searched, Search, distance, no_path, out_of_fuel, search,
  search_level, reply, shortest_path,
}
use graph_store.Db.MemoryStore.ShortestPath.Expand.{queued, unseen, Leveled, search_level-Leveled}
use graph_store.Db.MemoryStore.ShortestPath.Walk.{Walk, here, step, known, Inv, Inv-round}

-- `d` edges lead from `a` to `b`, and fewer do not.
pub record IsDistance (m : NodeMap) (a b : NodeId) (d : ℕ) : Type 0 where
  pub walk : Walk m a d b
  pub shortest : (e : ℕ) → e < d → Walk m a e b → ⊥

abbrev pub IsRight : NodeMap → NodeId → NodeId → Search → Type 0
IsRight m a b (distance d) = IsDistance m a b d
IsRight m a b no_path = (e : ℕ) → Walk m a e b → ⊥
IsRight m a b out_of_fuel = ⊥

module _ (m : NodeMap) (wf : IsWf m) (a b : NodeId) where
  -- Both ends of an edge are nodes of the store.
  linked_known :
      (k : NodeId) (n : Node) (x : NodeId)
      → NodeMap.find m k ≡ some n
      → Types.has_edge n x ≡ true
      → (o : Node) × (NodeMap.find m x ≡ some o)
  linked_known k n x e h = elim (Option-cases (NodeMap.find m x)) [
    | inl absent ↦ absurd (unfold linked in ground (arith, wf.symmetric k x))
    | inr there ↦ there
  ]

  keyed : (k : NodeId) (n : Node) → NodeMap.find m k ≡ some n → n.id ≡ k
  keyed k n e = (wf.proper k n e).keyed

  hit :
      (d : ℕ) (queue : List Node) (found : List NodeId)
      → Inv m a b d queue found
      → queued b queue ≡ true
      → IsDistance m a b d
  hit d queue found inv q = record { walk = inv.reached b q; shortest = inv.unreached }

  -- With an empty queue, all that a walk reaches is settled.
  exhausted :
      (d : ℕ) (found : List NodeId)
      → Inv m a b d [] found
      → (e : ℕ) (x : NodeId) → Walk m a e x
      → known a found x ≡ true
  exhausted d found inv zero x here = ground (arith, ==_refl a)
  exhausted d found inv (suc e) x (step {u} w l) =
      elim (inv.settled u (exhausted d found inv e u w)) [
        | inl q ↦ cc
        | inr s ↦ ground (arith, s.followed x l)
      ]

  missed : (d : ℕ) (found : List NodeId) → Inv m a b d [] found → (e : ℕ) → Walk m a e b → ⊥
  missed d found inv e w = elim (inv.settled b (exhausted d found inv e b w)) [
    | inl q ↦ cc
    | inr s ↦ cc (s.other, ==_refl b)
  ]

  -- The rest of a round, after the loop over the queue.
  after_level :
      (fuel d : ℕ) (n : Node) (ns : List Node) (found : List NodeId)
      → Inv m a b d (n ∷ ns) found
      → ((f : Frontier)
          → Inv m a b (suc d) f.next f.found
          → unseen m f.found + length f.next ≤ unseen m found
          → (r : Search) × (search fuel m b (suc d) f.next f.found ≡ done r) × IsRight m a b r)
      → (l : Level) → search_level m b (n ∷ ns) (record { found = found; next = [] }) ≡ done l
      → Leveled m keyed b (n ∷ ns) (record { found = found; next = [] }) l
      → (r : Search) × (search (suc fuel) m b d (n ∷ ns) found ≡ done r) × IsRight m a b r
  unfolding search
  after_level fuel d n ns found inv rest match_found ran lv =
      (distance d, rw ran refl, hit d (n ∷ ns) found inv lv)
  after_level fuel d n ns found inv rest (searched f) ran lv =
      let (r, ends, right) =
        rest f (Inv-round m a b d (n ∷ ns) found f inv lv.0 lv.1) (omega (arith, lv.1.work)) in
      (r, rw ran ends, right)

  start_covered : (e : ℕ) (x : NodeId) → Walk m a e x → e ≤ 0 → known a [] x ≡ true
  start_covered zero x here h = ground (arith, ==_refl a)
  start_covered (suc e) x w h = absurd (omega arith)

  search-IsRight :
      (fuel d : ℕ) (queue : List Node) (found : List NodeId)
      → Inv m a b d queue found
      → unseen m found + length queue < fuel
      → (r : Search) × (search fuel m b d queue found ≡ done r) × IsRight m a b r
  unfolding search
  search-IsRight zero d queue found inv h = elim h [ ]
  search-IsRight (suc fuel) d [] found inv h = (no_path, refl, missed d found inv)
  search-IsRight (suc fuel) d (n ∷ ns) found inv h =
      let (l, ran, lv) =
        search_level-Leveled m keyed linked_known b (n ∷ ns) (record { found = found; next = [] })
          inv.stored tt in
      after_level fuel d n ns found inv
        (λ f inv' w. search-IsRight fuel (suc d) f.next f.found inv' (omega arith)) l ran lv

  Inv-start : (n : Node) → NodeMap.find m a ≡ some n → Inv m a b 0 (n ∷ []) []
  unfolding IdSet.contains
  Inv-start n e = record {
    stored = (cc (keyed a n e), tt);
    reached = λ x q. subst (λ y. Walk m a 0 y) (ground (arith, keyed a n e)) here;
    covered = λ e x w h. start_covered e x w (omega arith);
    settled = λ x k. inl (ground (arith, keyed a n e));
    unreached = λ e h w. absurd (omega arith);
  }

unseen-nil : (m : NodeMap) → unseen m [] ≡ length m
unfolding IdSet.contains
unseen-nil [] = refl
unseen-nil ((k, n) ∷ m) = ap suc (unseen-nil m)

-- What `shortestPath` may answer.
abbrev pub Answers : NodeMap → NodeId → NodeId → StatusWith ℕ → Type 0
Answers m a b (with_result d) = IsDistance m a b d × (a ≢ b)
Answers m a b (without_result StatusCode.does_not_exist) = (has m a && has m b) ≡ false
Answers m a b (without_result StatusCode.no_action) =
    (has m a ≡ true) × (has m b ≡ true) × ((a ≡ b) ⊎ ((e : ℕ) → Walk m a e b → ⊥))
Answers m a b (without_result _) = ⊥

module _ (m : NodeMap) (a b : NodeId) where
  of_search :
      (r : Search)
      → IsRight m a b r
      → has m a ≡ true
      → has m b ≡ true
      → a ≢ b
      → (w : StatusWith ℕ) × (reply r ≡ some w) × Answers m a b w
  unfolding reply
  of_search (distance d) right ha hb ne = (with_result d, refl, (right, ne))
  of_search no_path right ha hb ne =
      (without_result StatusCode.no_action, refl, (ha, hb, inr right))
  of_search out_of_fuel right ha hb ne = elim right [ ]

-- From a well-formed store the method returns: its loop ends within the rounds that the model
-- allows and no `invariant` fails. A distance is the length of a walk from `a` to `b`, and no walk
-- is shorter; DOES_NOT_EXIST says that a node is not there; NO_ACTION says that both are there and
-- that they are the same node or that no walk leads from `a` to `b`; no other code is returned.
pub shortest_path-Answers :
    (s : MemoryStore) (a b : NodeId)
    → IsWf s.nodes
    → (w : StatusWith ℕ) × (shortest_path s a b ≡ done (some w)) × Answers s.nodes a b w
unfolding shortest_path
shortest_path-Answers s a b wf = elim (Option-cases (NodeMap.find s.nodes a)) [
  | inl no_a ↦ (
    without_result StatusCode.does_not_exist,
    rw (no_a, shortest_path) refl,
    unfold has in ground arith,
  )
  | inr (na, ea) ↦ elim (Option-cases (NodeMap.find s.nodes b)) [
    | inl no_b ↦ (
      without_result StatusCode.does_not_exist,
      rw (ea, shortest_path) (rw no_b refl),
      unfold has in ground arith,
    )
    | inr (nb, eb) ↦ elim (Bool-cases (a == b)) [
      | inl same ↦ (
        without_result StatusCode.no_action,
        rw (ea, shortest_path) (rw eb (rw same refl)),
        (has_at s.nodes a na ea, has_at s.nodes b nb eb, inl (eq_of_== a b same)),
      )
      | inr apart ↦
          let (r, ends, right) =
            search-IsRight s.nodes wf a b (length s.nodes + 2) 0 (na ∷ []) []
              (Inv-start s.nodes wf a b na ea) (omega (arith, unseen-nil s.nodes)) in
          let (w, replied, ans) =
            of_search s.nodes a b r right (has_at s.nodes a na ea) (has_at s.nodes b nb eb)
              (ground arith) in
          (w, rw (ea, shortest_path) (rw eb (rw apart (rw ends (rw replied refl)))), ans)
    ]
  ]
]

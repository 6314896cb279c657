-- ===== src/Db/MemoryStore/ShortestPath/Expand.antt =====
-- One round of the search of shortestPath: the nodes that it finds.
use graph_store.Prelude.{
  ℕ, suc, ◌+◌, ◌≤◌, ◌≡◌, refl, Bool, true, false, not, ◌&&◌, ◌||◌, some, List, [], ◌∷◌, ◌++◌, arith,
  ◌==◌, if◌then◌else◌, length, length-append, Bool-cases, inl, inr,
}
use graph_store.Util.Outcome.{done}
use graph_store.Db.IdSet
use graph_store.Db.Types
use graph_store.Db.Types.{NodeId, Node}
use graph_store.Db.NodeMap
use graph_store.Db.NodeMap.{NodeMap}
use graph_store.Db.MemoryStore.ShortestPath.{
  Frontier, Level, match_found, searched, add_edges, search_level,
}

-- A node with id `x` stands in the queue.
abbrev pub queued : NodeId → List Node → Bool
queued x [] = false
queued x (n ∷ ns) = n.id == x || queued x ns

-- Some node of the queue has an edge to `x`.
abbrev pub touches : List Node → NodeId → Bool
touches [] x = false
touches (n ∷ ns) x = Types.has_edge n x || touches ns x

-- The nodes of the queue are nodes of the store.
abbrev pub AllStored : NodeMap → List Node → Type 0
AllStored m [] = Unit
AllStored m (n ∷ ns) = (NodeMap.find m n.id ≡ some n) × AllStored m ns

-- The number of entries of the map that are not found yet.
abbrev pub unseen : NodeMap → List NodeId → ℕ
unseen [] found = 0
unseen ((k, n) ∷ m) found = if IdSet.contains k found then unseen m found else suc (unseen m found)

pub queued-append :
    (x : NodeId) (ns : List Node) (n : Node) → queued x (ns ++ n ∷ []) ≡ (queued x ns || n.id == x)
queued-append x [] n = ground arith
queued-append x (o ∷ ns) n = ground (arith, queued-append x ns n)

AllStored-append :
    (m : NodeMap) (ns : List Node) (n : Node)
    → AllStored m ns
    → NodeMap.find m n.id ≡ some n
    → AllStored m (ns ++ n ∷ [])
AllStored-append m [] n h e = (e, tt)
AllStored-append m (o ∷ ns) n h e = (h.0, AllStored-append m ns n h.1 e)

unseen-insert_le :
    (m : NodeMap) (x : NodeId) (found : List NodeId)
    → unseen m (IdSet.insert x found).0 ≤ unseen m found
unseen-insert_le [] x found = omega arith
unseen-insert_le ((k, n) ∷ m) x found =
    ground (arith, IdSet.contains-insert k x found, unseen-insert_le m x found)

unseen-insert :
    (m : NodeMap) (x : NodeId) (n : Node) (found : List NodeId)
    → NodeMap.find m x ≡ some n
    → IdSet.contains x found ≡ false
    → suc (unseen m (IdSet.insert x found).0) ≤ unseen m found
unfolding NodeMap.find
unseen-insert [] x n found e h = cc
unseen-insert ((k, o) ∷ m) x n found e h =
    ground (
      arith,
      IdSet.contains-insert k x found,
      unseen-insert_le m x found,
      unseen-insert m x n found,
    )

-- What a loop that offers the ids of `offered` to the search has done.
pub record Expanded (m : NodeMap) (offered : NodeId → Bool) (f f' : Frontier) : Type 0 where
  pub grown : (x : NodeId) → IdSet.contains x f'.found ≡ (IdSet.contains x f.found || offered x)
  pub queue :
      (x : NodeId)
      → queued x f'.next
        ≡ (queued x f.next || IdSet.contains x f'.found && not (IdSet.contains x f.found))
  pub stored : AllStored m f'.next
  pub work : unseen m f'.found + length f'.next ≤ unseen m f.found + length f.next

Expanded-refl : (m : NodeMap) (f : Frontier) → AllStored m f.next → Expanded m (λ x. false) f f
Expanded-refl m f st = record {
  grown = λ x. ground arith;
  queue = λ x. ground arith;
  stored = st;
  work = omega arith;
}

Expanded-trans :
    {m : NodeMap} {p q : NodeId → Bool} {f g h : Frontier}
    → Expanded m p f g
    → Expanded m q g h
    → Expanded m (λ x. p x || q x) f h
Expanded-trans a b = record {
  grown = λ x. ground (arith, a.grown x, b.grown x);
  queue = λ x. ground (arith, a.grown x, b.grown x, a.queue x, b.queue x);
  stored = b.stored;
  work = omega (arith, a.work, b.work);
}

module _ (m : NodeMap)
    (keyed : (k : NodeId) (n : Node) → NodeMap.find m k ≡ some n → n.id ≡ k) where
  -- One id that is offered.
  offer-Expanded :
      (x : NodeId) (n : Node) (f : Frontier)
      → NodeMap.find m x ≡ some n
      → IdSet.contains x f.found ≡ false
      → AllStored m f.next
      → Expanded m
          (λ y. x == y)
          f
          (record { found = (IdSet.insert x f.found).0; next = f.next ++ n ∷ [] })
  offer-Expanded x n f e fresh st = record {
    grown = λ y. ground (arith, IdSet.contains-insert y x f.found);
    queue = λ y.
        ground (arith, IdSet.contains-insert y x f.found, queued-append y f.next n, keyed x n e);
    stored = AllStored-append m f.next n st (cc (keyed x n e));
    work = omega (arith, unseen-insert m x n f.found e fresh, length-append f.next (n ∷ []));
  }

  add_edges-Expanded :
      (es : List NodeId) (f : Frontier)
      → ((x : NodeId) → IdSet.contains x es ≡ true → (n : Node) × (NodeMap.find m x ≡ some n))
      → AllStored m f.next
      → (f' : Frontier) × (add_edges m es f ≡ done f') × Expanded m (λ x. IdSet.contains x es) f f'
  unfolding add_edges IdSet.contains
  add_edges-Expanded [] f known st = (f, refl, Expanded-refl m f st)
  add_edges-Expanded (x ∷ es) f known st = elim (Bool-cases (IdSet.contains x f.found)) [
    | inl old ↦
        let (f', ends, ex) = add_edges-Expanded es f (λ y h. known y (ground arith)) st in
        (
          f',
          rw (IdSet.insert_fresh x f.found, old, add_edges) ends,
          record {
            grown = λ y. ground (arith, ex.grown y);
            queue = ex.queue;
            stored = ex.stored;
            work = ex.work;
          },
        )
    | inr new ↦
        let (n, e) = known x (ground arith) in
        let one = offer-Expanded x n f e new st in
        let (f', ends, ex) =
          add_edges-Expanded es
            (record { found = (IdSet.insert x f.found).0; next = f.next ++ n ∷ [] })
            (λ y h. known y (ground arith)) one.stored in
        (
          f',
          rw (IdSet.insert_fresh x f.found, new, add_edges) (rw (e, add_edges) ends),
          Expanded-trans one ex,
        )
  ]

  -- What the loop over the queue has done when it returns.
  abbrev pub Leveled : NodeId → List Node → Frontier → Level → Type 0
  Leveled target ns f match_found = queued target ns ≡ true
  Leveled target ns f (searched f') = (queued target ns ≡ false) × Expanded m (touches ns) f f'

  module _
      (linked_known : (k : NodeId) (n : Node) (x : NodeId)
        → NodeMap.find m k ≡ some n
        → Types.has_edge n x ≡ true
        → (o : Node) × (NodeMap.find m x ≡ some o)) where
    after :
        (n : Node) (ns : List Node) (f f1 : Frontier) (target : NodeId)
        → Expanded m (λ x. IdSet.contains x n.edges) f f1
        → (n.id == target) ≡ false
        → (l : Level) → Leveled target ns f1 l
        → Leveled target (n ∷ ns) f l
    unfolding Types.has_edge
    after n ns f f1 target ex miss match_found lv = ground arith
    after n ns f f1 target ex miss (searched f2) lv = (ground arith, Expanded-trans ex lv.1)

    pub search_level-Leveled :
        (target : NodeId) (ns : List Node) (f : Frontier)
        → AllStored m ns
        → AllStored m f.next
        → (l : Level) × (search_level m target ns f ≡ done l) × Leveled target ns f l
    unfolding search_level
    search_level-Leveled target [] f st stf = (searched f, refl, (refl, Expanded-refl m f stf))
    search_level-Leveled target (n ∷ ns) f st stf = elim (Bool-cases (n.id == target)) [
      | inl hit ↦ (match_found, rw (hit, search_level), rw hit refl)
      | inr miss ↦
          let (f1, ran, ex) =
            add_edges-Expanded n.edges f
              (λ x h. linked_known n.id n x st.0 (unfold Types.has_edge in h)) stf in
          let (l, ends, lv) = search_level-Leveled target ns f1 st.1 ex.stored in
          (l, rw (miss, search_level) (rw ran ends), after n ns f f1 target ex miss l lv)
    ]

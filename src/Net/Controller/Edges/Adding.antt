-- ===== src/Net/Controller/Edges/Adding.antt =====
-- `add_edge` of src/net/http_controller.cc for an edge between two partitions.
use graph_store.Prelude.{
  ◌≡◌, ◌≢◌, refl, ◌∙◌, Bool, true, false, not, ◌&&◌, Option, inl, inr, arith, ◌==◌, ==-ne, ==_symm,
  eq_of_==, if◌then◌else◌, Bool-cases,
}
use graph_store.Util.Status.{StatusCode, with_result, is_success}
use graph_store.Util.Outcome.{Outcome, done, exited, invariant, ◌>>=◌, bind-cong, bind_assoc}
use graph_store.Db.Types.{NodeId}
use graph_store.Db.MemoryStore
use graph_store.Db.MemoryStore.{MemoryStore}
use graph_store.Db.MemoryStore.View.{has, linked}
use graph_store.Db.MemoryStore.Parts.{
  IsPartWf, PartDone, add_part, part_status, apply_part-Refines, get_edge_part_code,
}
use graph_store.Db.Replication.{NodeType, Client}
use graph_store.Db.Partition.Manager.{
  PartitionConfig, target, get_edge_part, get_partition_outbound,
}
use graph_store.Db.Partition.Remote.{Remote, call_remote}
use graph_store.Db.Partition.Remote as Remotes
use graph_store.Net.Response.{Body, Response}
use graph_store.Net.Controller.Specification.{coded}
use graph_store.Net.Controller
use graph_store.Net.Controller.{Controller, Site, is_partitioned_edge_op}
use graph_store.Net.Controller.Edges.{
  partition_controller, Reaches, AddedIf, call_remote_lem, part_local, part_apart,
}

module _ {W A : Type 0} (m : Option (NodeType × Client W)) (same : A → A → Bool)
    (c : PartitionConfig A) (remote : Remote MemoryStore A) (site : Site MemoryStore W MemoryStore)
    (a b here there : NodeId) where
  abbrev pub k : Controller MemoryStore W MemoryStore A
  k = partition_controller m same c remote

  -- An edge that neither partition has, to a node that the other one has.
  abbrev pub joinable : Bool
  joinable =
      not (linked site.store.nodes here there)
      && (has site.remotes.nodes there && not (linked site.remotes.nodes there here))

  abbrev pub add_reply : Response
  add_reply =
      if linked site.store.nodes here there
      then coded 204 Body.blank
      else if joinable
      then coded 200 (Body.node_ids a b)
      else coded 400 Body.blank

  module _ (part : get_edge_part c a b ≡ with_result (here, there))
      (across : is_partitioned_edge_op k a b ≡ true) (reaches : Reaches same c remote there)
      (ne : a ≢ b) (wf : IsPartWf site.store.nodes) (far : IsPartWf site.remotes.nodes) where
    add_edge_across :
        Controller.add_edge k site a b ≡ Controller.add_edge_partition k remote site a b
    unfolding Controller.add_edge
    add_edge_across = rw across refl

    add_present :
        linked site.store.nodes here there ≡ true
        → Controller.add_edge k site a b ≡ done (site, coded 204 Body.blank)
    unfolding Controller.add_edge_partition
    add_present l =
        add_edge_across
        ∙ rw (part, Controller.add_edge_partition)
            (rw (get_edge_part_code site.store here there wf) (rw l refl))

    -- The call on the other partition, and then the one here.
    add_absent :
        linked site.store.nodes here there ≡ false
        → (t' : MemoryStore) × PartDone site.remotes (add_part there here) t'
          × (Controller.add_edge k site a b ≡ (
              if is_success (part_status site.remotes (add_part there here))
              then (MemoryStore.add_edge_part site.store here there >>= λ r.
                  invariant (is_success r.1) (
                    done
                      (record site { store = r.0; remotes = t' }, coded 200 (Body.node_ids a b))))
              else done (record site { remotes = t' }, coded 400 Body.blank)))
    unfolding Controller.add_edge_partition Remotes.add_edge
    add_absent l =
        let (t', ran, d) =
          call_remote_lem same c remote here there (part_local c a b here there part) reaches
            site.remotes (add_part there here) far in
        (
          t',
          d,
          add_edge_across
              ∙ rw (part, Controller.add_edge_partition)
                  (rw (get_edge_part_code site.store here there wf) (
                    rw l (
                      rw (==-ne a b ne) (
                        rw ran
                          (elim (Bool-cases
                            (is_success (part_status site.remotes (add_part there here)))) [
                              | inl ok ↦ rw ok refl
                              | inr bad ↦ rw bad refl
                            ]))))),
        )

    far_add :
        is_success (part_status site.remotes (add_part there here))
        ≡ (has site.remotes.nodes there && not (linked site.remotes.nodes there here))
    far_add = ground (arith, part_apart c a b here there part ne, ==_symm here there)

    near_add :
        has site.store.nodes here ≡ true
        → linked site.store.nodes here there ≡ false
        → part_status site.store (add_part here there) ≡ StatusCode.success
    near_add h l = ground (arith, part_apart c a b here there part ne)

    -- A store with nodes and edges as they were.
    unmade-AddedIf : (x y : NodeId) (s : MemoryStore) → joinable ≡ false → AddedIf joinable x y s s
    unmade-AddedIf x y s h = (λ u. refl, λ u v. ground (arith, h))

    made-AddedIf :
        (x y : NodeId) (s s' : MemoryStore)
        → joinable ≡ true
        → (x == y) ≡ false
        → has s.nodes x ≡ true
        → PartDone s (add_part x y) s'
        → AddedIf joinable x y s s'
    made-AddedIf x y s s' j apart h d = (d.node, λ u v. d.edge u v ∙ ground (arith, j, apart, h))

    refused-AddedIf :
        (s s' : MemoryStore)
        → joinable ≡ false
        → linked site.store.nodes here there ≡ false
        → PartDone site.remotes (add_part there here) s'
        → AddedIf joinable there here site.remotes s'
    refused-AddedIf s s' j l d =
        (d.node, λ u v. d.edge u v ∙ ground (arith, j, l, eq_of_== there u, eq_of_== here v))

    -- On the controller of a partition, for two different ids of which one, `here`, belongs to this
    -- partition and the other, `there`, to another one, where the connection to that one reaches its
    -- handler, both stores are well formed and the node `here` exists: add_edge returns. Its reply is
    -- 204 if this partition has its half of the edge, 200 if neither partition has a half and the
    -- node `there` exists, and 400 otherwise. With the reply 200 each partition has its half and has
    -- no other change; with another reply no node and no edge has changed in either.
    pub add_edge-AddedIf :
        has site.store.nodes here ≡ true
        → (site' : Site MemoryStore W MemoryStore) × (Controller.add_edge k site a b
            ≡ done (site', add_reply))
          × AddedIf joinable here there site.store site'.store
          × AddedIf joinable there here site.remotes site'.remotes
    add_edge-AddedIf h = elim (Bool-cases (linked site.store.nodes here there)) [
      | inl l ↦ (
        site,
        add_present l ∙ rw l refl,
        unmade-AddedIf here there site.store (ground (arith, l)),
        unmade-AddedIf there here site.remotes (ground (arith, l)),
      )
      | inr l ↦
          let (t', d, e) = add_absent l in
          elim (Bool-cases
            (has site.remotes.nodes there && not (linked site.remotes.nodes there here))) [
              | inl open_ ↦
                  let (s', ran, d') = apply_part-Refines site.store (add_part here there) wf in
                  let apart = part_apart c a b here there part ne in
                  let j : joinable ≡ true = rw l open_ in
                  (
                    record site { store = s'; remotes = t' },
                    e ∙ rw (far_add ∙ open_) (rw ran (rw (near_add h l) (rw l (rw open_ refl)))),
                    made-AddedIf here there site.store s' j apart h d',
                    made-AddedIf there here site.remotes t' j (==_symm there here ∙ apart)
                        (ground (arith, open_)) d,
                  )
              | inr shut ↦
                  let j : joinable ≡ false = rw l shut in
                  (
                    record site { remotes = t' },
                    e ∙ rw (far_add ∙ shut) (rw l (rw shut refl)),
                    unmade-AddedIf here there site.store j,
                    refused-AddedIf site.remotes t' j l d,
                  )
            ]
    ]

module _ {W A : Type 0} (m : Option (NodeType × Client W)) (same : A → A → Bool)
    (c : PartitionConfig A) (remote : Remote MemoryStore A) (site : Site MemoryStore W MemoryStore)
    (a b here there : NodeId) (address : A) (part : get_edge_part c a b ≡ with_result (here, there))
    (across : is_partitioned_edge_op (partition_controller m same c remote) a b ≡ true)
    (connected : get_partition_outbound same c (target c there) ≡ done address) (ne : a ≢ b)
    (wf : IsPartWf site.store.nodes) (missing : has site.store.nodes here ≡ false) where
  abbrev Reply : Type 0
  Reply = Outcome (Site MemoryStore W MemoryStore × Response)

  -- What the lines behind the call do with its answer.
  abbrev finish : MemoryStore → StatusCode → Reply
  finish r status =
      if is_success status
      then (MemoryStore.add_edge_part site.store here there >>= λ x.
          invariant (is_success x.1)
            (done (record site { store = x.0; remotes = r }, coded 200 (Body.node_ids a b))))
      else done (record site { remotes = r }, coded 400 Body.blank)

  asked : Controller.add_edge (partition_controller m same c remote) site a b ≡ (
      remote site.remotes address (add_part there here) >>= λ r.
      finish r.0 (if r.1 then StatusCode.success else StatusCode.partition_fail))
  unfolding Controller.add_edge Controller.add_edge_partition Remotes.add_edge call_remote
  asked =
      let l : linked site.store.nodes here there ≡ false = unfold has linked in ground arith in
      let code = get_edge_part_code site.store here there wf in
      let local = part_local c a b here there part in
      rw across (
        rw (part, Controller.add_edge_partition)
          (rw code (
            rw l (
              rw (==-ne a b ne) (
                rw local (
                  rw connected
                    (bind_assoc (remote site.remotes address (add_part there here)) _ _)))))))

  finish_exits :
      (r : MemoryStore) (ok : Bool)
      → finish r (if ok then StatusCode.success else StatusCode.partition_fail)
        ≡ (if ok then exited else done (record site { remotes = r }, coded 400 Body.blank))
  finish_exits r false = refl
  finish_exits r true =
      let (s', ran, d) = apply_part-Refines site.store (add_part here there) wf in
      let absent : is_success (part_status site.store (add_part here there)) ≡ false =
        ground (arith, missing) in
      rw ran (rw absent refl)

  pub add_edge-asks : Controller.add_edge (partition_controller m same c remote) site a b ≡ (
      remote site.remotes address (add_part there here) >>= λ r.
      if r.1 then exited else done (record site { remotes = r.0 }, coded 400 Body.blank))
  add_edge-asks =
      asked
      ∙ bind-cong (remote site.remotes address (add_part there here)) _ _
          (λ r. finish_exits r.0 r.1)

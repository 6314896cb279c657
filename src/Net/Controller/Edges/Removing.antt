-- ===== src/Net/Controller/Edges/Removing.antt =====
-- `remove_edge` of src/net/http_controller.cc for an edge between two partitions.
use graph_store.Prelude.{
  ◌≡◌, ◌≢◌, refl, ◌∙◌, Bool, true, false, ◌&&◌, Option, inl, inr, arith, ==-ne, eq_of_==,
  if◌then◌else◌, Bool-cases,
}
use graph_store.Util.Status.{with_result, is_success}
use graph_store.Util.Outcome.{done, invariant, ◌>>=◌}
use graph_store.Db.Types.{NodeId}
use graph_store.Db.MemoryStore
use graph_store.Db.MemoryStore.{MemoryStore}
use graph_store.Db.MemoryStore.View.{linked}
use graph_store.Db.MemoryStore.Parts.{
  IsPartWf, PartDone, remove_part, part_status, apply_part-Refines, get_edge_part_code,
}
use graph_store.Db.Replication.{NodeType, Client}
use graph_store.Db.Partition.Manager.{PartitionConfig, get_edge_part}
use graph_store.Db.Partition.Remote.{Remote, handle_part, call_remote}
use graph_store.Db.Partition.Remote as Remotes
use graph_store.Net.Response.{Body, Response}
use graph_store.Net.Controller.Specification.{coded}
use graph_store.Net.Controller
use graph_store.Net.Controller.{Controller, Site, is_partitioned_edge_op}
use graph_store.Net.Controller.Edges.{
  partition_controller, Reaches, RemovedIf, call_remote_lem, part_local,
}

module _ {W A : Type 0} (m : Option (NodeType × Client W)) (same : A → A → Bool)
    (c : PartitionConfig A) (remote : Remote MemoryStore A) (site : Site MemoryStore W MemoryStore)
    (a b here there : NodeId) where
  abbrev pub k : Controller MemoryStore W MemoryStore A
  k = partition_controller m same c remote

  -- Both partitions have their half of the edge.
  abbrev pub removable : Bool
  removable = linked site.store.nodes here there && linked site.remotes.nodes there here

  abbrev pub remove_reply : Response
  remove_reply = if removable then coded 200 (Body.node_ids a b) else coded 400 Body.blank

  module _ (part : get_edge_part c a b ≡ with_result (here, there))
      (across : is_partitioned_edge_op k a b ≡ true) (reaches : Reaches same c remote there)
      (ne : a ≢ b) (wf : IsPartWf site.store.nodes) (far : IsPartWf site.remotes.nodes) where
    remove_edge_across :
        Controller.remove_edge k site a b ≡ Controller.remove_edge_partition k remote site a b
    unfolding Controller.remove_edge
    remove_edge_across = rw across refl

    remove_absent :
        linked site.store.nodes here there ≡ false
        → Controller.remove_edge k site a b ≡ done (site, coded 400 Body.blank)
    unfolding Controller.remove_edge_partition
    remove_absent l =
        remove_edge_across
        ∙ rw (part, Controller.remove_edge_partition)
            (rw (get_edge_part_code site.store here there wf) (rw l refl))

    -- The call on the other partition, and then the one here.
    remove_present :
        linked site.store.nodes here there ≡ true
        → (t' : MemoryStore) × PartDone site.remotes (remove_part there here) t'
          × (Controller.remove_edge k site a b ≡ (
              if is_success (part_status site.remotes (remove_part there here))
              then (MemoryStore.remove_edge_part site.store here there >>= λ r.
                  invariant (is_success r.1) (
                    done
                      (record site { store = r.0; remotes = t' }, coded 200 (Body.node_ids a b))))
              else done (record site { remotes = t' }, coded 400 Body.blank)))
    unfolding Controller.remove_edge_partition Remotes.remove_edge
    remove_present l =
        let (t', ran, d) =
          call_remote_lem same c remote here there (part_local c a b here there part) reaches
            site.remotes (remove_part there here) far in
        (
          t',
          d,
          remove_edge_across
              ∙ rw (part, Controller.remove_edge_partition)
                  (rw (get_edge_part_code site.store here there wf) (
                    rw l (
                      rw (==-ne a b ne) (
                        rw ran
                          (elim (Bool-cases
                            (is_success (part_status site.remotes (remove_part there here)))) [
                              | inl ok ↦ rw ok refl
                              | inr bad ↦ rw bad refl
                            ]))))),
        )

    unmade-RemovedIf :
        (x y : NodeId) (s : MemoryStore) → removable ≡ false → RemovedIf removable x y s s
    unmade-RemovedIf x y s h = (λ u. refl, λ u v. ground (arith, h))

    made-RemovedIf :
        (x y : NodeId) (s s' : MemoryStore)
        → removable ≡ true
        → PartDone s (remove_part x y) s'
        → RemovedIf removable x y s s'
    made-RemovedIf x y s s' j d = (d.node, λ u v. d.edge u v ∙ ground (arith, j))

    refused-RemovedIf :
        (s' : MemoryStore)
        → removable ≡ false
        → linked site.remotes.nodes there here ≡ false
        → PartDone site.remotes (remove_part there here) s'
        → RemovedIf removable there here site.remotes s'
    refused-RemovedIf s' j l d =
        (d.node, λ u v. d.edge u v ∙ ground (arith, j, l, eq_of_== there u, eq_of_== here v))

    -- On the controller of a partition, for two different ids of which one, `here`, belongs to this
    -- partition and the other, `there`, to another one, where the connection to that one reaches its
    -- handler and both stores are well formed: remove_edge returns. Its reply is 200 if both
    -- partitions have their half of the edge, and 400 otherwise. With the reply 200 both halves are
    -- gone and there is no other change; with 400 no node and no edge has changed in either partition.
    pub remove_edge-RemovedIf :
        (site' : Site MemoryStore W MemoryStore) × (Controller.remove_edge k site a b
          ≡ done (site', remove_reply))
        × RemovedIf removable here there site.store site'.store
        × RemovedIf removable there here site.remotes site'.remotes
    remove_edge-RemovedIf = elim (Bool-cases (linked site.store.nodes here there)) [
      | inr l ↦ (
        site,
        remove_absent l ∙ rw l refl,
        unmade-RemovedIf here there site.store (ground (arith, l)),
        unmade-RemovedIf there here site.remotes (ground (arith, l)),
      )
      | inl l ↦
          let (t', d, e) = remove_present l in
          elim (Bool-cases (linked site.remotes.nodes there here)) [
            | inl r ↦
                let (s', ran, d') = apply_part-Refines site.store (remove_part here there) wf in
                let j : removable ≡ true = rw l r in
                (
                  record site { store = s'; remotes = t' },
                  e ∙ rw r (rw ran (rw l refl)),
                  made-RemovedIf here there site.store s' j d',
                  made-RemovedIf there here site.remotes t' j d,
                )
            | inr r ↦
                let j : removable ≡ false = rw l r in
                (
                  record site { remotes = t' },
                  e ∙ rw r (rw l refl),
                  unmade-RemovedIf here there site.store j,
                  refused-RemovedIf t' j r d,
                )
          ]
    ]

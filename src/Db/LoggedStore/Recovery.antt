-- ===== src/Db/LoggedStore/Recovery.antt =====
-- `recover` of src/db/logged_store.cc: the log's entries, and the case REMOVE_EDGE of its switch.
use graph_store.Prelude.{
  ◌<◌, ◌≡◌, refl, ap, ◌∙◌, sym, true, false, Option, none, some, arith, ◌==◌, ==_refl, length,
}
use graph_store.Util.Status.{StatusCode}
use graph_store.Util.Outcome
use graph_store.Util.Outcome.{Outcome, done, exited, ◌>>=◌, bind_assoc}
use graph_store.Io.Device.{Device}
use graph_store.Db.Types.{NodeId}
use graph_store.Db.MemoryStore
use graph_store.Db.MemoryStore.{MemoryStore}
use graph_store.Db.MemoryStore.View.{has, linked}
use graph_store.Db.MemoryStore.Invariant.{IsWf}
use graph_store.Db.MemoryStore.Edges.{remove_edge-Refines}
use graph_store.Db.MemoryStore.Parts.{one_way, get_edge-one_way}
use graph_store.Db.Log.Entry.{OpCode}
use graph_store.Db.Log.Manager as LogOps
use graph_store.Db.Log.Manager.{LogManager}
use graph_store.Db.Log.Reader.{read_log}
use graph_store.Db.Log.Segment.{IsLog, logged}
use graph_store.Db.Log.Count.{length-logged}
use graph_store.Db.Log.Replay.{fold_entries, replay_lem}
use graph_store.Db.Checkpoint.Manager as Checkpoints
use graph_store.Db.LoggedStore.{LoggedStore, recover, apply_entry, previous, recovery_fuel}

-- The fuel of `recover` exceeds the number of entries.
length-logged-lt :
    (dev : Device) (log : LogManager) → IsLog dev log → length (logged dev log) < recovery_fuel log
length-logged-lt dev log l = omega (arith, length-logged dev log l, l.last, l.size)

-- What `recover` makes of the end of its loop.
abbrev finish : LoggedStore → Option MemoryStore → Outcome (Option LoggedStore)
finish s ended = elim ended [
  | none ↦ done none
  | some memory ↦ done (some (record s { memory = memory }))
]

finish-map :
    (s : LoggedStore) (o : Outcome MemoryStore)
    → (Outcome.map some o >>= finish s) ≡ Outcome.map (λ m. some (record s { memory = m })) o
finish-map s (done m) = refl
finish-map s exited = refl

-- Where the log is in its invariant and the checkpoint restores the store `base`, `recover` gives
-- `base` after every entry of the log in turn, and its loop does not run out of fuel. The process
-- exits exactly if it does so at one of the entries.
pub recover-replays :
    (s : LoggedStore) (base : MemoryStore)
    → IsLog s.device s.log
    → Checkpoints.restore_checkpoint s.device s.checkpoint s.memory
        (previous (LogOps.get_generation s.log))
      ≡ done base
    → recover s
      ≡ Outcome.map
          (λ m. some (record s { memory = m }))
          (fold_entries apply_entry base (logged s.device s.log))
unfolding recover
recover-replays s base l restored =
    let ran =
      replay_lem s.device s.log apply_entry (recovery_fuel s.log) base l
        (length-logged-lt s.device s.log l) in
    rw restored (
      sym (bind_assoc (read_log s.device s.log) _ _)
      ∙ ap (λ o. o >>= finish s) ran
      ∙ finish-map s (fold_entries apply_entry base (logged s.device s.log)))

-- In a well-formed store with an edge between `a` and `b`: the method removeEdge removes the edge on
-- both sides, but an entry REMOVE_EDGE in the log, replayed by `recover`, leaves `a` with an edge to
-- `b` and `b` with none to `a`, and getEdge of the two then makes the process exit.
pub remove_edge_falls_through :
    (m : MemoryStore) (a b : NodeId)
    → IsWf m.nodes
    → linked m.nodes a b ≡ true
    → (m1 m2 : MemoryStore) × (MemoryStore.remove_edge m a b ≡ done (m1, StatusCode.success))
      × (linked m1.nodes a b ≡ false)
      × (linked m1.nodes b a ≡ false)
      × (apply_entry m (record { opcode = OpCode.remove_edge; id_a = a; id_b = b }) ≡ done m2)
      × (linked m2.nodes a b ≡ true)
      × (linked m2.nodes b a ≡ false)
      × (MemoryStore.get_edge m2 a b ≡ exited)
unfolding apply_entry
remove_edge_falls_through m a b wf l =
    let apart : (a == b) ≡ false = ground (arith, wf.irreflexive a) in
    let (m1, ran, impl) = remove_edge-Refines m a b wf in
    let removed : MemoryStore.remove_edge m a b ≡ done (m1, StatusCode.success) =
      ran ∙ ap (λ c. done (m1, c)) (ground arith) in
    let gone : linked m1.nodes a b ≡ false = ground (arith, impl.edge a b, ==_refl a, ==_refl b) in
    let ends : (has m.nodes a ≡ true) × (has m.nodes b ≡ true) =
      unfold has linked in ground (arith, wf.symmetric a b) in
    let (m2, added, ab, ba, kept) =
      one_way m1 a b impl.wf (impl.node a ∙ ends.0) (ground arith) gone in
    (
      m1,
      m2,
      removed,
      gone,
      ground (arith, impl.wf.symmetric a b),
      rw removed (rw added refl),
      ab,
      ba,
      get_edge-one_way m2 a b (ground arith) (kept b ∙ impl.node b ∙ ends.1) ab ba,
    )

-- ===== src/Db/LoggedStore/Progress.antt =====
-- The calls of src/db/logged_store.cc that change the store, and the log.
use graph_store.Prelude.{
  suc, ◌≤◌, ◌≡◌, refl, ap, ◌∙◌, sym, subst, List, [], ◌∷◌, ◌++◌, arith, ◌⊎◌, inl, inr,
}
use graph_store.Util.Status.{StatusCode}
use graph_store.Util.Outcome.{done, exited, ◌>>=◌, done-injective}
use graph_store.Io.Device.{Device}
use graph_store.Db.MemoryStore
use graph_store.Db.MemoryStore.{MemoryStore, Mutation}
use graph_store.Db.Log.Entry.{Entry, IsNamed}
use graph_store.Db.Log.LogBlock
use graph_store.Db.Log.Manager as LogOps
use graph_store.Db.Log.Manager.{LogManager}
use graph_store.Db.Log.Segment.{IsLog, logged}
use graph_store.Db.Log.Operation.{Operated, log_operation-Operated}
use graph_store.Db.LoggedStore
use graph_store.Db.LoggedStore.{LoggedStore, in_memory}
use graph_store.Db.LoggedStore.Durability.{
  Call, add_node, remove_node, add_edge, remove_edge, add_edge_part, remove_edge_part, perform,
  perform_all, entry_of, after_log,
}

-- The log goes on: it is in its invariant, in the same place of the same device, and does not shrink.
pub record GoesOn (s s' : LoggedStore) : Type 0 where
  pub in_order : IsLog s'.device s'.log
  pub device : s'.device.size ≡ s.device.size
  pub place : s'.log.log_min_block ≡ s.log.log_min_block
  pub forward : s.log.current_block.number ≤ s'.log.current_block.number

-- The current block of the log is full, and the device ends behind it.
abbrev pub IsFull : LoggedStore → Type 0
IsFull s =
    (LogBlock.n_entries s.log.current_block.words ≡ 169)
    × (suc s.log.current_block.number ≡ s.device.size)

-- A call that logged its entry and made the change in memory that it returns, or was refused.
abbrev pub Logged : LoggedStore → Entry → Mutation → LoggedStore → StatusCode → Type 0
Logged s e m s' c =
    (logged s'.device s'.log ≡ logged s.device s.log ++ e ∷ []) × (m ≡ done (s'.memory, c))
    ⊎ (s' ≡ s) × (c ≡ StatusCode.no_space) × IsFull s

module _ (s : LoggedStore) (l : IsLog s.device s.log) (e : Entry) where
  after-GoesOn :
      (m : Mutation) (r : Device × LogManager × StatusCode) (s' : LoggedStore) (c : StatusCode)
      → Operated s.device s.log e r
      → after_log s m r ≡ done (s', c)
      → GoesOn s s' × Logged s e m s' c
  unfolding in_memory
  after-GoesOn (done (m', c')) (dev', log', StatusCode.success) s' c a ran =
      subst (λ (x : LoggedStore × StatusCode). GoesOn s x.0 × Logged s e (done (m', c')) x.0 x.1)
        (done-injective _ _ ran)
        (
          record { in_order = a.log_kept; device = a.device; place = a.place; forward = a.forward },
          inl (a.entries, refl),
        )
  after-GoesOn exited (dev', log', StatusCode.success) s' c a ran = cc
  after-GoesOn m (dev', log', StatusCode.no_space) s' c a ran =
      let unchanged : s ≡ record s { device = dev'; log = log' } =
        λ i. record s { device = sym a.device i; log = sym a.log_same i } in
      let same = done-injective _ _ ran in
      let back : s' ≡ s = sym (unchanged ∙ ap (λ x. x.0) same) in
      (
        subst (GoesOn s) (sym back)
            (record { in_order = l; device = refl; place = refl; forward = omega arith }),
        inr (back, sym (ap (λ x. x.1) same), (a.filled, a.ended)),
      )
  after-GoesOn m (dev', log', status) s' c a ran = elim a [ ]

-- The change that a call makes in memory.
abbrev pub in_store : MemoryStore → Call → Mutation
in_store m (add_node a) = MemoryStore.add_node m a
in_store m (remove_node a) = MemoryStore.remove_node m a
in_store m (add_edge a b) = MemoryStore.add_edge m a b
in_store m (remove_edge a b) = MemoryStore.remove_edge m a b
in_store m (add_edge_part a b) = MemoryStore.add_edge_part m a b
in_store m (remove_edge_part a b) = MemoryStore.remove_edge_part m a b

-- A method of a store whose log is in its invariant, if it returns, either has added one entry for
-- the call behind the log's entries and returns what the same method of the store in memory does,
-- or returns NO_SPACE and has changed nothing, as the log is full up to the end of the device. The
-- log stays in its invariant.
pub perform-Logged :
    (s : LoggedStore) (call : Call) (s' : LoggedStore) (c : StatusCode)
    → IsLog s.device s.log
    → perform s call ≡ done (s', c)
    → GoesOn s s' × Logged s (entry_of call) (in_store s.memory call) s' c
unfolding entry_of LoggedStore.add_node LoggedStore.remove_node LoggedStore.add_edge
    LoggedStore.remove_edge LoggedStore.add_edge_part LoggedStore.remove_edge_part
perform-Logged s call s' c l ran = go call ran
  where
    after :
        (e : Entry) (m : Mutation)
        → IsNamed e.opcode
        → after_log s m (LogOps.log_operation s.device s.log e) ≡ done (s', c)
        → GoesOn s s' × Logged s e m s' c
    after e m named ran' =
        after-GoesOn s l e m (LogOps.log_operation s.device s.log e) s' c
          (log_operation-Operated s.device s.log e named l) ran'

    go :
        (k : Call)
        → perform s k ≡ done (s', c)
        → GoesOn s s' × Logged s (entry_of k) (in_store s.memory k) s' c
    go (add_node a) ran = after (entry_of (add_node a)) (in_store s.memory (add_node a)) tt ran
    go (remove_node a) ran =
        after (entry_of (remove_node a)) (in_store s.memory (remove_node a)) tt ran
    go (add_edge a b) ran =
        after (entry_of (add_edge a b)) (in_store s.memory (add_edge a b)) tt ran
    go (remove_edge a b) ran =
        after (entry_of (remove_edge a b)) (in_store s.memory (remove_edge a b)) tt ran
    go (add_edge_part a b) ran =
        after (entry_of (add_edge_part a b)) (in_store s.memory (add_edge_part a b)) tt ran
    go (remove_edge_part a b) ran =
        after (entry_of (remove_edge_part a b)) (in_store s.memory (remove_edge_part a b)) tt ran

-- The first of several calls, and the rest.
pub perform_all-inv :
    (o : LoggedStore.LoggedMutation) (calls : List Call) (t : LoggedStore)
    → (o >>= λ r. perform_all r.0 calls) ≡ done t
    → (s' : LoggedStore) × (c : StatusCode) × (o ≡ done (s', c)) × (perform_all s' calls ≡ done t)
perform_all-inv (done (s', c)) calls t h = (s', c, refl, h)
perform_all-inv exited calls t h = cc

pub perform_all-GoesOn :
    (s : LoggedStore) (calls : List Call) (t : LoggedStore)
    → IsLog s.device s.log
    → perform_all s calls ≡ done t
    → GoesOn s t
unfolding perform_all
perform_all-GoesOn s [] t l h =
    subst (GoesOn s) (done-injective _ _ h)
      (record { in_order = l; device = refl; place = refl; forward = omega arith })
perform_all-GoesOn s (call ∷ calls) t l h =
    let (s', c, ran, rest) = perform_all-inv (perform s call) calls t h in
    let (on, _) = perform-Logged s call s' c l ran in
    let on' = perform_all-GoesOn s' calls t on.in_order rest in
    record {
      in_order = on'.in_order;
      device = on'.device ∙ on.device;
      place = on'.place ∙ on.place;
      forward = omega (arith, on.forward, on'.forward);
    }

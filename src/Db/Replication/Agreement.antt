-- ===== src/Db/Replication/Agreement.antt =====
-- What the chain of src/net/replication_server.cc and src/db/replication_manager.cc keeps: the
-- graphs of the replicas.
use graph_store.Prelude.{
  ℕ, zero, suc, ◌≡◌, ◌≢◌, ◌⊎◌, inl, inr, refl, ap, ◌∙◌, sym, Bool, true, false, Bool-cases, subst,
}
use graph_store.Util.Status.{StatusCode, is_success}
use graph_store.Util.Outcome.{done}
use graph_store.Db.MemoryStore.Graph.{Graph, Op, InRange, IsGraph, status, effect}
use graph_store.Db.GraphStore.{GraphStore, call}
use graph_store.Db.GraphStore.Contract.{Contract}
use graph_store.Db.GraphStore.Idle.{effect_idle}
use graph_store.Db.Replication.{
  NodeType, Client, Replica, Chain, Network, Delivers, replicate, handle, chain_client,
}

pub true_ne_false : true ≡ false → ⊥
true_ne_false h = cc

-- A node of the type, with such nodes behind it: there is none behind the tail, and only there.
abbrev pub IsBehind : (S : Type 0) → NodeType → (n : ℕ) → Chain S n → Type 0
IsBehind S NodeType.tail zero c = Unit
IsBehind S NodeType.tail (suc n) c = ⊥
IsBehind S _ zero c = ⊥
IsBehind S _ (suc n) (r, c) = (r.type ≢ NodeType.head) × IsBehind S r.type n c

module _ {S : Type 0} (G : GraphStore S) (laws : Contract G) where
  abbrev pub Holds : Graph → S → Type 0
  Holds g s = laws.IsValid s × (laws.graph s ≡ g)

  -- All replicas hold the graph.
  abbrev pub AllHold : Graph → (n : ℕ) → Chain S n → Type 0
  AllHold g zero c = Unit
  AllHold g (suc n) (r, c) = Holds g r.store × AllHold g n c

  -- The first replicas hold `g'`, and those behind them still hold `g`.
  abbrev pub Split : Graph → Graph → (n : ℕ) → Chain S n → Type 0
  Split g' g zero c = Unit
  Split g' g (suc n) (r, c) = Holds g' r.store × Split g' g n c ⊎ Holds g r.store × AllHold g n c

  Split-of_AllHold : (g' g : Graph) (n : ℕ) (c : Chain S n) → AllHold g n c → Split g' g n c
  Split-of_AllHold g' g zero c h = tt
  Split-of_AllHold g' g (suc n) (r, c) h = inr h

  AllHold-of_Split : (g : Graph) (n : ℕ) (c : Chain S n) → Split g g n c → AllHold g n c
  AllHold-of_Split g zero c h = tt
  AllHold-of_Split g (suc n) (r, c) (inl (here, there)) = (here, AllHold-of_Split g n c there)
  AllHold-of_Split g (suc n) (r, c) (inr h) = h

  -- No call is refused for want of space.
  abbrev pub HasRoom : Type 0
  HasRoom =
      (s s' : S) (op : Op)
      → InRange op
      → laws.IsValid s
      → call G s op ≡ done (s', StatusCode.no_space)
      → ⊥

  -- What a call leaves of the replicas that held `g`, and what it returns.
  pub record Passed (g : Graph) (op : Op) (n : ℕ) (c : Chain S n) (b : Bool) : Type 0 where
    pub kept : Split (effect g op) g n c
    pub agreed : b ≡ true → AllHold (effect g op) n c
    pub accepted : HasRoom → is_success (status g op) ≡ true → b ≡ true

  module _ (network : Network) (delivers : Delivers network) (g : Graph) (op : Op) where
    -- `replicate…` returns, and what it leaves. Behind any node but the tail, an operation that the
    -- graph does not allow is refused.
    abbrev pub Replicated : NodeType → (n : ℕ) → Chain S n → Type 0
    Replicated type n c =
        (c' : Chain S n) × (b : Bool) × (replicate type (chain_client G network n) c op
          ≡ done (c', b))
        × IsBehind S type n c'
        × Passed g op n c' b
        × (is_success (status g op) ≡ false → type ≢ NodeType.tail → b ≡ false)

    abbrev Handled : (n : ℕ) → Replica S → Chain S n → Type 0
    Handled n r c =
        (r' : Replica S) × (c' : Chain S n) × (b : Bool) × (handle G (chain_client G network n) r c
            op
          ≡ done ((r', c'), b))
        × (r'.type ≡ r.type)
        × IsBehind S r.type n c'
        × Passed g op (suc n) (r', c') b
        × (is_success (status g op) ≡ false → b ≡ false)

    handle_lem :
        (n : ℕ) (r : Replica S) (c : Chain S n)
        → InRange op
        → Holds g r.store
        → AllHold g n c
        → IsBehind S r.type n c
        → Replicated r.type n c
        → Handled n r c
    unfolding handle
    handle_lem n r c range (v, held) others behind (c', b, ran, behind', passed, refused) =
        let (s', code, called, v', answer) = laws.performs r.store op range v in
        elim answer [
          | inl (right, after) ↦
              let same : code ≡ status g op = right ∙ ap (λ x. status x op) held in
              let holds : Holds (effect g op) s' = (v', after ∙ ap (λ x. effect x op) held) in
              elim (Bool-cases (is_success code)) [
                | inl ok ↦ (
                  record r { store = s' },
                  c',
                  b,
                  rw called (rw ok (rw ran refl)),
                  refl,
                  behind',
                  record {
                    kept = inl (holds, passed.kept);
                    agreed = λ e. (holds, passed.agreed e);
                    accepted = passed.accepted;
                  },
                  λ e. absurd (cc),
                )
                | inr bad ↦ (
                  record r { store = s' },
                  c,
                  false,
                  rw called (rw bad refl),
                  refl,
                  behind,
                  record {
                    kept = inl (holds, Split-of_AllHold (effect g op) g n c others);
                    agreed = λ e. cc;
                    accepted = λ room e. cc;
                  },
                  λ e. refl,
                )
              ]
          | inr (full, after) ↦ (
            record r { store = s' },
            c,
            false,
            rw called (rw full refl),
            refl,
            behind,
            record {
              kept = inr ((v', after ∙ held), others);
              agreed = λ e. cc;
              accepted = λ room e.
                  absurd (room r.store s' op range v (called ∙ ap (λ x. done (s', x)) full));
            },
            λ e. refl,
          )
        ]

    of_Handled :
        (n : ℕ) (r : Replica S) (c : Chain S n)
        → r.type ≢ NodeType.head
        → Handled n r c
        → Replicated NodeType.head (suc n) (r, c) × Replicated NodeType.mid (suc n) (r, c)
    unfolding replicate chain_client
    of_Handled n r c ne (r', c', b, ran, type, behind, passed, refused) =
        let client : Client (Chain S (suc n)) = chain_client G network (suc n) in
        let sends : client.send (r, c) op ≡ done ((r', c'), b) =
          ap (λ (k : Client (Chain S (suc n))). k.send (r, c) op) (delivers _ _) ∙ ran in
        let place : IsBehind S NodeType.mid (suc n) (r', c') =
          (λ e. ne (sym type ∙ e), subst (λ t. IsBehind S t n c') (sym type) behind) in
        (
          ((r', c'), b, sends, place, passed, λ e other. refused e),
          ((r', c'), b, sends, place, passed, λ e other. refused e),
        )

    pub replicate_lem :
        (type : NodeType) (n : ℕ) (c : Chain S n)
        → InRange op
        → AllHold g n c
        → IsBehind S type n c
        → Replicated type n c
    unfolding replicate chain_client
    replicate_lem NodeType.tail zero c range h w = (
      c,
      true,
      refl,
      tt,
      record { kept = tt; agreed = λ e. tt; accepted = λ room e. refl },
      λ e ne. absurd (ne refl),
    )
    replicate_lem NodeType.tail (suc n) c range h w = absurd w
    replicate_lem NodeType.head zero c range h w = absurd w
    replicate_lem NodeType.mid zero c range h w = absurd w
    replicate_lem NodeType.head (suc n) (r, c) range h w =
        let rest = replicate_lem r.type n c range h.1 w.1 in
        (of_Handled n r c w.0 (handle_lem n r c range h.0 h.1 w.1 rest)).0
    replicate_lem NodeType.mid (suc n) (r, c) range h w =
        let rest = replicate_lem r.type n c range h.1 w.1 in
        (of_Handled n r c w.0 (handle_lem n r c range h.0 h.1 w.1 rest)).1

  graph_of : (g : Graph) (n : ℕ) (c : Chain S (suc n)) → AllHold g (suc n) c → IsGraph g
  graph_of g n (r, c) ((v, held), others) = subst IsGraph held (laws.is_graph r.store v)

  unchanged :
      (g : Graph) (op : Op) (type : NodeType) (n : ℕ) (c c' : Chain S n) (b : Bool)
      → IsBehind S type n c
      → AllHold g n c
      → Passed g op n c' b
      → is_success (status g op) ≡ false
      → AllHold g n c'
  unchanged g op type zero c c' b w h p e = tt
  unchanged g op type (suc n) c c' b w h p e =
      AllHold-of_Split g (suc n) c'
        (subst (λ x. Split x g (suc n) c') (effect_idle g op (graph_of g n c h) e) p.kept)

  -- Over a network that delivers its calls, from replicas that all hold the graph `g`, a replicated
  -- operation at 64-bit ids on a node that is not the tail returns. The replicas that follow the
  -- node keep their places; the first ones hold the graph of the specification and the ones behind
  -- them still hold `g`. If the answer is true, all of them hold the graph of the specification,
  -- and its status was SUCCESS; if that status is another, all of them still hold `g`; and if it is
  -- SUCCESS and no store is ever out of space, the answer is true.
  pub replicate-Agrees :
      (network : Network) (g : Graph) (op : Op) (type : NodeType) (n : ℕ) (c : Chain S n)
      → Delivers network
      → InRange op
      → AllHold g n c
      → IsBehind S type n c
      → type ≢ NodeType.tail
      → (c' : Chain S n) × (b : Bool) × (replicate type (chain_client G network n) c op
          ≡ done (c', b))
        × IsBehind S type n c'
        × Split (effect g op) g n c'
        × (b ≡ true → (is_success (status g op) ≡ true) × AllHold (effect g op) n c')
        × (is_success (status g op) ≡ false → AllHold g n c')
        × (HasRoom → is_success (status g op) ≡ true → b ≡ true)
  replicate-Agrees network g op type n c delivers range h w other =
      let (c', b, ran, behind, p, refused) =
        replicate_lem network delivers g op type n c range h w in
      let legal : b ≡ true → is_success (status g op) ≡ true = λ e.
        elim (Bool-cases (is_success (status g op))) [
          | inl ok ↦ ok
          | inr bad ↦ absurd (true_ne_false (sym e ∙ refused bad other))
        ] in
      (
        c',
        b,
        ran,
        behind,
        p.kept,
        λ e. (legal e, p.agreed e),
        λ e. unchanged g op type n c c' b w h p e,
        p.accepted,
      )

-- ===== src/Client/FillLog.antt =====
-- test/integration/fill_log.py: a client that adds the nodes 0, 1, 2, ... until the server has no
-- space. The server, behind the library `requests`, is a parameter: it takes a node id to its next
-- state and the status code of its reply, or to `exited` where the request raises an exception. The
-- `while` loop runs on fuel.
use graph_store.Prelude.{ℕ, zero, suc, ◌+◌, true, false, Option, none, some, ◌==◌}
use graph_store.Util.Outcome.{Outcome, done, invariant, ◌>>=◌}
use graph_store.Db.Types.{NodeId}

-- What the function `add_node` reaches.
abbrev pub Server {ℓ} : Type ℓ → Type ℓ
Server S = S → NodeId → Outcome (S × ℕ)

-- The loop, from the number `node_id`; the value at its end is the number that it stops at, and the
-- line that the program prints names the one before it. A failed `assert` ends the program. `none`
-- says that the fuel ran out.
unfoldable pub fill_from {ℓ} :
    {S : Type ℓ} → ℕ → Server S → S → (node_id : NodeId) → Outcome (Option (S × NodeId))
fill_from zero add_node s node_id = done none
fill_from (suc fuel) add_node s node_id = do
  (s', status_code) ← add_node s node_id
  elim (status_code == 507) [
    | true ↦ done (some (s', node_id))
    | false ↦ invariant (status_code == 200) (fill_from fuel add_node s' (node_id + 1))
  ]

unfoldable pub fill_log {ℓ} : {S : Type ℓ} → ℕ → Server S → S → Outcome (Option (S × NodeId))
unfolding fill_from
fill_log fuel add_node s = fill_from fuel add_node s 0

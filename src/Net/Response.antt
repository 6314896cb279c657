-- ===== src/Net/Response.antt =====
-- The replies of src/net/http_controller.cc: `make400` to `make507`, and the values that a handler
-- sets. A reply whose code is not set has the code 200.
use graph_store.Prelude.{ℕ, Bool, List}
use graph_store.Util.Status.{StatusCode}
use graph_store.Db.Types.{NodeId}

pub data Body : Type 0 where
  blank ok : Body
  node_id : NodeId → Body
  node_ids : NodeId → NodeId → Body
  in_graph : Bool → Body
  neighbors : NodeId → List NodeId → Body
  distance : ℕ → Body

pub record Response : Type 0 where
  pub code : ℕ
  pub body : Body

abbrev pub reply : Body → Response
reply body = record { code = 200; body = body }

abbrev pub make : ℕ → Response
make code = record { code = code; body = Body.blank }

-- the reply to an addition, by the status that the store returns
abbrev pub added : Body → StatusCode → Response
added body StatusCode.success = reply body
added body StatusCode.no_action = make 204
added body StatusCode.no_space = make 507
added body _ = make 400

-- the reply to a removal
abbrev pub removed : Body → StatusCode → Response
removed body StatusCode.success = reply body
removed body StatusCode.no_space = make 507
removed body _ = make 400

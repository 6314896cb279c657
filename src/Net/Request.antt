-- ===== src/Net/Request.antt =====
-- `getJSON`, `getNodeId` and `getEdgeIds` of src/net/http_controller.cc. The library for JSON is a
-- parameter.
use graph_store.Prelude.{ℕ, Option, none, some}
use graph_store.Util.Status.{StatusCode, StatusWith, with_result, without_result}
use graph_store.Util.Outcome.{Outcome, done, ◌>>=◌}
use graph_store.Db.Types.{NodeId}

-- the names that a request's values stand under
pub data Field : Type 0 where
  node_id node_a_id node_b_id : Field

-- What the controller takes of the library, for the data `D` of requests and values `V`: the
-- reader, which may fail; `value["…"]`, which needs an object or null and otherwise raises an
-- exception; and `asUInt64` of a value of which `isUInt64` holds.
pub record Json (D V : Type 0) : Type 0 where
  pub parse : D → Option V
  pub member : V → Field → Outcome V
  pub as_uint64 : V → Option ℕ

-- The two members of an edge are read only if those before them are numbers.
module _ {D V : Type 0} (json : Json D V) where
  unfoldable pub get_json : D → StatusWith V
  get_json data' = elim (json.parse data') [
    | none ↦ without_result StatusCode.invalid
    | some v ↦ with_result v
  ]

  unfoldable pub get_number : V → Field → Outcome (StatusWith NodeId)
  get_number value field = do
    v ← json.member value field
    elim (json.as_uint64 v) [
      | none ↦ done (without_result StatusCode.invalid)
      | some id ↦ done (with_result id)
    ]

  unfoldable pub get_node_id : D → Outcome (StatusWith NodeId)
  unfolding get_json get_number
  get_node_id data' = elim (get_json data') [
    | without_result code ↦ done (without_result StatusCode.invalid)
    | with_result value ↦ get_number value Field.node_id
  ]

  unfoldable pub get_edge_ids : D → Outcome (StatusWith (NodeId × NodeId))
  unfolding get_json get_number
  get_edge_ids data' = elim (get_json data') [
    | without_result code ↦ done (without_result StatusCode.invalid)
    | with_result value ↦ do
      a ← get_number value Field.node_a_id
      elim a [
        | without_result code ↦ done (without_result code)
        | with_result first ↦ do
          b ← get_number value Field.node_b_id
          elim b [
            | without_result code ↦ done (without_result code)
            | with_result second ↦ done (with_result (first, second))
          ]
      ]
  ]

-- ===== src/Runners/Dse02x.antt =====
-- runners/dse_02x_task_runner.go
use stack_deploy.Prelude.{String, List, [], ◌∷◌, Option, none, some, ◌==◌, if◌then◌else◌, true}
use stack_deploy.Prelude.Int.{ℤ, pos}
use stack_deploy.Prelude.Text.{concat, join}
use stack_deploy.Prelude.Decimal.{print_int}
use stack_deploy.Map.{Map, lookup}
use stack_deploy.Runners.Results.{
  Entries, malformed, timed_out, Result, err, ok, or_error, or_panic,
}
use stack_deploy.Runners.Responses.{check_dse_02x}
use stack_deploy.Runners.Parameters.{set_values}
use stack_deploy.Runners.{
  Request, get_request, Reply, Step, ◌>>=◌, ◌>>◌, return, lift, must_get, set_variable, send,
}

-- The pointers of the answer's structs that JSON may leave nil are options. Only the fields that are
-- read are kept.
pub record Reservation : Type 0 where
  pub ports : Map ℤ

pub record Runtime : Type 0 where
  pub address : String
  pub reservation : Option Reservation

pub record Node : Type 0 where
  pub id : String
  pub runtime : Option Runtime

pub record StartResponse : Type 0 where
  pub status : String
  pub nodes : List (Option Node)

abbrev zero_or : Option ℤ → ℤ
zero_or none = pos 0
zero_or (some port) = port

abbrev pub node_key : String → String → String → String
node_key id node suffix = concat (id ∷ ".cassandra-" ∷ node ∷ suffix ∷ [])

unfoldable pub set_node_ports : String → String → Map ℤ → Step (Unit {0})
unfolding print_int
set_node_ports id node [] = return tt
set_node_ports id node ((name, port) ∷ ports) = do
  set_variable (node_key id node (concat ("." ∷ name ∷ "Port" ∷ []))) (print_int port)
  set_node_ports id node ports

unfoldable pub endpoint_of : Runtime → Reservation → String
unfolding lookup print_int
endpoint_of runtime reservation =
    concat (runtime.address ∷ ":" ∷ print_int (zero_or (lookup "cql" reservation.ports)) ∷ [])

-- The endpoints of the nodes, whose variables are set on the way.
unfoldable pub set_nodes : String → List (Option Node) → Step (List String)
unfolding set_node_ports endpoint_of
set_nodes id [] = return []
set_nodes id (pointer ∷ nodes) = do
  node ← lift (or_panic pointer)
  runtime ← lift (or_panic node.runtime)
  reservation ← lift (or_panic runtime.reservation)
  set_variable (node_key id node.id "") (endpoint_of runtime reservation)
  set_variable (node_key id node.id ".host") runtime.address
  set_node_ports id node.id reservation.ports
  endpoints ← set_nodes id nodes
  return (endpoint_of runtime reservation ∷ endpoints)

abbrev unless_timeout : StartResponse → Result StartResponse
unless_timeout response = if response.status == "timeout" then err timed_out else ok response

unfoldable pub request_of : String → Map String → Request
unfolding set_values
request_of url fields = get_request url (set_values (λ k. true) fields [])

-- `parse_start` reads a DSEMesos02xStartResponse.
module _ (web : List Request → Reply) (parse : String → Option Entries)
    (parse_start : String → Option StartResponse) where
  unfoldable pub fill_task_context : String → String → Step (Unit {0})
  unfolding set_nodes
  fill_task_context id body = do
    parsed ← lift (or_error malformed (parse_start body))
    response ← lift (unless_timeout parsed)
    endpoints ← set_nodes id response.nodes
    set_variable (concat (id ∷ ".cassandraConnect" ∷ [])) (join endpoints ",")

  unfoldable pub do_get : String → Map String → Step String
  unfolding request_of check_dse_02x
  do_get url fields = do
    answer ← send web (request_of url fields)
    lift (check_dse_02x parse answer)

  unfoldable pub run_task : String → Map String → Step (Unit {0})
  unfolding must_get do_get fill_task_context
  run_task id fields = do
    api ← must_get (concat (id ∷ ".api" ∷ []))
    do_get (concat (api ∷ "/api/cluster/add" ∷ [])) fields
    do_get (concat (api ∷ "/api/node/add" ∷ [])) fields
    response ← do_get (concat (api ∷ "/api/node/start" ∷ [])) fields
    fill_task_context id response

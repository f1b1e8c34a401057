-- ===== src/Runners/Dse.antt =====
-- runners/dse_task_runner.go
use stack_deploy.Prelude.{
  ℕ, ◌+◌, String, Bool, true, false, List, [], ◌∷◌, Option, none, some, elem, ◌==◌, if◌then◌else◌,
}
use stack_deploy.Prelude.Float.{Float64}
use stack_deploy.Prelude.Text.{concat, join}
use stack_deploy.Prelude.Decimal.{print_nat}
use stack_deploy.Map.{Map, insert}
use stack_deploy.Runners.Results.{
  Json, boolean, number, text, Values, no_values, value, Entries, malformed, wrong_field, or_error,
  as_object, text_field, object_field, array_field,
}
use stack_deploy.Runners.Responses.{check_success}
use stack_deploy.Runners.{
  Request, post_request, Reply, Step, ◌>>=◌, ◌>>◌, return, lift, must_get, set_variable, send,
}

-- strconv.ParseBool
unfoldable pub parse_bool : String → Option Bool
parse_bool s =
    if elem s ("1" ∷ "t" ∷ "T" ∷ "TRUE" ∷ "true" ∷ "True" ∷ [])
    then some true
    else if elem s ("0" ∷ "f" ∷ "F" ∷ "FALSE" ∷ "false" ∷ "False" ∷ [])
    then some false
    else none

-- The hosts of the servers, in the order of the answer.
unfoldable pub hosts_of : Values → Step (List String)
unfolding text_field object_field
hosts_of no_values = return []
hosts_of (value j values) = do
  cluster ← lift (or_error (wrong_field "cluster") (as_object (some j)))
  id ← lift (text_field "id" cluster)
  runtime ← lift (object_field "runtime" cluster)
  hostname ← lift (text_field "hostname" runtime)
  hosts ← hosts_of values
  return (hostname ∷ hosts)

-- `id` in this loop is the place in the list of hosts.
unfoldable pub set_nodes : String → ℕ → List String → Step (Unit {0})
set_nodes id n [] = return tt
set_nodes id n (host ∷ hosts) = do
  set_variable (concat (id ∷ ".cassandra-node-" ∷ print_nat n ∷ [])) host
  set_nodes id (n + 1) hosts

unfoldable pub fill_task_context : String → Entries → Step (Unit {0})
unfolding object_field array_field hosts_of set_nodes
fill_task_context id response = do
  answer ← lift (object_field "value" response)
  clusters ← lift (array_field "cluster" answer)
  hosts ← hosts_of clusters
  set_nodes id 0 hosts
  set_variable (concat (id ∷ ".cassandraConnect" ∷ [])) (join hosts ",")

-- `parse_float` is strconv.ParseFloat with 64 bits.
module _ (web : List Request → Reply) (parse : String → Option Entries)
    (parse_float : String → Option Float64) where
  abbrev parameter : String → String → Option Json
  parameter k v =
      if elem k ("cpu" ∷ "mem" ∷ [])
      then (elim (parse_float v) [ none ↦ none | some x ↦ some (number x) ])
      else if k == "seed"
      then (elim (parse_bool v) [ none ↦ none | some b ↦ some (boolean b) ])
      else some (text v)

  -- doPost's loop over the fields; `none` is the error of a value that cannot be read.
  unfoldable pub post_params : Map String → Map Json → Option (Map Json)
  unfolding parse_bool insert
  post_params [] params = some params
  post_params ((k, v) ∷ fields) params = elim (parameter k v) [
    | none ↦ none
    | some j ↦ post_params fields (insert k j params)
  ]

  unfoldable pub do_post : String → Map String → Step Entries
  unfolding post_params check_success
  do_post url fields = do
    params ← lift (or_error malformed (post_params fields []))
    answer ← send web (post_request url params)
    lift (check_success parse answer)

  unfoldable pub run_task : String → Map String → Step (Unit {0})
  unfolding must_get do_post fill_task_context
  run_task id fields = do
    api ← must_get (concat (id ∷ ".api" ∷ []))
    do_post (concat (api ∷ "/api/add" ∷ [])) fields
    response ← do_post (concat (api ∷ "/api/start" ∷ [])) fields
    fill_task_context id response

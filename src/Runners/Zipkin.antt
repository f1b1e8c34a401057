-- ===== src/Runners/Zipkin.antt =====
-- runners/zipkin_task_runner.go
use stack_deploy.Prelude.{String, List, [], ◌∷◌, Option, none, some, ◌==◌, if◌then◌else◌}
use stack_deploy.Prelude.Text.{concat}
use stack_deploy.Map.{Map, lookup}
use stack_deploy.Runners.Results.{
  Values, no_values, value, Entries, missing_id, missing_type, wrong_field, or_error, as_object,
  text_field, object_field, array_field,
}
use stack_deploy.Runners.Responses.{check_success}
use stack_deploy.Runners.Parameters.{only}
use stack_deploy.Runners.{
  Request, get_request, Reply, Step, ◌>>=◌, ◌>>◌, return, lift, must_get, set_variable, send,
}

-- `params["type"]`, which is empty where there is none.
abbrev text_or_empty : Option String → String
text_or_empty none = ""
text_or_empty (some s) = s

abbrev pub url : String → Map String → String → String
url api fields action =
    concat (api ∷ "/api/" ∷ text_or_empty (lookup "type" fields) ∷ "/" ∷ action ∷ [])

unfoldable pub add_request : String → Map String → Request
unfolding only lookup
add_request api fields = get_request (url api fields "add") (
    only
      ("id" ∷ "cpu" ∷ "mem" ∷ "flags" ∷ "env" ∷ "port" ∷ "adminPort" ∷ "configFile" ∷ "constraints"
        ∷ [])
      fields)

unfoldable pub start_request : String → Map String → Request
unfolding only lookup
start_request api fields =
    get_request (url api fields "start") (only ("id" ∷ "timeout" ∷ []) fields)

-- The endpoint of each server in the value.
unfoldable pub set_endpoints : String → Values → Step (Unit {0})
unfolding text_field object_field
set_endpoints id no_values = return tt
set_endpoints id (value j values) = do
  server ← lift (or_error (wrong_field "value interface") (as_object (some j)))
  server_id ← lift (text_field "id" server)
  config ← lift (object_field "config" server)
  hostname ← lift (text_field "hostname" config)
  env ← lift (object_field "env" config)
  port ← lift (text_field "QUERY_PORT" env)
  set_variable (concat (id ∷ ".query-" ∷ server_id ∷ ".endpoint" ∷ []))
      (concat (hostname ∷ ":" ∷ port ∷ []))
  set_endpoints id values

unfoldable pub fill_task_context : String → Entries → Step (Unit {0})
unfolding array_field set_endpoints
fill_task_context id response = do
  servers ← lift (array_field "value" response)
  set_endpoints id servers

module _ (web : List Request → Reply) (parse : String → Option Entries) where
  unfoldable pub run_task : String → Map String → Step (Unit {0})
  unfolding must_get lookup add_request start_request check_success fill_task_context
  run_task id fields = do
    api ← must_get (concat (id ∷ ".api" ∷ []))
    task_id ← lift (or_error missing_id (lookup "id" fields))
    type ← lift (or_error (missing_type task_id) (lookup "type" fields))
    added ← send web (add_request api fields)
    lift (check_success parse added)
    started ← send web (start_request api fields)
    response ← lift (check_success parse started)
    if type == "query" then fill_task_context id response else return tt

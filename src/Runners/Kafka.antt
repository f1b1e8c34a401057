-- ===== src/Runners/Kafka.antt =====
-- runners/kafka_task_runner.go
use stack_deploy.Prelude.{String, List, [], ◌∷◌, ◌==◌, if◌then◌else◌, Option}
use stack_deploy.Prelude.Text.{concat}
use stack_deploy.Map.{Map, insert}
use stack_deploy.Runners.Results.{Entries}
use stack_deploy.Runners.Responses.{check_kafka}
use stack_deploy.Runners.{Request, get_request, Reply, Step, ◌>>=◌, ◌>>◌, lift, must_get, send}

-- The range over the fields that Add makes. The field `id` is called `broker` in the request, where
-- a field `broker` and it write the same value.
unfoldable pub add_values : Map String → Map String → Map String
unfolding insert
add_values [] values = values
add_values ((k, v) ∷ fields) values = add_values fields (
    if k == "timeout"
    then values
    else if k == "id"
    then insert "broker" v values
    else insert k v values)

-- And the one that Start makes.
unfoldable pub start_values : Map String → Map String → Map String
unfolding insert
start_values [] values = values
start_values ((k, v) ∷ fields) values = start_values fields (
    if k == "id"
    then insert "broker" v values
    else if k == "timeout"
    then insert "timeout" v values
    else values)

unfoldable pub add_request : String → Map String → Request
unfolding add_values
add_request api fields = get_request (concat (api ∷ "/api/broker/add" ∷ [])) (add_values fields [])

unfoldable pub start_request : String → Map String → Request
unfolding start_values
start_request api fields =
    get_request (concat (api ∷ "/api/broker/start" ∷ [])) (start_values fields [])

module _ (web : List Request → Reply) (parse : String → Option Entries) where
  unfoldable pub run_task : String → Map String → Step (Unit {0})
  unfolding must_get add_request start_request check_kafka
  run_task id fields = do
    api ← must_get (concat (id ∷ ".api" ∷ []))
    added ← send web (add_request api fields)
    lift (check_kafka parse added)
    started ← send web (start_request api fields)
    lift (check_kafka parse started)

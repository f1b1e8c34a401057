-- ===== src/Runners/GoKafkaClient.antt =====
-- runners/go_kafka_client_task_runner.go
use stack_deploy.Prelude.{String, List, [], ◌∷◌, Option}
use stack_deploy.Prelude.Text.{concat}
use stack_deploy.Map.{Map}
use stack_deploy.Runners.Results.{Entries}
use stack_deploy.Runners.Responses.{check_go_kafka_client}
use stack_deploy.Runners.Parameters.{only, all_but}
use stack_deploy.Runners.{Request, get_request, Reply, Step, ◌>>=◌, ◌>>◌, lift, must_get, send}

unfoldable pub add_request : String → Map String → Request
unfolding only
add_request api fields =
    get_request (concat (api ∷ "/api/add" ∷ []))
      (only ("id" ∷ "type" ∷ "cpu" ∷ "mem" ∷ "executor" ∷ []) fields)

unfoldable pub update_request : String → Map String → Request
unfolding all_but
update_request api fields =
    get_request (concat (api ∷ "/api/update" ∷ []))
      (all_but ("type" ∷ "cpu" ∷ "mem" ∷ "executor" ∷ "timeout" ∷ []) fields)

unfoldable pub start_request : String → Map String → Request
unfolding only
start_request api fields =
    get_request (concat (api ∷ "/api/start" ∷ [])) (only ("id" ∷ "timeout" ∷ []) fields)

module _ (web : List Request → Reply) (parse : String → Option Entries) where
  unfoldable pub run_task : String → Map String → Step (Unit {0})
  unfolding must_get add_request update_request start_request check_go_kafka_client
  run_task id fields = do
    api ← must_get (concat (id ∷ ".api" ∷ []))
    added ← send web (add_request api fields)
    lift (check_go_kafka_client parse added)
    updated ← send web (update_request api fields)
    lift (check_go_kafka_client parse updated)
    started ← send web (start_request api fields)
    lift (check_go_kafka_client parse started)

-- ===== src/Runners/Statsd.antt =====
-- runners/statsd_task_runner.go and runners/syslog_task_runner.go, which are the same but for names.
use stack_deploy.Prelude.{String, true, List, [], ◌∷◌, Option}
use stack_deploy.Prelude.Text.{concat}
use stack_deploy.Map.{Map}
use stack_deploy.Runners.Results.{Entries}
use stack_deploy.Runners.Responses.{check_statsd}
use stack_deploy.Runners.Parameters.{set_values}
use stack_deploy.Runners.{Request, get_request, Reply, Step, ◌>>=◌, ◌>>◌, lift, must_get, send}

unfoldable pub update_request : String → Map String → Request
unfolding set_values
update_request api fields =
    get_request (concat (api ∷ "/api/update" ∷ [])) (set_values (λ k. true) fields [])

unfoldable pub start_request : String → Request
start_request api = get_request (concat (api ∷ "/api/start" ∷ [])) []

module _ (web : List Request → Reply) (parse : String → Option Entries) where
  unfoldable pub run_task : String → Map String → Step (Unit {0})
  unfolding must_get update_request start_request check_statsd
  run_task id fields = do
    api ← must_get (concat (id ∷ ".api" ∷ []))
    updated ← send web (update_request api fields)
    lift (check_statsd parse updated)
    started ← send web (start_request api)
    lift (check_statsd parse started)

-- ===== src/Runners/Elasticsearch.antt =====
-- runners/elasticsearch_task_runner.go
use stack_deploy.Prelude.{
  ℕ, zero, suc, ◌+◌, Bool, true, false, String, List, [], ◌∷◌, Option, none, some, ◌==◌,
  if◌then◌else◌,
}
use stack_deploy.Prelude.Text.{concat}
use stack_deploy.Prelude.Decimal.{print_nat}
use stack_deploy.Map.{Map}
use stack_deploy.Runners.Results.{
  malformed, not_supported, not_running, Result, ok, err, panic, or_error, or_panic,
}
use stack_deploy.Runners.Responses.{body_of}
use stack_deploy.Runners.{
  Request, get_request, Reply, Step, Outcome, done, failed, panicked, waiting, ◌>>=◌, ◌>>◌, return,
  lift, set_variable, send, MarathonTask, fill_context,
}

pub record ElasticsearchTask : Type 0 where
  pub state : String
  pub http_address : String
  pub transport_address : String

-- `true` where no task of a list is in another state than running; a nil pointer panics.
unfoldable pub all_running : List (Option ElasticsearchTask) → Result Bool
all_running [] = ok true
all_running (none ∷ tasks) = panic
all_running (some task ∷ tasks) =
    let rest = all_running tasks in if task.state == "TASK_RUNNING" then rest else ok false

-- What a round of AwaitRunning finds: there must be tasks.
abbrev round_result : List (Option ElasticsearchTask) → Result Bool
round_result [] = ok false
round_result (task ∷ tasks) = all_running (task ∷ tasks)

unfoldable pub set_addresses : String → ℕ → List (Option ElasticsearchTask) → Step (Unit {0})
set_addresses id n [] = return tt
set_addresses id n (pointer ∷ tasks) = do
  task ← lift (or_panic pointer)
  set_variable (concat (id ∷ "." ∷ print_nat n ∷ ".httpAddress" ∷ [])) task.http_address
  set_variable (concat (id ∷ "." ∷ print_nat n ∷ ".transportAddress" ∷ [])) task.transport_address
  set_addresses id (n + 1) tasks

module _ (web : List Request → Reply)
    (parse_tasks : String → Option (List (Option ElasticsearchTask))) where
  abbrev tasks_of : Reply → Result (List (Option ElasticsearchTask))
  tasks_of answer = elim (body_of answer) [
    | ok body ↦ or_error malformed (parse_tasks body)
    | err e ↦ err e
    | panic ↦ panic
  ]

  unfoldable pub tasks_request : String → Request
  tasks_request api = get_request (concat (api ∷ "/v1/tasks" ∷ [])) []

  unfoldable pub get_tasks : String → Step (List (Option ElasticsearchTask))
  unfolding tasks_request
  get_tasks api = do answer ← send web (tasks_request api); lift (tasks_of answer)

  -- An error of a poll is logged, and the wait goes on.
  abbrev or_later :
      {A : Type 0} → Outcome A → (A → Step (Unit {0})) → Step (Unit {0}) → Outcome (Unit {0})
  or_later (done a s) next later = next a s
  or_later (failed e s) next later = later s
  or_later (panicked s) next later = panicked s
  or_later (waiting s) next later = waiting s

  -- The rounds that there is time for before the ticker of awaitTimeout.
  unfoldable pub await_running : String → ℕ → Step (Unit {0})
  unfolding get_tasks all_running
  await_running api zero s = failed not_running s
  await_running api (suc rounds) s =
      or_later (get_tasks api s)
        (λ tasks. lift (round_result tasks) >>= λ running.
          if running then return tt else await_running api rounds)
        (await_running api rounds)

  unfoldable pub fill_elasticsearch_context : ℕ → String → MarathonTask → Step (Unit {0})
  unfolding fill_context await_running get_tasks set_addresses
  fill_elasticsearch_context rounds id task = do
    api ← fill_context id task
    await_running api rounds
    tasks ← get_tasks api
    set_addresses id 0 tasks

unfoldable pub run_task : String → Map String → Step (Unit {0})
run_task id fields s = failed not_supported s

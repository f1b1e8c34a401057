-- ===== src/Runners/Plans.antt =====
-- What RunTask of each runner asks of the scheduler of its product, and the answers it accepts.
pub mod Asking
pub mod Polling
pub mod Waiting
pub mod Requests
use stack_deploy.Prelude.{ℕ, zero, suc, String, ◌≡◌, ◌⊎◌, Option, none, some, List, [], ◌∷◌, ◌++◌}
use stack_deploy.Prelude.Text.{concat}
use stack_deploy.Map.{Map}
use stack_deploy.Runners.Kafka
use stack_deploy.Runners.Statsd
use stack_deploy.Runners.GoKafkaClient
use stack_deploy.Runners.Zipkin
use stack_deploy.Runners.Dse
use stack_deploy.Runners.Dse02x
use stack_deploy.Runners.Exhibitor
use stack_deploy.Runners.Registry.{
  TaskRunner, kafka, exhibitor, dse, dse_02x, statsd, syslog, zipkin, go_kafka_client,
  elasticsearch, Web,
}
use stack_deploy.Runners.Results.{Result, ok, Json}
use stack_deploy.Runners.Responses.{
  check_kafka, check_statsd, check_go_kafka_client, check_success, check_dse_02x, check_exhibitor,
}
use stack_deploy.Runners.{Request, post_request, Reply}

abbrev pub Passes : {A : Type 0} → (Reply → Result A) → Reply → Type 0
Passes {A = A} check answer = (a : A) × (check answer ≡ ok a)

-- What a runner wants of an answer.
abbrev pub Accepts : Web → TaskRunner → Reply → Type 0
Accepts w kafka answer = Passes (check_kafka w.parse) answer
Accepts w exhibitor answer =
    Passes (check_exhibitor w.parse_cluster) answer ⊎ Passes (check_exhibitor w.parse_status) answer
Accepts w dse answer = Passes (check_success w.parse) answer
Accepts w dse_02x answer = Passes (check_dse_02x w.parse) answer
Accepts w statsd answer = Passes (check_statsd w.parse) answer
Accepts w syslog answer = Passes (check_statsd w.parse) answer
Accepts w zipkin answer = Passes (check_success w.parse) answer
Accepts w go_kafka_client answer = Passes (check_go_kafka_client w.parse) answer
Accepts w elasticsearch answer = ⊥

-- The polls of Exhibitor's status.
abbrev pub polls : String → ℕ → List Request
polls api zero = []
polls api (suc n) = polls api n ++ Exhibitor.status_request api ∷ []

abbrev pub posted : Option (Map Json) → String → List Request
posted none api = []
posted (some params) api =
    post_request (concat (api ∷ "/api/start" ∷ [])) params
    ∷ post_request (concat (api ∷ "/api/add" ∷ [])) params
    ∷ []

-- The requests of RunTask, the newest first; Exhibitor's status is asked for `n + 1` times.
abbrev pub plan : Web → TaskRunner → String → Map String → ℕ → List Request
plan w kafka api fields n = Kafka.start_request api fields ∷ Kafka.add_request api fields ∷ []
plan w exhibitor api fields n =
    polls api (suc n)
    ++ Exhibitor.start_request api fields
      ∷ Exhibitor.update_request api fields
      ∷ Exhibitor.add_request api fields
      ∷ []
plan w dse api fields n = posted (Dse.post_params w.answer w.parse w.parse_float fields []) api
plan w dse_02x api fields n =
    Dse02x.request_of (concat (api ∷ "/api/node/start" ∷ [])) fields
    ∷ Dse02x.request_of (concat (api ∷ "/api/node/add" ∷ [])) fields
    ∷ Dse02x.request_of (concat (api ∷ "/api/cluster/add" ∷ [])) fields
    ∷ []
plan w statsd api fields n = Statsd.start_request api ∷ Statsd.update_request api fields ∷ []
plan w syslog api fields n = Statsd.start_request api ∷ Statsd.update_request api fields ∷ []
plan w zipkin api fields n = Zipkin.start_request api fields ∷ Zipkin.add_request api fields ∷ []
plan w go_kafka_client api fields n =
    GoKafkaClient.start_request api fields
    ∷ GoKafkaClient.update_request api fields
    ∷ GoKafkaClient.add_request api fields
    ∷ []
plan w elasticsearch api fields n = []

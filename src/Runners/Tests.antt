-- ===== src/Runners/Tests.antt =====
-- Runners at concrete values.
use stack_deploy.Prelude.{none, some, [], ◌∷◌, String}
use stack_deploy.Prelude.Int.{pos}
use stack_deploy.Map.{Map}
use stack_deploy.Variables.{new_variables, set_stack_variable}
use stack_deploy.Runners.Results.{no_entries}
use stack_deploy.Runners.{Session, reply, MarathonTask}
use stack_deploy.Runners.Registry.{Web}

abbrev fresh : Session
fresh = record { context = new_variables; sent = [] }

abbrev two_ports : MarathonTask
two_ports = record { host = "a"; ports = pos 80 ∷ pos 443 ∷ [] }

-- Every request is answered with an empty JSON object, which Kafka's runner takes for a success.
abbrev empty_answers : Web
empty_answers = record {
  answer = λ sent. reply 200 (some "{}");
  parse = λ body. some no_entries;
  parse_float = λ s. none;
  parse_start = λ body. none;
  parse_cluster = λ body. none;
  parse_status = λ body. none;
  parse_tasks = λ body. none;
}

abbrev with_api : Session
with_api = record {
  context = set_stack_variable "broker.api" "http://a:80" new_variables;
  sent = [];
}

abbrev broker : Map String
broker = ("id", "0") ∷ ("cpu", "1") ∷ []

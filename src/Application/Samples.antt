-- ===== src/Application/Samples.antt =====
-- Test data: applications, stacks and regular expressions that the tests of other modules use.
use stack_deploy.Prelude.{String, true, none, List, [], ◌∷◌, ◌==◌}
use stack_deploy.Prelude.Float.{num}
use stack_deploy.Prelude.Int.{pos}
use stack_deploy.Constraints.{Regexps}
use stack_deploy.Application.{Application}

-- A regular expression here matches its own text only.
abbrev pub literal_regexps : Regexps
literal_regexps = record {
  compiles = λ pattern. true;
  match_string = λ pattern text. pattern == text;
}

-- An application without tasks, with its id, instances, constraints and dependencies.
abbrev pub sample : String → String → List (List String) → List String → Application
sample id instances constraints dependencies = record {
  type = "marathon";
  id = id;
  version = "1";
  cpu = num (pos 5);
  mem = num (pos 7);
  ports = [];
  instances = instances;
  constraints = constraints;
  user = "";
  healthcheck = "";
  launch_command = "run";
  args = [];
  env = [];
  artifact_urls = [];
  additional_artifacts = [];
  scheduler = ("memory", "1") ∷ ("zk", "host") ∷ [];
  tasks = [];
  dependencies = dependencies;
  docker = none;
  start_time = "";
  time_schedule = "";
  before_scheduler = [];
  after_scheduler = [];
  before_task = [];
  after_task = [];
  after_tasks = [];
}

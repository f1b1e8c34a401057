-- ===== src/Application/Run/Tests.antt =====
-- A run of an application at concrete values.
use stack_deploy.Prelude.{false, ◌≡◌, refl, none, some, [], ◌∷◌, All}
use stack_deploy.Prelude.Int.{pos}
use stack_deploy.Variables.{Variables, new_variables, set_stack_variable}
use stack_deploy.Application.{Application}
use stack_deploy.Application.Samples.{literal_regexps, sample}
use stack_deploy.Application.Slaves.{MesosState}
use stack_deploy.Application.Health.{report, await_running_and_healthy}
use stack_deploy.Application.Marathon.{create_application}
use stack_deploy.Application.Resolve.{resolve_variables}
use stack_deploy.Application.Run.{
  Outside, some_task, run, Running, Outcome, goes, fails, panics, before_launch, start, run_hook,
  run_runner, run_marathon, await, fill_context, run_tasks, ensure_launch, execute_commands,
}
use stack_deploy.Application.Run.Clear.{run-IsClear}
use stack_deploy.Application.Run.Clear.Steps.{IsClear, journal_of}
use stack_deploy.Application.Run.Order.{run_order}
use stack_deploy.Application.Run.Order.Kinds.{kinds, done, shape}

abbrev no_slaves : MesosState
no_slaves = record { activated_slaves = pos 0; slaves = [] }

abbrev in_zone : Variables
in_zone = set_stack_variable "zone" "z1" new_variables

-- Everything succeeds, and the application runs at the first poll. Tasks of type `runner` have a
-- task runner, which sets a variable.
abbrev all_well : Outside
all_well = record {
  answer = λ journal. none;
  polls = λ journal n. report (record { tasks_running = 1; tasks_healthy = 1 });
  tasks = λ journal. some_task;
  set_variables = λ journal. set_stack_variable "port" "80";
  mesos = λ journal. no_slaves;
  turned = λ journal. false;
  regexps = literal_regexps;
  mesos_task_runners = [];
  task_runners = "runner" ∷ [];
}

-- One hook and one task, with a variable in each.
abbrev with_task : Application
with_task = record (sample "web" "1" [] []) {
  type = "runner";
  launch_command = "run ${zone}";
  after_task = ("echo ${port}" ∷ []);
  tasks = ("topic", some (("name", "x${zone}") ∷ [])) ∷ [];
}

run-IsClear_example : All IsClear (
    journal_of (
      run all_well (pos 3) (record { application = with_task; variables = in_zone; journal = [] })))
run-IsClear_example = run-IsClear all_well (pos 3) with_task in_zone

abbrev last : Outcome → Running
last (goes st) = st
last (fails e st) = st
last (panics st) = st

abbrev first_run : Outcome
first_run =
    run all_well (pos 3) (record { application = with_task; variables = in_zone; journal = [] })

first_run_succeeds : first_run ≡ goes (last first_run)
unfolding run before_launch start run_hook run_runner run_marathon await fill_context run_tasks
    ensure_launch execute_commands create_application await_running_and_healthy resolve_variables
first_run_succeeds = refl

run_order_example : kinds (last first_run).journal ≡ done all_well (shape with_task) []
run_order_example = run_order all_well (pos 3) with_task in_zone (last first_run) first_run_succeeds

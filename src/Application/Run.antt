-- ===== src/Application/Run.antt =====
-- Application.Run: an application is started, in Marathon or as a Mesos task, with shell commands and
-- the tasks of its runner before and after. What the run does to the outside is its journal, and
-- what the outside answers may depend on the whole journal.
pub mod Clear
pub mod Order
mod Tests
use stack_deploy.Prelude.{
  Bool, ℕ, zero, suc, String, Bool, Option, none, some, List, [], ◌∷◌, elem, if◌then◌else◌,
}
use stack_deploy.Prelude.Int.{ℤ}
use stack_deploy.Prelude.Text.{concat}
use stack_deploy.Map.{Map, insert}
use stack_deploy.Variables.{Variables}
use stack_deploy.Constraints.{Regexps}
use stack_deploy.Application.{Application, Fields, Error, Failure, task_not_running}
use stack_deploy.Application.Slaves.{MesosState}
use stack_deploy.Application.Marathon.{MarathonApplication, create_application}
use stack_deploy.Application.Health.{Poll, await_running_and_healthy}
use stack_deploy.Application.Resolve.{
  resolve_variables, ensure_string, ensure_strings, ensure_map, first_failure,
}

-- A script that is written and run, a call of Marathon's CreateApplication, the polls of the wait for
-- the application, a call of the scheduler's RunApplication with the status that it sends, a call of
-- Marathon's Tasks, and the two calls of a TaskRunner.
pub data Effect : Type 0 where
  executed : (file : String) → List String → Effect
  created : MarathonApplication → Effect
  awaited : ℤ → Effect
  staged : Application → Effect
  listed_tasks filled : Effect
  ran_task : (key : String) → Map String → Effect

-- What Marathon's Tasks gives: an error, no task, or a first task.
pub data TaskList : Type 0 where
  tasks_error : Error → TaskList
  no_task some_task : TaskList

-- The outside. Each answer is to the newest effect of the journal, which has the newest first;
-- `turned` is the order in which Go visits the labels.
pub record Outside : Type 0 where
  pub answer : List Effect → Failure
  pub polls : List Effect → ℕ → Poll
  pub tasks : List Effect → TaskList
  pub set_variables : List Effect → Variables → Variables
  pub mesos : List Effect → MesosState
  pub turned : List Effect → Bool
  pub regexps : Regexps
  pub mesos_task_runners : List String
  pub task_runners : List String

pub record Running : Type 0 where
  pub application : Application
  pub variables : Variables
  pub journal : List Effect

pub data Outcome : Type 0 where
  goes : Running → Outcome
  fails : Error → Running → Outcome
  panics : Running → Outcome

infixl 5 ◌>>=◌
abbrev pub ◌>>=◌ : Outcome → (Running → Outcome) → Outcome
goes st >>= next = next st
fails e st >>= next = fails e st
panics st >>= next = panics st

-- `if err != nil { return err }`
abbrev pub unless_failed : Failure → Running → Outcome
unless_failed none st = goes st
unless_failed (some e) st = fails e st

abbrev pub note : Effect → Running → Running
note e st = record st { journal = e ∷ st.journal }

abbrev pub resolved : Running → Running
resolved st = record st { application = resolve_variables st.variables st.application }

module _ (o : Outside) where
  -- An effect whose answer is an error or nil.
  abbrev pub perform : Effect → Running → Outcome
  perform e st = unless_failed (o.answer (e ∷ st.journal)) (note e st)

  pub execute_commands : List String → String → Running → Outcome
  execute_commands [] file st = goes st
  execute_commands (command ∷ commands) file st = perform (executed file (command ∷ commands)) st

  -- The four lines around each hook: resolve, ensure, execute.
  pub run_hook : (Application → List String) → String → Running → Outcome
  unfolding execute_commands ensure_strings
  run_hook hook suffix st =
      let next = resolved st in
      let commands = hook next.application in
      unless_failed (ensure_strings commands) next
      >>= execute_commands commands (concat (next.application.id ∷ suffix ∷ []))

  -- What Run looks at before it starts anything.
  pub ensure_launch : Application → Failure
  unfolding ensure_string ensure_strings ensure_map
  ensure_launch a = first_failure (ensure_strings a.before_scheduler) (
      first_failure (ensure_string a.launch_command) (
        first_failure (ensure_map a.scheduler)
          (first_failure (ensure_strings a.args) (ensure_map a.env))))

  pub before_launch : Running → Outcome
  unfolding ensure_launch execute_commands
  before_launch st =
      let next = resolved st in
      let a = next.application in
      unless_failed (ensure_launch a) next
      >>= execute_commands a.before_scheduler (concat (a.id ∷ "_before_scheduler.sh" ∷ []))

  pub await : ℤ → Running → Outcome
  await max_wait st =
      let next = note (awaited max_wait) st in
      unless_failed (await_running_and_healthy next.application (o.polls next.journal) max_wait).1
        next

  pub run_marathon : ℤ → Running → Outcome
  unfolding await create_application
  run_marathon max_wait st =
      elim (create_application (o.turned st.journal) o.regexps st.application st.variables
        (o.mesos st.journal)) [
          | none ↦ panics st
          | some m ↦ perform (created m) st >>= await max_wait
        ]

  abbrev pub run_mesos : Running → Outcome
  run_mesos st = perform (staged st.application) st

  pub start : ℤ → Running → Outcome
  unfolding run_marathon
  start max_wait st =
      if elem st.application.type o.mesos_task_runners
      then run_mesos st
      else run_marathon max_wait st

  -- A call of the task runner, which may set variables.
  abbrev pub call_runner : Effect → Running → Outcome
  call_runner e st = unless_failed (o.answer (e ∷ st.journal)) (record st {
    variables = o.set_variables (e ∷ st.journal) st.variables;
    journal = e ∷ st.journal;
  })

  abbrev pub first_task_or_error : TaskList → Running → Outcome
  first_task_or_error (tasks_error e) st = fails e st
  first_task_or_error no_task st = fails task_not_running st
  first_task_or_error some_task st = call_runner filled st

  pub fill_context : Running → Outcome
  fill_context st =
      let next = note listed_tasks st in first_task_or_error (o.tasks next.journal) next

-- MapSliceToMap
pub map_of_fields : Fields → Map String → Map String
unfolding insert
map_of_fields [] m = m
map_of_fields ((k, v) ∷ fields) m = map_of_fields fields (insert k v m)

-- The task at a place of the application's list, as the resolutions have left it.
abbrev pub task_at : ℕ → List (String × Option Fields) → Option (String × Option Fields)
task_at n [] = none
task_at zero (t ∷ ts) = some t
task_at (suc n) (t ∷ ts) = task_at n ts

module _ (o : Outside) where
  -- `task.Value.(yaml.MapSlice)` panics on a task without a value.
  abbrev pub run_task : Option (String × Option Fields) → Running → Outcome
  run_task none st = panics st
  run_task (some (key, none)) st = panics st
  run_task (some (key, some fields)) st = call_runner o (ran_task key (map_of_fields fields [])) st

  -- The loop over the tasks, of which `left` are to come, from the `n`-th on.
  pub run_tasks : List (String × Option Fields) → ℕ → Running → Outcome
  unfolding run_hook
  run_tasks [] n st = goes st
  run_tasks (t ∷ left) n st =
      run_hook o (λ a. a.before_task) "_before_task.sh" st
      >>= (λ next. run_task (task_at n next.application.tasks) next)
      >>= run_hook o (λ a. a.after_task) "_after_task.sh"
      >>= run_tasks left (suc n)

  pub run_runner : Running → Outcome
  unfolding fill_context run_tasks
  run_runner st =
      if elem st.application.type o.task_runners
      then (fill_context o st >>= λ next. run_tasks next.application.tasks 0 next)
      else goes st

  unfoldable pub run : ℤ → Running → Outcome
  unfolding before_launch start run_hook run_runner
  run max_wait st =
      before_launch o st
      >>= start o max_wait
      >>= run_hook o (λ a. a.after_scheduler) "_after_scheduler.sh"
      >>= run_runner
      >>= run_hook o (λ a. a.after_tasks) "_after_tasks.sh"

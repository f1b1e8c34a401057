-- ===== src/RunOnce.antt =====
-- mesosrunners/run_once_application_context.go: applications of
-- type run-once. Mesos tasks are launched on offers that match, until all instances are, and the
-- application is done when every task is. A send on the status channel is a value that the step
-- returns. Locks are not modelled: each method is one step.
pub mod Counted
pub mod Runner
mod Tests
use stack_deploy.Prelude.{
  ℕ, zero, suc, String, Bool, true, false, not, ◌||◌, Option, none, some, List, [], ◌∷◌, ◌++◌, ◌==◌,
  if◌then◌else◌,
}
use stack_deploy.Prelude.Int.{ℤ, pos, negsuc}
use stack_deploy.Prelude.Float.{lt_float, Float64}
use stack_deploy.Prelude.Text.{split_at_char, concat}
use stack_deploy.Map.{Map, lookup, insert, remove}
use stack_deploy.Constraints.{Regexps, Constraint, matches}
use stack_deploy.Constraints.Offers.{Attribute, offer_attributes}
use stack_deploy.Application.{Application}
use stack_deploy.Application.Slaves.{MesosState}
use stack_deploy.Application.Instances.{get_constraints, get_instances}

-- mesos.TaskState
pub data TaskState : Type 0 where
  task_staging task_starting task_running task_finished task_failed task_killed task_lost
        task_error :
      TaskState

-- runOnceTask
pub record Task : Type 0 where
  pub state : TaskState
  pub attributes : Map String
  pub task_id : String

-- What the program reads of an offer. `cpus` and `mem` are what the go-mesos-utils library's
-- GetScalarResources gives.
pub record Offer : Type 0 where
  pub hostname : String
  pub attributes : List Attribute
  pub cpus : Float64
  pub mem : Float64

-- RunOnceApplicationContext
pub record Context : Type 0 where
  pub application : Application
  pub instances_left : ℤ
  pub tasks : List Task

-- Why an offer is declined: the texts of Matches and CheckConstraints.
pub data Reason : Type 0 where
  all_staged no_cpus no_mem : Reason
  no_attribute : String → Reason
  mismatch : String → Constraint → Reason

abbrev pub is_starting : TaskState → Bool
is_starting task_starting = true
is_starting _ = false

-- Finished or killed.
abbrev pub is_done : TaskState → Bool
is_done task_finished = true
is_done task_killed = true
is_done _ = false

abbrev pub text_or_empty : Option String → String
text_or_empty none = ""
text_or_empty (some s) = s

unfoldable pub other_tasks_attributes : String → List Task → List String
unfolding lookup
other_tasks_attributes name [] = []
other_tasks_attributes name (t ∷ ts) =
    let value = text_or_empty (lookup name t.attributes) in
    let rest = other_tasks_attributes name ts in
    if is_starting t.state || value == "" then rest else value ∷ rest

-- The inner loop of CheckConstraints; `none` is the empty text.
unfoldable pub check_each :
    Regexps → String → List Constraint → Option String → List String → Option Reason
unfolding matches
check_each re name [] attribute values = none
check_each re name (c ∷ cs) none values = some (no_attribute name)
check_each re name (c ∷ cs) (some attribute) values =
    if matches re c attribute values
    then check_each re name cs (some attribute) values
    else some (mismatch name c)

abbrev pub first_reason : Option Reason → Option Reason → Option Reason
first_reason none o = o
first_reason (some r) o = some r

unfoldable pub check_constraints :
    Regexps → Map (List Constraint) → Map String → List Task → Option Reason
unfolding check_each other_tasks_attributes lookup
check_constraints re [] attributes tasks = none
check_constraints re ((name, cs) ∷ rest) attributes tasks =
    first_reason
      (check_each re name cs (lookup name attributes) (other_tasks_attributes name tasks))
      (check_constraints re rest attributes tasks)

-- What Matches answers; `panics` is GetConstraints' panic.
pub data Answer : Type 0 where
  accepts panics : Answer
  declines : Reason → Answer

abbrev check_resources : Context → Offer → Answer
check_resources ctx offer =
    if lt_float offer.cpus ctx.application.cpu
    then declines no_cpus
    else if lt_float offer.mem ctx.application.mem
    then declines no_mem
    else accepts

unfoldable pub matches_offer : Regexps → Context → Offer → Answer
unfolding get_constraints check_constraints offer_attributes
matches_offer re ctx offer = elim ctx.instances_left [
  | pos zero ↦ declines all_staged
  | pos (suc n) ↦ elim (get_constraints re ctx.application) [
    | none ↦ panics
    | some m ↦
        elim (check_constraints re m (offer_attributes offer.hostname offer.attributes) ctx.tasks) [
          | some r ↦ declines r
          | none ↦ check_resources ctx offer
        ]
  ]
  | negsuc n ↦ elim (get_constraints re ctx.application) [
    | none ↦ panics
    | some m ↦
        elim (check_constraints re m (offer_attributes offer.hostname offer.attributes) ctx.tasks) [
          | some r ↦ declines r
          | none ↦ check_resources ctx offer
        ]
  ]
]

-- `i--`
abbrev pub decrement : ℤ → ℤ
decrement (pos zero) = negsuc 0
decrement (pos (suc n)) = pos n
decrement (negsuc n) = negsuc (suc n)

-- newRunOnceTask
unfoldable pub new_run_once_task : Offer → String → Task
unfolding offer_attributes
new_run_once_task offer task_id = record {
  state = task_staging;
  attributes = offer_attributes offer.hostname offer.attributes;
  task_id = task_id;
}

-- mesos.TaskInfo, without the URIs' flags, which are all the same.
pub record TaskInfo : Type 0 where
  pub name : String
  pub task_id : String
  pub cpus : Float64
  pub mem : Float64
  pub command : String
  pub uris : List String

unfoldable pub new_task_info : Context → Offer → (uuid : String) → TaskInfo
new_task_info ctx offer uuid = record {
  name = concat (ctx.application.id ∷ "." ∷ offer.hostname ∷ []);
  task_id = concat (ctx.application.id ∷ "|" ∷ offer.hostname ∷ "|" ∷ uuid ∷ []);
  cpus = ctx.application.cpu;
  mem = ctx.application.mem;
  command = ctx.application.launch_command;
  uris = ctx.application.artifact_urls ++ ctx.application.additional_artifacts;
}

-- LaunchTask: the task is counted as launched before the driver is called, whatever that returns.
unfoldable pub launch_task : Context → Offer → String → Context × TaskInfo
unfolding new_run_once_task new_task_info
launch_task ctx offer uuid =
    let info = new_task_info ctx offer uuid in
    (
      record ctx {
        instances_left = decrement ctx.instances_left;
        tasks = ctx.tasks ++ new_run_once_task offer info.task_id ∷ [];
      },
      info,
    )

unfoldable pub update_task_state : String → TaskState → List Task → List Task
update_task_state task_id state [] = []
update_task_state task_id state (t ∷ ts) =
    if t.task_id == task_id
    then record t { state = state } ∷ ts
    else t ∷ update_task_state task_id state ts

unfoldable pub all_done : List Task → Bool
all_done [] = true
all_done (t ∷ ts) = if is_done t.state then all_done ts else false

abbrev pub is_zero : ℤ → Bool
is_zero (pos zero) = true
is_zero _ = false

unfoldable pub all_tasks_finished : Context → Bool
unfolding all_done
all_tasks_finished ctx = if is_zero ctx.instances_left then all_done ctx.tasks else false

-- What a status update reports on the status channel: nothing, success, or the failure of a task on
-- a host.
pub data Report : Type 0 where
  silent succeeded : Report
  task_failure : (host : String) → TaskState → Report

-- StatusUpdate of a context, the host name taken from the task's id.
unfoldable pub status_update_of : Context → String → String → TaskState → Context × Report
unfolding update_task_state all_tasks_finished
status_update_of ctx host task_id state =
    let next = record ctx { tasks = update_task_state task_id state ctx.tasks } in
    elim state [
      | task_running ↦ (next, silent)
      | task_lost ↦ (next, task_failure host task_lost)
      | task_failed ↦ (next, task_failure host task_failed)
      | task_error ↦ (next, task_failure host task_error)
      | task_finished ↦ (next, (if all_tasks_finished next then succeeded else silent))
      | task_killed ↦ (next, (if all_tasks_finished next then succeeded else silent))
      | task_staging ↦ (next, silent)
      | task_starting ↦ (next, silent)
    ]

-- ===== src/Application.antt =====
-- framework/application.go and framework/errors.go: an application of a stack. The children model
-- its methods. A yaml scalar is kept as the text that `fmt.Sprint` makes of it, and a task whose
-- value is null has `none`.
pub mod Samples
mod Tests
pub mod Slaves
pub mod Validate
pub mod Instances
pub mod Resolve
pub mod Marathon
pub mod Health
pub mod Run
use stack_deploy.Prelude.{
  String, Bool, true, false, Option, none, some, List, [], ◌∷◌, ◌==◌, if◌then◌else◌,
}
use stack_deploy.Prelude.Float.{Float64}
use stack_deploy.Prelude.Int.{ℤ}
use stack_deploy.Map.{Map, lookup}
use stack_deploy.Constraints.Parse
use stack_deploy.Docker.{Docker}

pub data ApplicationStatus : Type 0 where
  staging running failed : ApplicationStatus

-- The texts of ApplicationStatuses.
pub status_name : ApplicationStatus → String
status_name staging = "STAGING"
status_name running = "RUNNING"
status_name failed = "FAILED"

-- A yaml.MapSlice with texts for keys and values.
abbrev pub Fields : Type 0
Fields = List (String × String)

pub record Application : Type 0 where
  pub type : String
  pub id : String
  pub version : String
  pub cpu : Float64
  pub mem : Float64
  pub ports : List ℤ
  pub instances : String
  pub constraints : List (List String)
  pub user : String
  pub healthcheck : String
  pub launch_command : String
  pub args : List String
  pub env : Map String
  pub artifact_urls : List String
  pub additional_artifacts : List String
  pub scheduler : Map String
  pub tasks : List (String × Option Fields)
  pub dependencies : List String
  pub docker : Option Docker
  pub start_time : String
  pub time_schedule : String
  pub before_scheduler : List String
  pub after_scheduler : List String
  pub before_task : List String
  pub after_task : List String
  pub after_tasks : List String

-- The errors of an application, with what their messages print. `external` is an error of a call
-- that the model takes as a parameter.
pub data Error : Type 0 where
  no_type no_task_runner no_id invalid_cpu invalid_mem invalid_instances : Error
  invalid_constraints : Parse.Error → Error
  does_not_exist task_not_running healthcheck_not_passing await_failed : Error
  unresolved_variable : String → Error
  state_exists state_does_not_exist : Error
  external : String → Error

-- What a method that only may fail returns: `none` is Go's nil.
abbrev pub Failure : Type 0
Failure = Option Error

unfoldable pub is_running : ApplicationStatus → Bool
is_running running = true
is_running _ = false

unfoldable pub satisfied : List String → Map ApplicationStatus → Bool
unfolding is_running lookup
satisfied [] running_apps = true
satisfied (dependency ∷ rest) running_apps = elim (lookup dependency running_apps) [
  | none ↦ false
  | some status ↦ if is_running status then satisfied rest running_apps else false
]

-- Every dependency is there and running.
unfoldable pub is_dependency_satisfied : Application → Map ApplicationStatus → Bool
unfolding satisfied is_running lookup
is_dependency_satisfied a running_apps = satisfied a.dependencies running_apps

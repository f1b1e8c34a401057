-- ===== src/Application/Marathon.antt =====
-- createApplication and its parts: the Marathon application that is made of an application. The
-- records of the Marathon client are kept with the fields that the program sets.
pub mod Environment
use stack_deploy.Prelude.{
  ℕ, String, Bool, true, false, Option, none, some, List, [], ◌∷◌, ◌++◌, ◌==◌, if◌then◌else◌,
}
use stack_deploy.Prelude.Float.{Float64}
use stack_deploy.Prelude.Int.{ℤ}
use stack_deploy.Prelude.Text
use stack_deploy.Prelude.Text.{join}
use stack_deploy.Map.{Map, insert, insert_all}
use stack_deploy.Variables.{Variables, get}
use stack_deploy.Docker.{Docker, Container, marathon_container}
use stack_deploy.Constraints.{Regexps}
use stack_deploy.Application.{Application}
use stack_deploy.Application.Slaves.{MesosState}
use stack_deploy.Application.Instances.{get_instances}

pub record HealthCheck : Type 0 where
  pub protocol : String
  pub path : String
  pub grace_period_seconds : ℕ
  pub interval_seconds : ℕ
  pub port_index : ℕ
  pub max_consecutive_failures : ℕ
  pub timeout_seconds : ℕ

-- marathon.Application. The empty lists stand for Go's nil slices too.
pub record MarathonApplication : Type 0 where
  pub id : String
  pub cmd : Option String
  pub args : List String
  pub env : Map String
  pub instances : ℤ
  pub cpus : Float64
  pub mem : Float64
  pub ports : List ℤ
  pub require_ports : Bool
  pub uris : List String
  pub user : String
  pub health_checks : List HealthCheck
  pub constraints : List (List String)
  pub labels : Map String
  pub container : Option Container

-- `val, _ := context.Get(key)`, "" where there is none
abbrev pub value_or_empty : String → Variables → String
value_or_empty key context = elim (get key context) [ none ↦ "" | some value ↦ value ]

pub add_labels : List String → Variables → Map String → Map String
unfolding get insert
add_labels [] context labels = labels
add_labels (key ∷ keys) context labels =
    let value = value_or_empty key context in
    add_labels keys context (if value == "" then labels else insert key value labels)

unfoldable pub get_labels_from_context : Variables → Map String
unfolding add_labels
get_labels_from_context context = add_labels ("zone" ∷ "stack" ∷ []) context []

-- The loop that appends ` --k v` for each scheduler option.
pub add_options : Map String → String → String
add_options [] cmd = cmd
add_options ((k, v) ∷ options) cmd =
    add_options options (Text.concat (cmd ∷ " --" ∷ k ∷ " " ∷ v ∷ []))

unfoldable pub get_launch_command : Application → Option String
unfolding add_options
get_launch_command a =
    let cmd = add_options a.scheduler a.launch_command in if cmd == "" then none else some cmd

pub label_strings : Map String → List String
label_strings [] = []
label_strings ((key, value) ∷ labels) = Text.concat (key ∷ "=" ∷ value ∷ []) ∷ label_strings labels

-- The order in which `range` visits the labels, of which there are two at most: as they are, or the
-- other way round.
abbrev pub ranged : Bool → Map String → Map String
ranged false labels = labels
ranged true [] = []
ranged true (x ∷ []) = x ∷ []
ranged true (x ∷ y ∷ []) = y ∷ x ∷ []
ranged true (x ∷ y ∷ z ∷ rest) = x ∷ y ∷ z ∷ rest

-- `turned` is Go's choice of that order.
unfoldable pub get_env : Bool → Application → Variables → Map String
unfolding label_strings get_labels_from_context insert insert_all join
get_env turned a context =
    let stack_labels = join (label_strings (ranged turned (get_labels_from_context context))) ";" in
    insert_all a.env (if stack_labels == "" then [] else insert "STACK_LABELS" stack_labels [])

pub get_healthchecks : Application → List HealthCheck
get_healthchecks a =
    if a.healthcheck == ""
    then []
    else record {
      protocol = "HTTP";
      path = a.healthcheck;
      grace_period_seconds = 120;
      interval_seconds = 10;
      port_index = 0;
      max_consecutive_failures = 18;
      timeout_seconds = 30;
    }
      ∷ []

pub get_container : Application → Option Container
unfolding marathon_container
get_container a = elim a.docker [ none ↦ none | some d ↦ some (marathon_container d) ]

abbrev is_not_empty : List ℤ → Bool
is_not_empty [] = false
is_not_empty (p ∷ ps) = true

-- `none` is the panic of GetInstances.
unfoldable pub create_application :
    Bool → Regexps → Application → Variables → MesosState → Option MarathonApplication
unfolding get_instances get_launch_command get_env get_healthchecks get_labels_from_context
    get_container
create_application turned re a context mesos = elim (get_instances re a mesos) [
  | none ↦ none
  | some instances ↦ some (record {
    id = a.id;
    cmd = get_launch_command a;
    args = a.args;
    env = get_env turned a context;
    instances = instances;
    cpus = a.cpu;
    mem = a.mem;
    ports = a.ports;
    require_ports = is_not_empty a.ports;
    uris = a.artifact_urls ++ a.additional_artifacts;
    user = a.user;
    health_checks = get_healthchecks a;
    constraints = a.constraints;
    labels = get_labels_from_context context;
    container = get_container a;
  })
]

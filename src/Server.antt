-- ===== src/Server.antt =====
-- framework/server.go and framework/requests.go: the handlers of the HTTP API, over an
-- InMemoryStorage and an InMemoryStateStorage, as main's `dev` mode has them. A request comes with
-- the body that its decoder gives, `none` where that fails; a handler that ignores the decoder's
-- error reads empty fields.
pub mod Handlers
pub mod Guards
pub mod Runs
mod Tests
use stack_deploy.Prelude.{
  ℕ, zero, suc, String, Bool, true, false, Option, none, some, List, [], ◌∷◌, ◌==◌, eqb, map,
  if◌then◌else◌,
}
use stack_deploy.Prelude.Int.{ℤ, pos, negsuc}
use stack_deploy.Map.{Map, lookup, insert, insert_all}
use stack_deploy.Variables.{Variables, new_variables, set_global_variable, set_arbitrary_variable}
use stack_deploy.Stack.{Stack, StackStatus}
use stack_deploy.Stack.Merge.{merge}
use stack_deploy.Stack.Run.{RunError}
use stack_deploy.Layers.{layer_to_int}
use stack_deploy.Storage
use stack_deploy.Storage.{◌>>=◌}
use stack_deploy.Storage.Layering.{get_layers_stack}
use stack_deploy.StateStorage
use stack_deploy.Users

-- The UserStorage interface, as far as the handlers call it.
pub record UserStorage (D : Type 0) : Type 0 where
  pub check_key : String → String → D → Users.Result Bool
  pub is_admin : String → D → Users.Result Bool
  pub create_user : String → Users.UserRole → String → D → Users.Result (String × D)
  pub refresh_token : String → String → D → Users.Result (String × D)

abbrev pub noop_user_storage : {D : Type 0} → UserStorage D
noop_user_storage = record {
  check_key = λ name key db. Users.ok true;
  is_admin = λ name db. Users.ok true;
  create_user = λ name role uuid db. Users.ok ("", db);
  refresh_token = λ name uuid db. Users.ok ("", db);
}

-- ScheduledTask of framework/scheduler.go.
pub record ScheduledTask : Type 0 where
  pub id : ℤ
  pub name : String
  pub start_time : String
  pub time_schedule : String

-- What the server's components keep, and the calls of the cron library's DeleteJob, newest first.
-- A stack of the storage is a value: a pointer to it, which a merge would change in place, is not
-- modelled.
pub record Server (D : Type 0) : Type 0 where
  pub users : D
  pub stacks : Storage.Stacks
  pub states : StateStorage.States
  pub scheduled : List ScheduledTask
  pub deleted_jobs : List ℤ

-- RunRequest; `maxwait` and `skip` are read by the runner only.
pub record RunRequest : Type 0 where
  pub name : String
  pub zone : String
  pub variables : Map String
  pub skip_applications : List String

-- The paths of the API with their decoded bodies.
pub data Command : Type 0 where
  list scheduled health : Command
  get : (name : String) → Command
  run : RunRequest → Command
  create_stack : Option String → Command
  create_layer : Option (String × (String × String)) → Command
  remove_stack : String → Bool → Command
  remove_scheduled : Option ℤ → Command
  create_user : Option (String × String) → Command
  refresh_token : Option String → Command

-- The credentials of a request's header.
pub record Request : Type 0 where
  pub user : String
  pub key : String
  pub command : Command

pub data Code : Type 0 where
  ok_200 created_201 bad_request_400 forbidden_403 not_found_404 internal_error_500 : Code

-- Why runStack fails.
pub data RunFailure : Type 0 where
  storage_failed : Storage.Error → RunFailure
  state_failed : StateStorage.Error → RunFailure
  run_failed : RunError → RunFailure

-- What is written behind the code: nothing, the text of a library's or a storage's error, the error
-- of a run, a text, names, a stack or tasks.
pub data Body : Type 0 where
  empty error_text : Body
  run_error : RunFailure → Body
  text : String → Body
  names : List String → Body
  stack : Stack → Body
  tasks : List ScheduledTask → Body

-- `none` is a crash of the handler.
abbrev pub Handler : Type 0 → Type 0
Handler D = Server D → Option ((Code × Body) × Server D)

abbrev pub answer : {D : Type 0} → Code → Body → Handler D
answer code body server = some ((code, body), server)

-- What the handlers use of the rest of the program and of libraries: yaml and its errors, sorting, a
-- fresh UUID, the refresh of the Mesos state, and a Runner, that is the Run method of a stack.
pub record Services : Type 0 where
  pub unmarshal_stack : String → Option Stack
  pub sort_strings : List String → List String
  pub uuid : String
  pub mesos_updates : Bool
  pub run_stack :
      Stack → RunRequest → Variables → StateStorage.States → Option RunError × StateStorage.States

abbrev pub stack_names : List Stack → List String
stack_names [] = []
stack_names (s ∷ ss) = s.name ∷ stack_names ss

-- The stack that runStack runs: in a zone, the zone's layers with the stack merged onto them.
unfoldable pub stack_to_run : Storage.Stacks → RunRequest → Storage.Result Stack
unfolding Storage.get_stack get_layers_stack
stack_to_run stacks request = Storage.get_stack stacks request.name >>= λ s.
    if request.zone == ""
    then Storage.ok s
    else (get_layers_stack (Storage.get_stack stacks) request.zone >>= λ layers.
        Storage.or_panics (merge layers s))

-- What follows the run: the error of the second SaveStackStatus is dropped after a failure, and is
-- runStack's own after a success.
abbrev pub saved_or :
    StateStorage.States → StateStorage.Result StateStorage.States → StateStorage.States
saved_or states (StateStorage.ok next) = next
saved_or states (StateStorage.err e) = states

abbrev pub save_error : StateStorage.Result StateStorage.States → Option RunFailure
save_error (StateStorage.ok next) = none
save_error (StateStorage.err e) = some (state_failed e)

unfoldable pub after_run :
    RunRequest → Option RunError × StateStorage.States → Option RunFailure × StateStorage.States
unfolding StateStorage.save_stack_status
after_run request (some e, states) = (
  some (run_failed e),
  saved_or states
      (StateStorage.save_stack_status request.name request.zone StackStatus.failed states),
)
after_run request (none, states) =
    let saved =
      StateStorage.save_stack_status request.name request.zone StackStatus.running states in
    (save_error saved, saved_or states saved)

unfoldable pub save_and_run :
    Services
    → Stack
    → RunRequest
    → Variables
    → StateStorage.Result StateStorage.States
    → StateStorage.States
    → Option RunFailure × StateStorage.States
unfolding after_run
save_and_run services s request variables (StateStorage.err e) states =
    (some (state_failed e), states)
save_and_run services s request variables (StateStorage.ok saved) states =
    after_run request (services.run_stack s request variables saved)

unfoldable pub run_stack :
    Services
    → RunRequest
    → Variables
    → Storage.Stacks
    → StateStorage.States
    → Option RunFailure × StateStorage.States
unfolding stack_to_run save_and_run StateStorage.save_stack_status
run_stack services request variables stacks states = elim (stack_to_run stacks request) [
  | Storage.err e ↦ (some (storage_failed e), states)
  | Storage.ok s ↦
      save_and_run services s request variables
        (StateStorage.save_stack_status request.name request.zone StackStatus.staging states) states
]

-- The variables of a run: the server's global ones and the request's.
unfoldable pub set_globals : Map String → Variables → Variables
set_globals [] v = v
set_globals ((key, value) ∷ m) v = set_globals m (set_global_variable key value v)

unfoldable pub set_arbitraries : Map String → Variables → Variables
set_arbitraries [] v = v
set_arbitraries ((key, value) ∷ m) v = set_arbitraries m (set_arbitrary_variable key value v)

unfoldable pub variables_of : Map String → RunRequest → Variables
unfolding set_globals set_arbitraries
variables_of globals request = set_arbitraries request.variables (set_globals globals new_variables)

-- A panic ends the handler without an answer.
abbrev pub crashes : RunFailure → Bool
crashes (storage_failed Storage.merge_panics) = true
crashes e = false

abbrev pub ran :
    {D : Type 0}
    → Server D
    → Option RunFailure × StateStorage.States
    → Option ((Code × Body) × Server D)
ran server (none, states) = some ((ok_200, empty), record server { states = states })
ran server (some e, states) =
    if crashes e
    then none
    else some ((not_found_404, run_error e), record server { states = states })

-- `a == b`
abbrev pub eq_ℤ : ℤ → ℤ → Bool
eq_ℤ (pos a) (pos b) = eqb a b
eq_ℤ (negsuc a) (negsuc b) = eqb a b
eq_ℤ _ _ = false

-- RemoveScheduled of framework/scheduler.go: the first task with the id is taken off the list.
unfoldable pub remove_scheduled_from : ℤ → List ScheduledTask → Option (List ScheduledTask)
remove_scheduled_from id [] = none
remove_scheduled_from id (t ∷ ts) =
    let rest = remove_scheduled_from id ts in
    if eq_ℤ t.id id then some ts else elim rest [ none ↦ none | some left ↦ some (t ∷ left) ]

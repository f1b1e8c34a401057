-- ===== src/Server/Runs.antt =====
-- runStack over an InMemoryStateStorage.
use stack_deploy.Prelude.{String, ◌≡◌, refl, sym, ap, ◌∙◌, Option, none, some, eq_refl}
use stack_deploy.Variables.{Variables}
use stack_deploy.Stack.{Stack, StackStatus}
use stack_deploy.Stack.Run.{RunError}
use stack_deploy.Storage
use stack_deploy.StateStorage
use stack_deploy.StateStorage.{
  found, new_stack_state, States, StackState, get_stack_state, save_stack_status,
}
use stack_deploy.StateStorage.Kept.{find, get_stack_state-found, save_stack_status_lem}
use stack_deploy.Server.{
  Services, RunRequest, RunFailure, run_stack, save_and_run, after_run, stack_to_run, save_error,
}

-- A runner that takes no state away, as Stack.Run does: it saves statuses of applications and
-- variables only.
abbrev pub KeepsStates : Services → Type 0
KeepsStates services =
    (s : Stack) (r : RunRequest) (v : Variables) (states : States) (state : StackState)
    (name zone : String)
    → get_stack_state name zone states ≡ StateStorage.ok state
    → (after : StackState) × (get_stack_state name zone (services.run_stack s r v states).1
        ≡ StateStorage.ok after)

found-some :
    (o : Option StackState) (state : StackState) → found o ≡ StateStorage.ok state → o ≡ some state
found-some none state h = cc
found-some (some x) state h = cc

there_fails :
    (name zone : String) (status : StackStatus) (states : States) (state : StackState)
    → get_stack_state name zone states ≡ StateStorage.ok state
    → save_stack_status name zone status states ≡ StateStorage.err StateStorage.stack_state_exists
unfolding save_stack_status
there_fails name zone status states state h =
    rw (found-some (find name zone states) state (sym (get_stack_state-found name zone states) ∙ h))
      refl

-- What runStack gives is an error.
abbrev pub IsFailure : Option RunFailure × States → Type 0
IsFailure r = (e : RunFailure) × (r.0 ≡ some e)

after_run-IsFailure :
    (r : RunRequest) (o : Option RunError) (states : States) (state : StackState)
    → get_stack_state r.name r.zone states ≡ StateStorage.ok state
    → IsFailure (after_run r (o, states))
unfolding after_run
after_run-IsFailure r (some e) states state h = (_, refl)
after_run-IsFailure r none states state h =
    (_, ap save_error (there_fails r.name r.zone StackStatus.running states state h))

saved_here :
    (name zone : String) (status : StackStatus) (states next : States)
    → save_stack_status name zone status states ≡ StateStorage.ok next
    → get_stack_state name zone next ≡ StateStorage.ok (new_stack_state name zone status)
saved_here name zone status states next h =
    rw (
      (save_stack_status_lem name zone status states next h).1 name zone,
      eq_refl name,
      eq_refl zone,
    )

saved_there :
    (name zone : String) (status : StackStatus) (states next : States)
    → save_stack_status name zone status states ≡ StateStorage.ok next
    → (state : StackState) × (get_stack_state name zone next ≡ StateStorage.ok state)
saved_there name zone status states next h =
    (new_stack_state name zone status, saved_here name zone status states next h)

save_and_run-IsFailure :
    (services : Services) (s : Stack) (r : RunRequest) (v : Variables) (states : States)
    (saved : StateStorage.Result States)
    → KeepsStates services
    → save_stack_status r.name r.zone StackStatus.staging states ≡ saved
    → IsFailure (save_and_run services s r v saved states)
unfolding save_and_run
save_and_run-IsFailure services s r v states (StateStorage.err e) keeps h = (_, refl)
save_and_run-IsFailure services s r v states (StateStorage.ok next) keeps h =
    let (state, there) = saved_there r.name r.zone StackStatus.staging states next h in
    let (after, kept) = keeps s r v next state r.name r.zone there in
    after_run-IsFailure r (services.run_stack s r v next).0 (services.run_stack s r v next).1 after
      kept

-- Over an in-memory state storage, runStack always ends with an error, also when the stack was run
-- without one, with any runner that takes no state out of the storage. A panic of Merge is counted
-- as an error.
pub run_stack-IsFailure :
    (services : Services) (r : RunRequest) (v : Variables) (stacks : Storage.Stacks)
    (states : States)
    → KeepsStates services
    → IsFailure (run_stack services r v stacks states)
unfolding run_stack
run_stack-IsFailure services r v stacks states keeps = from_stack (stack_to_run stacks r)
  where
    from_stack :
        (o : Storage.Result Stack)
        → IsFailure (elim o [
          | Storage.err e ↦ (some (RunFailure.storage_failed e), states)
          | Storage.ok s ↦
              save_and_run services s r v
                (save_stack_status r.name r.zone StackStatus.staging states)
                states
        ])
    from_stack (Storage.err e) = (_, refl)
    from_stack (Storage.ok s) = save_and_run-IsFailure services s r v states _ keeps refl

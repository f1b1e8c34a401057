-- ===== src/StateStorage.antt =====
-- InMemoryStateStorage of framework/state_storage.go: what is known of the stacks that were run. The
-- Go map of maps is kept as it is, and its mutex makes each method one step.
pub mod Kept
pub mod Ledger
pub mod Cassandra
mod Tests
use stack_deploy.Prelude.{String, Option, none, some, []}
use stack_deploy.Map.{Map, lookup, insert}
use stack_deploy.Application.{ApplicationStatus}
use stack_deploy.Stack.{StackStatus}
use stack_deploy.Variables.{Variables}

pub record StackState : Type 0 where
  pub name : String
  pub zone : String
  pub status : StackStatus
  pub variables : Option Variables
  pub applications : Map ApplicationStatus

-- newStackState
abbrev pub new_stack_state : String → String → StackStatus → StackState
new_stack_state name zone status = record {
  name = name;
  zone = zone;
  status = status;
  variables = none;
  applications = [];
}

-- ErrStackStateExists and ErrStackStateDoesNotExist
pub data Error : Type 0 where
  stack_state_exists stack_state_does_not_exist : Error

pub data Result {ℓ} (A : Type ℓ) : Type ℓ where
  ok : A → Result A
  err : Error → Result A

-- The states by stack name and by zone.
abbrev pub States : Type 0
States = Map (Map StackState)

abbrev pub or_no_zones : Option (Map StackState) → Map StackState
or_no_zones none = []
or_no_zones (some zones) = zones

abbrev pub zones_of : String → States → Map StackState
zones_of name states = or_no_zones (lookup name states)

-- SaveStackStatus. The empty map of a new name is stored even where nothing follows; nothing reads
-- it.
abbrev pub unless_there : Option StackState → States → Result States
unless_there none next = ok next
unless_there (some state) next = err stack_state_exists

unfoldable pub save_stack_status : String → String → StackStatus → States → Result States
save_stack_status name zone status states =
    unless_there (lookup zone (zones_of name states))
      (insert name (insert zone (new_stack_state name zone status) (zones_of name states)) states)

-- The two tests of a state's presence, for the name and for the zone.
abbrev pub found : Option StackState → Result StackState
found none = err stack_state_does_not_exist
found (some state) = ok state

abbrev pub found_in : String → Option (Map StackState) → Result StackState
found_in zone none = err stack_state_does_not_exist
found_in zone (some zones) = found (lookup zone zones)

unfoldable pub get_stack_state : String → String → States → Result StackState
get_stack_state stack zone states = found_in zone (lookup stack states)

-- What SaveApplicationStatus and SaveStackVariables share: the state is changed where it stands.
abbrev pub then_put : Result StackState → (StackState → States) → Result States
then_put (err e) put = err e
then_put (ok state) put = ok (put state)

unfoldable pub update : String → String → (StackState → StackState) → States → Result States
update stack zone change states =
    then_put (found_in zone (lookup stack states))
      (λ state. insert stack (insert zone (change state) (zones_of stack states)) states)

abbrev pub set_application : String → ApplicationStatus → StackState → StackState
set_application name status state = record state {
  applications = insert name status state.applications;
}

abbrev pub set_variables : Variables → StackState → StackState
set_variables variables state = record state { variables = some variables }

unfoldable pub save_application_status :
    String → String → String → ApplicationStatus → States → Result States
unfolding update
save_application_status stack zone name status states =
    update stack zone (set_application name status) states

unfoldable pub save_stack_variables : String → String → Variables → States → Result States
unfolding update
save_stack_variables stack zone variables states =
    update stack zone (set_variables variables) states

-- ===== src/StateStorage/Tests.antt =====
-- A stack that is run in one zone.
use stack_deploy.Prelude.{◌≡◌, refl, List, none, [], ◌∷◌}
use stack_deploy.Map.{lookup}
use stack_deploy.Application.{ApplicationStatus}
use stack_deploy.Stack.{StackStatus}
use stack_deploy.StateStorage.{get_stack_state}
use stack_deploy.StateStorage.Ledger.{
  Call, stack_status, application_status, Ledger, Implements, after_calls, write_all, failures,
  refusals, after_calls-Implements,
}

-- A run's status, an application's, and one of a stack that was not run.
abbrev calls : List Call
calls =
    record { stack = "shop"; zone = "z"; change = stack_status StackStatus.staging }
    ∷ record {
      stack = "shop";
      zone = "z";
      change = application_status "web" ApplicationStatus.running;
    }
    ∷ record {
      stack = "bank";
      zone = "z";
      change = application_status "web" ApplicationStatus.running;
    }
    ∷ []

abbrev nothing : Ledger
nothing j z = none

nothing_yet : Implements [] nothing
unfolding get_stack_state lookup
nothing_yet j z = refl

after_calls-Implements_example :
    Implements (after_calls calls []) (write_all calls nothing)
    × (failures calls [] ≡ refusals calls nothing)
after_calls-Implements_example = after_calls-Implements calls [] nothing nothing_yet

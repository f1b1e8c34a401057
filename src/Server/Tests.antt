-- ===== src/Server/Tests.antt =====
-- Requests to a server with one stack, whose users have the keys that they are named after.
use stack_deploy.Prelude.{false, String, ◌≡◌, refl, ◌⊎◌, true, none, some, [], ◌∷◌, ◌==◌}
use stack_deploy.Variables.{new_variables}
use stack_deploy.Stack.{Stack}
use stack_deploy.Users
use stack_deploy.Server.{
  UserStorage, Server, Services, RunRequest, Request, Code, Body, refresh_token, run_stack,
}
use stack_deploy.Server.Handlers.{serve, route, auth, admin, refresh_token_handler}
use stack_deploy.Server.Guards.{IsAllowed, IsAdministrator, serve-IsAllowed, serve-Administered}
use stack_deploy.Server.Runs.{KeepsStates, IsFailure, run_stack-IsFailure}

-- The database is the key that was given last.
abbrev key_storage : UserStorage String
key_storage = record {
  check_key = λ name key db. Users.ok (name == key);
  is_admin = λ name db. Users.ok (name == "root");
  create_user = λ name role uuid db. Users.ok (uuid, uuid);
  refresh_token = λ name uuid db. Users.ok (uuid, uuid);
}

abbrev services : Services
services = record {
  unmarshal_stack = λ stackfile. none;
  sort_strings = λ names. names;
  uuid = "u";
  mesos_updates = true;
  run_stack = λ s request variables states. (none, states);
}

abbrev shop : Stack
shop = record {
  namespace = "";
  name = "shop";
  from = "";
  applications = [];
  nil_applications = false;
  layer = 0;
}

abbrev before : Server String
before = record {
  users = "";
  stacks = ("shop", shop) ∷ [];
  states = [];
  scheduled = [];
  deleted_jobs = [];
}

abbrev after : Server String
after = record before { users = "u" }

-- An administrator renews a key.
abbrev renewal : Request
renewal = record { user = "root"; key = "root"; command = refresh_token (some "ann") }

abbrev renewed : Code × Body
renewed = (Code.ok_200, Body.text "u")

serve-IsAllowed_example : (after ≡ before) ⊎ IsAllowed key_storage services renewal before
unfolding serve route auth admin refresh_token_handler
serve-IsAllowed_example =
    serve-IsAllowed key_storage services [] 3 renewal before after renewed refl

serve-Administered_example :
    (after.users ≡ before.users)
    ⊎ (IsAllowed key_storage services renewal before
        × IsAdministrator key_storage services renewal before)
unfolding serve route auth admin refresh_token_handler
serve-Administered_example =
    serve-Administered key_storage services [] 3 renewal before after renewed refl

abbrev request : RunRequest
request = record { name = "shop"; zone = ""; variables = []; skip_applications = [] }

services-KeepsStates : KeepsStates services
services-KeepsStates s r v states state name zone h = (state, h)

run_stack-IsFailure_example : IsFailure (run_stack services request new_variables before.stacks [])
run_stack-IsFailure_example =
    run_stack-IsFailure services request new_variables before.stacks [] services-KeepsStates

-- ===== src/Server/Handlers.antt =====
-- The handlers of framework/server.go, the middlewares Auth and Admin, and the routes.
use stack_deploy.Prelude.{
  ℕ, String, Bool, true, false, Option, none, some, List, ◌∷◌, ◌==◌, if◌then◌else◌,
}
use stack_deploy.Prelude.Int.{ℤ}
use stack_deploy.Map.{Map}
use stack_deploy.Layers.{layer_to_int}
use stack_deploy.Storage
use stack_deploy.Storage.{◌>>=◌}
use stack_deploy.Users
use stack_deploy.Server.{
  UserStorage, Server, Services, RunRequest, Command, Request, Code, Body, Handler, ScheduledTask,
  ok_200, created_201, bad_request_400, forbidden_403, not_found_404, internal_error_500, empty,
  error_text, text, names, stack, tasks, list, scheduled, health, get, run, create_stack,
  create_layer, remove_stack, remove_scheduled, create_user, refresh_token, answer, stack_names,
  run_stack, variables_of, ran, remove_scheduled_from,
}

module _ {D : Type 0} (users : UserStorage D) (services : Services) where
  unfoldable pub list_handler : Handler D
  unfolding Storage.get_all
  list_handler server =
      answer ok_200 (names (services.sort_strings (stack_names (Storage.get_all server.stacks))))
        server

  unfoldable pub get_stack_handler : String → Handler D
  unfolding Storage.get_stack
  get_stack_handler name server =
      if name == ""
      then answer bad_request_400 (text "Stack name required") server
      else elim (Storage.get_stack server.stacks name) [
        | Storage.err e ↦ answer not_found_404 (text "Stack does not exist") server
        | Storage.ok s ↦ answer ok_200 (stack s) server
      ]

  unfoldable pub run_handler : Map String → RunRequest → Handler D
  unfolding run_stack variables_of
  run_handler globals request server =
      let done =
        ran server
          (run_stack services request (variables_of globals request) server.stacks server.states) in
      if request.name == ""
      then answer bad_request_400 (text "Stack name required") server
      else if services.mesos_updates
      then done
      else answer not_found_404 (text "Refresh Mesos state error") server

  abbrev pub stored : Server D → Storage.Result Storage.Stacks → Option ((Code × Body) × Server D)
  stored server (Storage.err e) = answer bad_request_400 (text "Stack already exists") server
  stored server (Storage.ok stacks) = answer ok_200 empty (record server { stacks = stacks })

  unfoldable pub create_stack_handler : Option String → Handler D
  unfolding Storage.store_stack
  create_stack_handler none server = answer bad_request_400 error_text server
  create_stack_handler (some stackfile) server = elim (services.unmarshal_stack stackfile) [
    | none ↦ answer bad_request_400 error_text server
    | some s ↦ stored server (Storage.store_stack server.stacks s)
  ]

  unfoldable pub create_layer_handler : Option (String × (String × String)) → Handler D
  unfolding Storage.store_stack layer_to_int
  create_layer_handler none server = answer bad_request_400 error_text server
  create_layer_handler (some (stackfile, (layer, parent))) server =
      elim (services.unmarshal_stack stackfile) [
        | none ↦ answer bad_request_400 error_text server
        | some s ↦ elim (layer_to_int layer) [
          | none ↦ answer bad_request_400 (text "Invalid layer") server
          | some level ↦
              stored server
                (Storage.store_stack server.stacks (record s { layer = level; from = parent }))
        ]
      ]

  abbrev pub removed :
      Server D → Option (Storage.Result Storage.Stacks) → Option ((Code × Body) × Server D)
  removed server none = none
  removed server (some (Storage.err e)) = answer bad_request_400 error_text server
  removed server (some (Storage.ok stacks)) =
      answer ok_200 empty (record server { stacks = stacks })

  unfoldable pub remove_stack_handler : ℕ → String → Bool → Handler D
  unfolding Storage.remove_stack
  remove_stack_handler depth name force server =
      if name == ""
      then answer bad_request_400 (text "Stack name required") server
      else removed server (Storage.remove_stack depth server.stacks name force)

  -- What create_user and refresh_token answer.
  abbrev pub keyed : Server D → Code → Users.Result (String × D) → Option ((Code × Body) × Server D)
  keyed server code (Users.err e) = answer bad_request_400 error_text server
  keyed server code (Users.ok (key, next)) = answer code (text key) (record server { users = next })

  unfoldable pub create_user_handler : Option (String × String) → Handler D
  unfolding Users.role_of
  create_user_handler none server = answer bad_request_400 error_text server
  create_user_handler (some (name, role)) server =
      keyed server created_201
        (users.create_user name (Users.role_of role) services.uuid server.users)

  unfoldable pub refresh_token_handler : Option String → Handler D
  refresh_token_handler none server = answer bad_request_400 error_text server
  refresh_token_handler (some name) server =
      keyed server ok_200 (users.refresh_token name services.uuid server.users)

  unfoldable pub scheduled_handler : Handler D
  scheduled_handler server = answer ok_200 (tasks server.scheduled) server

  abbrev pub unscheduled :
      Server D → Option (List ScheduledTask) → Option ((Code × Body) × Server D)
  unscheduled server none = answer not_found_404 (text "Task not found") server
  unscheduled server (some left) =
      answer ok_200 (text "deleted") (record server { scheduled = left })

  -- DeleteSchedule is called first, whether the task is known or not.
  unfoldable pub remove_scheduled_handler : Option ℤ → Handler D
  unfolding remove_scheduled_from
  remove_scheduled_handler none server = answer bad_request_400 error_text server
  remove_scheduled_handler (some id) server =
      unscheduled (record server { deleted_jobs = id ∷ server.deleted_jobs })
        (remove_scheduled_from id server.scheduled)

  -- The two middlewares.
  abbrev pub guarded : Users.Result Bool → Code × Body → Handler D → Handler D
  guarded (Users.err e) refusal handler server = answer internal_error_500 error_text server
  guarded (Users.ok false) refusal handler server = some (refusal, server)
  guarded (Users.ok true) refusal handler server = handler server

  unfoldable pub auth : Request → Handler D → Handler D
  auth r handler server =
      guarded (users.check_key r.user r.key server.users) (forbidden_403, text "Unauthorized")
        handler server

  unfoldable pub admin : Request → Handler D → Handler D
  admin r handler server =
      guarded (users.is_admin r.user server.users) (forbidden_403, text "not an admin") handler
        server

  -- The routes of Start.
  unfoldable pub route : Map String → ℕ → Request → Command → Handler D
  unfolding list_handler get_stack_handler run_handler create_stack_handler create_layer_handler
      remove_stack_handler create_user_handler refresh_token_handler scheduled_handler
      remove_scheduled_handler auth admin
  route globals depth r list = auth r list_handler
  route globals depth r scheduled = auth r scheduled_handler
  route globals depth r health = answer ok_200 empty
  route globals depth r (get name) = auth r (get_stack_handler name)
  route globals depth r (run request) = auth r (run_handler globals request)
  route globals depth r (create_stack body) = auth r (create_stack_handler body)
  route globals depth r (create_layer body) = auth r (create_layer_handler body)
  route globals depth r (remove_stack name force) = auth r (remove_stack_handler depth name force)
  route globals depth r (remove_scheduled body) = auth r (remove_scheduled_handler body)
  route globals depth r (create_user body) = auth r (admin r (create_user_handler body))
  route globals depth r (refresh_token body) = auth r (admin r (refresh_token_handler body))

  unfoldable pub serve : Map String → ℕ → Request → Handler D
  unfolding route
  serve globals depth r = route globals depth r r.command

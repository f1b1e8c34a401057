-- ===== src/Server/Guards.antt =====
-- The middlewares Auth and Admin: who changes what.
use stack_deploy.Prelude.{
  ℕ, String, ◌≡◌, refl, ap, ◌⊎◌, inl, inr, Bool, true, false, Option, none, some, arith, ◌==◌,
  Bool-cases, Option-cases, List, ◌∷◌,
}
use stack_deploy.Prelude.Int.{ℤ}
use stack_deploy.Map.{Map}
use stack_deploy.StateStorage
use stack_deploy.Storage
use stack_deploy.Users
use stack_deploy.Layers.{layer_to_int}
use stack_deploy.Server.{
  UserStorage, Server, Services, Request, Command, RunFailure, ScheduledTask, Code, Body, Handler,
  list, scheduled, health, get, run, create_stack, create_layer, remove_stack, remove_scheduled,
  create_user, refresh_token, ran, RunRequest, run_stack, variables_of, remove_scheduled_from,
}
use stack_deploy.Server.Handlers.{
  guarded, auth, admin, route, serve, removed, unscheduled, stored, list_handler, get_stack_handler,
  run_handler, create_stack_handler, create_layer_handler, remove_stack_handler,
  create_user_handler, refresh_token_handler, scheduled_handler, remove_scheduled_handler,
}

module _ {D : Type 0} (users : UserStorage D) (services : Services) where
  -- The handler keeps the users.
  abbrev pub KeepsUsers : Handler D → Type 0
  KeepsUsers handler =
      (server next : Server D) (response : Code × Body)
      → handler server ≡ some (response, next)
      → next.users ≡ server.users

  guarded_lem :
      (g : Users.Result Bool) (refusal response : Code × Body) (handler : Handler D)
      (server next : Server D)
      → guarded users services g refusal handler server ≡ some (response, next)
      → (next ≡ server) ⊎ ((g ≡ Users.ok true) × (handler server ≡ some (response, next)))
  guarded_lem (Users.err e) refusal response handler server next h = inl cc
  guarded_lem (Users.ok false) refusal response handler server next h = inl cc
  guarded_lem (Users.ok true) refusal response handler server next h = inr (refl, h)

  ran-users :
      (server next : Server D) (response : Code × Body) (o : Option RunFailure)
      (states : StateStorage.States)
      → ran server (o, states) ≡ some (response, next)
      → next.users ≡ server.users
  ran-users server next response none states h = cc
  ran-users server next response (some e) states h = ground arith

  list-KeepsUsers : KeepsUsers (list_handler users services)
  unfolding list_handler
  list-KeepsUsers server next response h = cc

  get-KeepsUsers : (name : String) → KeepsUsers (get_stack_handler users services name)
  unfolding get_stack_handler
  get-KeepsUsers name server next response h = ground arith

  run-KeepsUsers :
      (globals : Map String) (r : RunRequest) → KeepsUsers (run_handler users services globals r)
  unfolding run_handler
  run-KeepsUsers globals r server next response h = elim (Bool-cases (r.name == "")) [
    | inl empty ↦ ground arith
    | inr named ↦ elim (Bool-cases services.mesos_updates) [
      | inr stale ↦ ground arith
      | inl fresh ↦
          let done = run_stack services r (variables_of globals r) server.stacks server.states in
          ran-users server next response done.0 done.1 (ground arith)
    ]
  ]

  stored-users :
      (server next : Server D) (response : Code × Body) (r : Storage.Result Storage.Stacks)
      → stored users services server r ≡ some (response, next)
      → next.users ≡ server.users
  stored-users server next response (Storage.err e) h = cc
  stored-users server next response (Storage.ok stacks) h = cc

  create_stack-KeepsUsers :
      (body : Option String) → KeepsUsers (create_stack_handler users services body)
  unfolding create_stack_handler
  create_stack-KeepsUsers none server next response h = cc
  create_stack-KeepsUsers (some stackfile) server next response h =
      elim (Option-cases (services.unmarshal_stack stackfile)) [
        | inl bad ↦ ground arith
        | inr (s, good) ↦
            stored-users server next response (Storage.store_stack server.stacks s) (ground arith)
      ]

  create_layer-KeepsUsers :
      (body : Option (String × (String × String)))
      → KeepsUsers (create_layer_handler users services body)
  unfolding create_layer_handler
  create_layer-KeepsUsers none server next response h = cc
  create_layer-KeepsUsers (some (stackfile, (layer, parent))) server next response h =
      elim (Option-cases (services.unmarshal_stack stackfile)) [
        | inl bad ↦ ground arith
        | inr (s, good) ↦ elim (Option-cases (layer_to_int layer)) [
          | inl invalid ↦ ground arith
          | inr (level, valid) ↦
              stored-users server next response
                (Storage.store_stack server.stacks (record s { layer = level; from = parent }))
                (ground arith)
        ]
      ]

  removed-users :
      (server next : Server D) (response : Code × Body) (r : Option (Storage.Result Storage.Stacks))
      → removed users services server r ≡ some (response, next)
      → next.users ≡ server.users
  removed-users server next response none h = cc
  removed-users server next response (some (Storage.err e)) h = cc
  removed-users server next response (some (Storage.ok stacks)) h = cc

  remove_stack-KeepsUsers :
      (depth : ℕ) (name : String) (force : Bool)
      → KeepsUsers (remove_stack_handler users services depth name force)
  unfolding remove_stack_handler
  remove_stack-KeepsUsers depth name force server next response h = elim (Bool-cases (name == "")) [
    | inl empty ↦ ground arith
    | inr named ↦
        removed-users server next response (Storage.remove_stack depth server.stacks name force)
          (ground arith)
  ]

  unscheduled-users :
      (server next : Server D) (response : Code × Body) (o : Option (List ScheduledTask))
      → unscheduled users services server o ≡ some (response, next)
      → next.users ≡ server.users
  unscheduled-users server next response none h = cc
  unscheduled-users server next response (some left) h = cc

  remove_scheduled-KeepsUsers :
      (body : Option ℤ) → KeepsUsers (remove_scheduled_handler users services body)
  unfolding remove_scheduled_handler
  remove_scheduled-KeepsUsers none server next response h = cc
  remove_scheduled-KeepsUsers (some id) server next response h =
      unscheduled-users (record server { deleted_jobs = id ∷ server.deleted_jobs }) next response
        (remove_scheduled_from id server.scheduled) h

  abbrev pub IsAllowed : Request → Server D → Type 0
  IsAllowed r server = users.check_key r.user r.key server.users ≡ Users.ok true

  abbrev pub IsAdministrator : Request → Server D → Type 0
  IsAdministrator r server = users.is_admin r.user server.users ≡ Users.ok true

  auth_lem :
      (r : Request) (handler : Handler D) (server next : Server D) (response : Code × Body)
      → auth users services r handler server ≡ some (response, next)
      → (next ≡ server) ⊎ (IsAllowed r server × (handler server ≡ some (response, next)))
  unfolding auth
  auth_lem r handler server next response h = guarded_lem _ _ response handler server next h

  auth-KeepsUsers :
      (r : Request) (handler : Handler D)
      → KeepsUsers handler
      → KeepsUsers (auth users services r handler)
  auth-KeepsUsers r handler keeps server next response h =
      elim (auth_lem r handler server next response h) [
        | inl same ↦ ap (λ s. s.users) same
        | inr (key, went) ↦ keeps server next response went
      ]

  -- What both paths for administrators share.
  abbrev Administered : Request → Server D → Server D → Type 0
  Administered r server next =
      (next.users ≡ server.users) ⊎ (IsAllowed r server × IsAdministrator r server)

  admin-Administered :
      (r : Request) (handler : Handler D) (server next : Server D) (response : Code × Body)
      → auth users services r (admin users services r handler) server ≡ some (response, next)
      → Administered r server next
  unfolding admin
  admin-Administered r handler server next response h =
      elim (auth_lem r (admin users services r handler) server next response h) [
        | inl same ↦ inl (ap (λ s. s.users) same)
        | inr (key, went) ↦ elim (guarded_lem _ _ response handler server next went) [
          | inl same ↦ inl (ap (λ s. s.users) same)
          | inr (role, done) ↦ inr (key, role)
        ]
      ]

  allowed :
      (r : Request) (handler : Handler D) (server next : Server D) (response : Code × Body)
      → auth users services r handler server ≡ some (response, next)
      → (next ≡ server) ⊎ IsAllowed r server
  allowed r handler server next response h = elim (auth_lem r handler server next response h) [
    | inl same ↦ inl same
    | inr (key, went) ↦ inr key
  ]

  route-IsAllowed :
      (globals : Map String) (depth : ℕ) (r : Request) (c : Command) (server next : Server D)
      (response : Code × Body)
      → route users services globals depth r c server ≡ some (response, next)
      → (next ≡ server) ⊎ IsAllowed r server
  unfolding route
  route-IsAllowed globals depth r list server next response h = allowed r _ server next response h
  route-IsAllowed globals depth r scheduled server next response h =
      allowed r _ server next response h
  route-IsAllowed globals depth r health server next response h = inl cc
  route-IsAllowed globals depth r (get name) server next response h =
      allowed r _ server next response h
  route-IsAllowed globals depth r (run q) server next response h =
      allowed r _ server next response h
  route-IsAllowed globals depth r (create_stack b) server next response h =
      allowed r _ server next response h
  route-IsAllowed globals depth r (create_layer b) server next response h =
      allowed r _ server next response h
  route-IsAllowed globals depth r (remove_stack name f) server next response h =
      allowed r _ server next response h
  route-IsAllowed globals depth r (remove_scheduled b) server next response h =
      allowed r _ server next response h
  route-IsAllowed globals depth r (create_user b) server next response h =
      allowed r _ server next response h
  route-IsAllowed globals depth r (refresh_token b) server next response h =
      allowed r _ server next response h

  route-Administered :
      (globals : Map String) (depth : ℕ) (r : Request) (c : Command) (server next : Server D)
      (response : Code × Body)
      → route users services globals depth r c server ≡ some (response, next)
      → Administered r server next
  unfolding route scheduled_handler
  route-Administered globals depth r list server next response h =
      inl (auth-KeepsUsers r _ list-KeepsUsers server next response h)
  route-Administered globals depth r scheduled server next response h =
      inl (auth-KeepsUsers r _ (λ a b c e. cc) server next response h)
  route-Administered globals depth r health server next response h = inl cc
  route-Administered globals depth r (get name) server next response h =
      inl (auth-KeepsUsers r _ (get-KeepsUsers name) server next response h)
  route-Administered globals depth r (run q) server next response h =
      inl (auth-KeepsUsers r _ (run-KeepsUsers globals q) server next response h)
  route-Administered globals depth r (create_stack b) server next response h =
      inl (auth-KeepsUsers r _ (create_stack-KeepsUsers b) server next response h)
  route-Administered globals depth r (create_layer b) server next response h =
      inl (auth-KeepsUsers r _ (create_layer-KeepsUsers b) server next response h)
  route-Administered globals depth r (remove_stack name f) server next response h =
      inl (auth-KeepsUsers r _ (remove_stack-KeepsUsers depth name f) server next response h)
  route-Administered globals depth r (remove_scheduled b) server next response h =
      inl (auth-KeepsUsers r _ (remove_scheduled-KeepsUsers b) server next response h)
  route-Administered globals depth r (create_user b) server next response h =
      admin-Administered r (create_user_handler users services b) server next response h
  route-Administered globals depth r (refresh_token b) server next response h =
      admin-Administered r (refresh_token_handler users services b) server next response h

  -- A request that is answered leaves the whole server as it was, or its key is valid.
  pub serve-IsAllowed :
      (globals : Map String) (depth : ℕ) (r : Request) (server next : Server D)
      (response : Code × Body)
      → serve users services globals depth r server ≡ some (response, next)
      → (next ≡ server) ⊎ IsAllowed r server
  unfolding serve
  serve-IsAllowed globals depth r server next response h =
      route-IsAllowed globals depth r r.command server next response h

  -- A request that is answered leaves the users as they were, or its key is valid and its user an
  -- administrator.
  pub serve-Administered :
      (globals : Map String) (depth : ℕ) (r : Request) (server next : Server D)
      (response : Code × Body)
      → serve users services globals depth r server ≡ some (response, next)
      → (next.users ≡ server.users) ⊎ (IsAllowed r server × IsAdministrator r server)
  unfolding serve
  serve-Administered globals depth r server next response h =
      route-Administered globals depth r r.command server next response h

-- ===== src/Runners/Filling.antt =====
-- FillContext: the variables that it sets.
use Prim.Native.Char.{Char}
use stack_deploy.Runners.Results.{ok}
use stack_deploy.Prelude.{ℕ, zero, suc, ◌+◌, String, ◌≡◌, Option, none, some, List, [], ◌∷◌}
use stack_deploy.Prelude.Int.{ℤ}
use stack_deploy.Prelude.Text.{concat}
use stack_deploy.Prelude.Decimal.{print_nat, print_int}
use stack_deploy.Variables.{Variables, get, set_stack_variable}
use stack_deploy.Runners.{Outcome, done, failed, panicked, waiting, MarathonTask, api_of}

abbrev pub host_key : String → String
host_key id = concat (id ∷ ".host" ∷ [])

abbrev pub api_key : String → String
api_key id = concat (id ∷ ".api" ∷ [])

abbrev pub port_key : String → ℕ → String
port_key id n = concat (id ∷ ".port" ∷ print_nat n ∷ [])

abbrev pub port_at : ℕ → List ℤ → Option ℤ
port_at n [] = none
port_at zero (port ∷ ports) = some port
port_at (suc n) (port ∷ ports) = port_at n ports

-- The variables that a task's context has.
abbrev pub IsFilled : String → MarathonTask → Outcome String → Type 0
IsFilled id task (done api s) =
    (get (host_key id) s.context ≡ some task.host)
    × (get (api_key id) s.context ≡ some api)
    × (api_of task ≡ ok api)
    × ((n : ℕ) (port : ℤ)
        → port_at n task.ports ≡ some port
        → get (port_key id n) s.context ≡ some (print_int port))
IsFilled id task (panicked s) = task.ports ≡ []
IsFilled id task (failed e s) = ⊥
IsFilled id task (waiting s) = ⊥

-- The context after the loop over the ports.
abbrev after_ports : String → ℕ → List ℤ → Variables → Variables
after_ports id n [] c = c
after_ports id n (port ∷ ports) c =
    after_ports id (n + 1) ports (set_stack_variable (port_key id n) (print_int port) c)

-- ===== src/Application/Slaves.antt =====
-- framework/mesos_state.go: the slaves of the Mesos cluster. `GetActivatedSlaves` converts a JSON
-- number to an int; the model keeps the int.
use stack_deploy.Prelude.{String, Bool, none, some, List, ◌==◌, if◌then◌else◌}
use stack_deploy.Prelude.Int.{ℤ}
use stack_deploy.Map.{Map, lookup}

pub record Slave : Type 0 where
  pub active : Bool
  pub attributes : Map String
  pub hostname : String
  pub id : String
  pub pid : String

pub record MesosState : Type 0 where
  pub activated_slaves : ℤ
  pub slaves : List Slave

-- `s.Attributes[name]`, "" where there is none
unfoldable pub attribute : String → Slave → String
unfolding lookup
attribute name s =
    if name == "hostname"
    then s.hostname
    else elim (lookup name s.attributes) [ none ↦ "" | some value ↦ value ]

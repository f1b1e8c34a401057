-- ===== src/Application/Instances.antt =====
-- GetInstances and GetConstraints: how many instances run, and which slaves they are counted on.
-- `none` is a panic.
pub mod Placed
use stack_deploy.Prelude.{
  ℕ, suc, ◌+◌, ◌≤◌, ◌<◌, String, ◌≡◌, refl, Bool, true, false, Option, none, some, List, [], ◌∷◌,
  ◌++◌, arith, ◌==◌, eq_iff, length, length-append, All, if◌then◌else◌, Bool-cases,
}
use stack_deploy.Prelude.Int.{ℤ, pos}
use stack_deploy.Prelude.Text.{atoi}
use stack_deploy.Map.{Map}
use stack_deploy.Constraints.{Regexps, Constraint, matches, max_int32}
use stack_deploy.Constraints.Parse.{Result, ok, err, parse_constraints}
use stack_deploy.Application.{Application}
use stack_deploy.Application.Slaves.{Slave, MesosState, attribute}

unfoldable pub get_constraints : Regexps → Application → Option (Map (List Constraint))
unfolding parse_constraints
get_constraints re a = elim (parse_constraints re a.constraints) [ ok m ↦ some m | err e ↦ none ]

pub other_slaves_attributes : String → List Slave → List String
unfolding attribute
other_slaves_attributes name [] = []
other_slaves_attributes name (s ∷ ss) =
    let value = attribute name s in
    let rest = other_slaves_attributes name ss in if value == "" then rest else value ∷ rest

-- The inner loop of slaveMatches.
pub meets_all : Regexps → List Constraint → String → List String → Bool
unfolding matches
meets_all re [] value values = true
meets_all re (c ∷ cs) value values =
    if matches re c value values then meets_all re cs value values else false

pub slave_matches : Regexps → Map (List Constraint) → Slave → List Slave → Bool
unfolding attribute meets_all other_slaves_attributes
slave_matches re [] slave others = true
slave_matches re ((name, cs) ∷ rest) slave others =
    if attribute name slave == ""
    then false
    else if meets_all re cs (attribute name slave) (other_slaves_attributes name others)
    then slave_matches re rest slave others
    else false

-- The loop of calculateAllInstances.
pub matching_slaves : Regexps → Map (List Constraint) → List Slave → List Slave → List Slave
unfolding slave_matches
matching_slaves re constraints [] chosen = chosen
matching_slaves re constraints (s ∷ ss) chosen =
    matching_slaves re constraints ss
      (if slave_matches re constraints s chosen then chosen ++ s ∷ [] else chosen)

abbrev pub calculate_all : Regexps → Map (List Constraint) → MesosState → ℤ
calculate_all re [] mesos = mesos.activated_slaves
calculate_all re (c ∷ cs) mesos = pos (length (matching_slaves re (c ∷ cs) mesos.slaves []))

pub calculate_all_instances : Regexps → Application → MesosState → Option ℤ
unfolding get_constraints matching_slaves
calculate_all_instances re a mesos = elim (get_constraints re a) [
  | none ↦ none
  | some m ↦ some (calculate_all re m mesos)
]

unfoldable pub get_instances : Regexps → Application → MesosState → Option ℤ
unfolding calculate_all_instances atoi
get_instances re a mesos =
    if a.instances == ""
    then some (pos 1)
    else if a.instances == "all"
    then calculate_all_instances re a mesos
    else atoi a.instances

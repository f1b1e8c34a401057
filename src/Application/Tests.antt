-- ===== src/Application/Tests.antt =====
-- Applications at concrete values.
use stack_deploy.Prelude.{
  ℕ, zero, suc, ◌≡◌, ◌≢◌, ◌≤◌, ◌↔◌, refl, arith, true, none, some, List, [], ◌∷◌, String, length,
  ◌==◌, not, ◌&&◌, ◌||◌, if◌then◌else◌,
}
use stack_deploy.Prelude.Int.{ℤ, pos, ◌≤ℤ◌}
use stack_deploy.Prelude.Text.{atoi}
use stack_deploy.Map.{Map, lookup, insert, or_else}
use stack_deploy.Variables.{Variables, new_variables, set_stack_variable}
use stack_deploy.Constraints.{Constraint, unique}
use stack_deploy.Constraints.Parse.{parse_constraints, parse_constraint, parse_rows}
use stack_deploy.Application.Samples.{literal_regexps, sample}
use stack_deploy.Application.Slaves.{Slave, MesosState}
use stack_deploy.Application.Validate.{bad_instances, validate, IsValid, validate-IsValid}
use stack_deploy.Application.Instances.{calculate_all_instances, get_instances}
use stack_deploy.Application.Instances.Placed.{
  Selection, ArePlaced, calculate_all_instances-ArePlaced, get_instances-IsValid,
}
use stack_deploy.Application.Health.{
  Poll, missing, report, EndsPolls, await_running_and_healthy, await_running_and_healthy_lem,
}
use stack_deploy.Application.Marathon.{value_or_empty, get_labels_from_context, get_env}
use stack_deploy.Application.Resolve.{ensure_string}
use stack_deploy.Application.Resolve.Unresolved.{HasVariable, ensure_string-HasVariable}
use stack_deploy.Application.Marathon.Environment.{
  stack_labels, lookup-get_labels_from_context, lookup-get_env,
}

-- Two slaves of one host name.
abbrev two_slaves : MesosState
two_slaves = record {
  activated_slaves = pos 2;
  slaves =
      record { active = true; attributes = []; hostname = "a"; id = "1"; pid = "p" }
      ∷ record { active = true; attributes = []; hostname = "a"; id = "2"; pid = "q" }
      ∷ [];
}

abbrev one_each : List (List String)
one_each = ("hostname" ∷ "UNIQUE" ∷ []) ∷ []

abbrev parsed : Map (List Constraint)
parsed = ("hostname", unique ∷ []) ∷ []

calculate_all_instances-ArePlaced_example :
    (chosen : List Slave) × (calculate_all_instances literal_regexps
        (sample "web" "all" one_each [])
        two_slaves
      ≡ some (pos (length chosen)))
    × Selection literal_regexps parsed two_slaves.slaves [] chosen
    × ArePlaced literal_regexps parsed chosen
    × (length chosen ≤ length two_slaves.slaves)
unfolding parse_constraints parse_constraint lookup insert parse_rows
calculate_all_instances-ArePlaced_example =
    calculate_all_instances-ArePlaced literal_regexps (sample "web" "all" one_each []) parsed
      two_slaves refl (λ e. cc) (omega arith)

sample_validates : validate literal_regexps [] (sample "web" "3" [] []) ≡ none
unfolding validate parse_constraints bad_instances atoi parse_rows
sample_validates = refl

get_instances-IsValid_example :
    (n : ℤ) × (get_instances literal_regexps (sample "web" "3" [] []) two_slaves ≡ some n)
    × ((sample "web" "3" [] []).instances ≢ "all" → pos 1 ≤ℤ n)
get_instances-IsValid_example =
    get_instances-IsValid literal_regexps [] (sample "web" "3" [] []) two_slaves sample_validates

validate-IsValid_example :
    (validate literal_regexps [] (sample "web" "3" [] []) ≡ none)
    ↔ IsValid literal_regexps [] (sample "web" "3" [] [])
validate-IsValid_example = validate-IsValid literal_regexps [] (sample "web" "3" [] [])

-- The application is missing at first, and runs from the second poll on.
abbrev second_poll : ℕ → Poll
second_poll zero = missing
second_poll (suc n) = report (record { tasks_running = 1; tasks_healthy = 1 })

await_running_and_healthy_lem_example :
    EndsPolls
      (sample "web" "1" [] [])
      second_poll
      (pos 3)
      (await_running_and_healthy (sample "web" "1" [] []) second_poll (pos 3))
await_running_and_healthy_lem_example =
    await_running_and_healthy_lem (sample "web" "1" [] []) second_poll (pos 3)

abbrev in_zone : Variables
in_zone = set_stack_variable "stack" "s1" (set_stack_variable "zone" "z1" new_variables)

lookup-get_labels_from_context_example : lookup "zone" (get_labels_from_context in_zone) ≡ (
    if ("zone" == "zone" || "zone" == "stack") && not (value_or_empty "zone" in_zone == "")
    then some (value_or_empty "zone" in_zone)
    else none)
lookup-get_labels_from_context_example = lookup-get_labels_from_context in_zone "zone"

lookup-get_env_example :
    lookup "STACK_LABELS" (get_env true (sample "web" "1" [] []) in_zone)
    ≡ or_else none (
        if "STACK_LABELS" == "STACK_LABELS"
          && not (value_or_empty "zone" in_zone == "" && value_or_empty "stack" in_zone == "")
        then some
            (stack_labels true (value_or_empty "zone" in_zone) (value_or_empty "stack" in_zone))
        else none)
unfolding lookup
lookup-get_env_example = lookup-get_env true (sample "web" "1" [] []) in_zone "STACK_LABELS" tt

ensure_string-HasVariable_example :
    (ensure_string "run ${port}" ≡ none) ↔ (¬ HasVariable "run ${port}")
ensure_string-HasVariable_example = ensure_string-HasVariable "run ${port}"

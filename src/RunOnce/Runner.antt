-- ===== src/RunOnce/Runner.antt =====
-- mesosrunners/run_once_runner.go: the contexts by the id of their application.
use stack_deploy.Prelude.{
  String, Bool, true, false, Option, none, some, List, [], ◌∷◌, if◌then◌else◌,
}
use stack_deploy.Prelude.Text.{split_at_char}
use stack_deploy.Map.{Map, lookup, insert, remove}
use stack_deploy.Constraints.{Regexps}
use stack_deploy.Application.{Application}
use stack_deploy.Application.Slaves.{MesosState}
use stack_deploy.Application.Instances.{get_instances}
use stack_deploy.RunOnce.{
  Context, Offer, TaskInfo, Reason, accepts, panics, declines, Report, silent, succeeded,
  task_failure, TaskState, matches_offer, launch_task, is_zero, status_update_of,
}

unfoldable pub application_id_from_task_id : String → Option String
unfolding split_at_char
application_id_from_task_id task_id = elim (split_at_char b'|' task_id) [
  | none ↦ none
  | some (before, after) ↦ some before
]

unfoldable pub hostname_from_task_id : String → Option String
unfolding split_at_char
hostname_from_task_id task_id = elim (split_at_char b'|' task_id) [
  | none ↦ none
  | some (before, after) ↦ elim (split_at_char b'|' after) [
    | none ↦ none
    | some (host, uuid) ↦ some host
  ]
]

-- RunOnceRunner is the map of contexts by application id. StageApplication: `none` is a panic of
-- GetInstances, and the flag tells that success is reported at once.
unfoldable pub stage_application :
    Regexps → Application → MesosState → Map Context → Option (Map Context × Bool)
unfolding get_instances insert
stage_application re a mesos applications = elim (get_instances re a mesos) [
  | none ↦ none
  | some n ↦
      if is_zero n
      then some (applications, true)
      else some (
        insert a.id (record { application = a; instances_left = n; tasks = [] }) applications,
        false,
      )
]

-- What ResourceOffer does: it launches on the first context, in the order of the loop, that accepts.
pub data Offered : Type 0 where
  idle crashed : Offered
  launched : (id : String) → Context → TaskInfo → Offered
  declined : List Reason → Offered

abbrev pub also_declined : Reason → Offered → Offered
also_declined r (declined rs) = declined (r ∷ rs)
also_declined r o = o

unfoldable pub offer_each : Regexps → Map Context → Offer → String → Offered
unfolding matches_offer launch_task
offer_each re [] offer uuid = declined []
offer_each re ((id, ctx) ∷ rest) offer uuid =
    let others = offer_each re rest offer uuid in
    elim (matches_offer re ctx offer) [
      | accepts ↦ launched id (launch_task ctx offer uuid).0 (launch_task ctx offer uuid).1
      | panics ↦ crashed
      | declines r ↦ also_declined r others
    ]

unfoldable pub resource_offer : Regexps → Map Context → Offer → String → Offered
unfolding offer_each
resource_offer re [] offer uuid = idle
resource_offer re (entry ∷ applications) offer uuid =
    offer_each re (entry ∷ applications) offer uuid

-- The map of contexts after an offer.
unfoldable pub offered : Map Context → Offered → Map Context
unfolding insert
offered applications (launched id ctx info) = insert id ctx applications
offered applications _ = applications

-- A context that reported is deleted from the map.
abbrev pub settle : String → Map Context → Context × Report → Option (Map Context × (Report × Bool))
settle id applications (next, silent) = some (insert id next applications, (silent, true))
settle id applications (next, succeeded) = some (remove id applications, (succeeded, true))
settle id applications (next, task_failure host state) =
    some (remove id applications, (task_failure host state, true))

-- StatusUpdate of the runner: `none` is the panic on a malformed task id, and the flag tells whether
-- the task was one of the runner's.
unfoldable pub status_update :
    Map Context → String → TaskState → Option (Map Context × (Report × Bool))
unfolding application_id_from_task_id hostname_from_task_id status_update_of insert remove lookup
status_update applications task_id state = elim (application_id_from_task_id task_id) [
  | none ↦ none
  | some id ↦ elim (lookup id applications) [
    | none ↦ some (applications, (silent, false))
    | some ctx ↦ elim (hostname_from_task_id task_id) [
      | none ↦ none
      | some host ↦ settle id applications (status_update_of ctx host task_id state)
    ]
  ]
]

-- ===== src/RunOnce/Tests.antt =====
-- An application of one instance that is offered a host and finishes on it.
use stack_deploy.Prelude.{◌≡◌, refl, true, [], ◌∷◌, All, length}
use stack_deploy.Prelude.Float.{num}
use stack_deploy.Prelude.Int.{pos}
use stack_deploy.Constraints.Parse.{parse_constraints, parse_rows}
use stack_deploy.Application.Samples.{literal_regexps, sample}
use stack_deploy.Application.Instances.{get_constraints}
use stack_deploy.RunOnce.{
  Offer, task_finished, is_done, matches_offer, launch_task, status_update_of, update_task_state,
  all_done, all_tasks_finished, new_run_once_task, new_task_info, check_constraints,
}
use stack_deploy.RunOnce.Counted.{
  Event, offers, updates, run, new_context, IsCounted, run-IsCounted, run-succeeded,
}
use stack_deploy.Prelude.{List}

abbrev host : Offer
host = record { hostname = "h"; attributes = []; cpus = num (pos 9); mem = num (pos 9) }

-- The latest event first.
abbrev one_task : List Event
one_task = updates "h" "web|h|u" task_finished ∷ offers host "u" ∷ []

run-IsCounted_example :
    IsCounted 1 (run literal_regexps (new_context (sample "web" "1" [] []) 1) one_task).0
run-IsCounted_example = run-IsCounted literal_regexps (sample "web" "1" [] []) 1 one_task

run-succeeded_example :
    (length (run literal_regexps (new_context (sample "web" "1" [] []) 1) one_task).0.tasks ≡ 1)
    × All
        (λ t. is_done t.state ≡ true)
        (run literal_regexps (new_context (sample "web" "1" [] []) 1) one_task).0.tasks
unfolding run matches_offer launch_task status_update_of update_task_state all_done
    all_tasks_finished get_constraints parse_constraints parse_rows check_constraints
    new_run_once_task new_task_info
run-succeeded_example = run-succeeded literal_regexps (sample "web" "1" [] []) 1 one_task refl

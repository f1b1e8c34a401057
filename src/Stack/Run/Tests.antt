-- ===== src/Stack/Run/Tests.antt =====
-- Runs of a stack whose application `web` depends on `db`.
use stack_deploy.Prelude.{
  false, ℕ, ◌+◌, ◌≤◌, ◌<◌, String, ◌≡◌, ◌≢◌, refl, inl, inr, none, some, List, [], ◌∷◌, All, arith,
  length, ◌==◌, if◌then◌else◌,
}
use stack_deploy.Map.{lookup, insert}
use stack_deploy.Application.{running, is_running, is_dependency_satisfied, satisfied}
use stack_deploy.Application.Samples.{literal_regexps, sample}
use stack_deploy.Stack.{Stack}
use stack_deploy.Stack.Run.{
  Event, finishes, receives, returned, panicked, blocked, run_events, mark_skipped_apps,
  mark_matching, step, finish, receive, handle_status, after_save, run_applications, consider,
  all_applications_running,
}
use stack_deploy.Stack.Run.Trace.{IsOrdered, RanBefore, starts}
use stack_deploy.Stack.Run.Safety.{initial, run_events-IsOrdered, run_events-starts}
use stack_deploy.Stack.Run.Live.{flights}
use stack_deploy.Stack.Run.Progress.{IsRanked}
use stack_deploy.Stack.Run.Skipping.{
  IsMarked, mark_skipped_apps-IsMarked, mark_skipped_apps_blocked,
}
use stack_deploy.Stack.Run.Settling.{drive, run_events-returns}
use stack_deploy.Stack.Run.Endings.{
  run_events-progress, run_events-calm, run_events-landed, run_events-RanBefore, run_events_empty,
}

abbrev shop : Stack
shop = record {
  namespace = "";
  name = "shop";
  from = "";
  applications = ("web", sample "web" "1" [] ("db" ∷ [])) ∷ ("db", sample "db" "1" [] []) ∷ [];
  nil_applications = false;
  layer = 0;
}

abbrev bare : Stack
bare = record shop { applications = [] }

-- Both applications end well, one after the other.
abbrev whole_run : List Event
whole_run = finishes "db" none ∷ receives none none ∷ finishes "web" none ∷ receives none none ∷ []

abbrev rank : String → ℕ
rank id = if id == "web" then 1 else 0

shop_not_empty : shop.applications ≢ []
shop_not_empty e = cc

none_skipped : IsMarked [] []
unfolding mark_skipped_apps
none_skipped = mark_skipped_apps-IsMarked literal_regexps shop [] [] [] refl

whole_run_returns : (run_events shop (initial shop [] []) whole_run).outcome ≡ some (returned none)
unfolding run_events step finish receive handle_status after_save run_applications consider
    all_applications_running initial lookup insert is_running is_dependency_satisfied satisfied
whole_run_returns = refl

run_events-IsOrdered_example : IsOrdered [] (run_events shop (initial shop [] []) whole_run).trace
run_events-IsOrdered_example = run_events-IsOrdered shop [] [] whole_run

run_events-starts_example : starts "web" (run_events shop (initial shop [] []) whole_run).trace ≤ 1
run_events-starts_example = run_events-starts shop [] [] whole_run "web"

shop-IsRanked : IsRanked rank shop.applications
shop-IsRanked = (((inr (inl refl), omega arith), tt), (tt, tt))

run_events-progress_example :
    0
    < length (run_events shop (initial shop [] []) []).in_flight
      + length (run_events shop (initial shop [] []) []).statuses
unfolding run_events initial run_applications consider lookup insert is_running
    is_dependency_satisfied satisfied
run_events-progress_example =
    run_events-progress shop rank [] [] [] shop_not_empty shop-IsRanked none_skipped refl

-- The run has begun: `db` is in flight, and 6 steps are enough.
run_events-returns_example :
    (drive 6 shop (run_events shop (initial shop [] []) [])).outcome ≡ some (returned none)
run_events-returns_example =
    run_events-returns rank shop [] [] [] 6 shop_not_empty shop-IsRanked none_skipped tt
      (omega arith)

run_events-calm_example : (run_events shop (initial shop [] []) whole_run).outcome ≢ some panicked
run_events-calm_example = run_events-calm shop [] [] whole_run shop_not_empty none_skipped

run_events-landed_example :
    flights "web" (run_events shop (initial shop [] []) whole_run).in_flight ≡ 0
run_events-landed_example =
    run_events-landed shop [] [] whole_run "web" shop_not_empty none_skipped whole_run_returns

run_events-RanBefore_example :
    All
      (λ row. RanBefore [] (run_events shop (initial shop [] []) whole_run).trace row.1.id)
      shop.applications
run_events-RanBefore_example =
    run_events-RanBefore shop [] [] whole_run shop_not_empty none_skipped whole_run_returns

-- The pattern `db` skips the application `db`.
mark_skipped_apps-IsMarked_example :
    IsMarked
      (("db", running) ∷ [])
      (record { application = sample "db" "1" [] []; error = none } ∷ [])
unfolding mark_skipped_apps mark_matching insert
mark_skipped_apps-IsMarked_example =
    mark_skipped_apps-IsMarked literal_regexps shop ("db" ∷ []) (("db", running) ∷ [])
      (record { application = sample "db" "1" [] []; error = none } ∷ []) refl

-- One application, which both patterns match.
abbrev single : Stack
single = record shop { applications = ("db", sample "db" "1" [] []) ∷ [] }

single_not_empty : single.applications ≢ []
single_not_empty e = cc

mark_skipped_apps_blocked_example :
    mark_skipped_apps literal_regexps single ("db" ∷ "db" ∷ []) [] [] ≡ blocked
mark_skipped_apps_blocked_example =
    mark_skipped_apps_blocked literal_regexps single "db" "db" [] refl refl (refl, tt) (refl, tt)
      single_not_empty

run_events_empty_example :
    (run_events bare (initial bare [] []) whole_run ≡ initial bare [] [])
    × ((initial bare [] []).outcome ≡ none)
run_events_empty_example = run_events_empty bare whole_run refl

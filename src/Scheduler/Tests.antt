-- ===== src/Scheduler/Tests.antt =====
-- Offers at concrete values.
use stack_deploy.Prelude.{ℕ, ◌+◌, String, ◌≡◌, ◌↔◌, true, none, [], ◌∷◌}
use stack_deploy.Prelude.Int.{pos}
use stack_deploy.Map.{Map}
use stack_deploy.Scheduler.{MesosTaskRunner, accept_offer}
use stack_deploy.Scheduler.Offers.{NoReasons, accept_offer-NoReasons}

-- A runner without applications, whose state is the number of offers it has seen.
abbrev idle : MesosTaskRunner ℕ ℕ String
idle = record {
  schedule_application = λ a seen. (seen, pos 0);
  delete_schedule = λ id seen. seen;
  stage_application = λ a seen. seen;
  resource_offer = λ offer seen. (seen + 1, "all tasks are running", none);
  status_update = λ status seen. (seen, true);
}

abbrev runners : Map (MesosTaskRunner ℕ ℕ String)
runners = ("run-once", idle) ∷ []

accept_offer-NoReasons_example : ((accept_offer runners 7 0).1 ≡ "") ↔ NoReasons runners 7 0
accept_offer-NoReasons_example = accept_offer-NoReasons runners 7 0

-- ===== src/Scheduler.antt =====
-- framework/scheduler.go and mesosrunners/time_scheduler.go: the scheduler passes applications, offers
-- and statuses on to the Mesos task runners. A runner is the record of the methods of the interface
-- MesosTaskRunner, on a state `S` that has what the runners, the cron library and Mesos keep.
pub mod Offers
pub mod Timed
mod Tests
use stack_deploy.Prelude.{
  String, Bool, true, false, not, ◌&&◌, ◌||◌, Option, none, some, List, [], ◌∷◌, ◌++◌, ◌==◌,
  if◌then◌else◌,
}
use stack_deploy.Prelude.Int.{ℤ}
use stack_deploy.Prelude.Text.{join}
use stack_deploy.Map.{Map, lookup}
use stack_deploy.Application.{Application, Failure}
use stack_deploy.Application.Slaves.{MesosState}
use stack_deploy.Server.{ScheduledTask, remove_scheduled_from}

-- ResourceOffer gives a reason to decline, empty where there is none, and an error or nil. The
-- applications' statuses come later, on channels.
pub record MesosTaskRunner (S Offer Status : Type 0) : Type 0 where
  pub schedule_application : Application → S → S × ℤ
  pub delete_schedule : ℤ → S → S
  pub stage_application : Application → S → S
  pub resource_offer : Offer → S → S × String × Failure
  pub status_update : Status → S → S × Bool

-- What the scheduler asks of the driver, newest first, besides the state of the runners. `connected`
-- tells whether the driver is set.
pub data Call (Offer : Type 0) : Type 0 where
  declined : Offer → Call Offer
  revived_offers : Call Offer

pub record Scheduler (S Offer : Type 0) : Type 0 where
  pub framework_id : String
  pub connected : Bool
  pub scheduled_tasks : List ScheduledTask
  pub calls : List (Call Offer)
  pub world : S

-- What RunApplication's channel will give: its error at once, the status of a schedule, or that of
-- a staged application.
pub data Started : Type 0 where
  no_runner staged : Started
  scheduled : ℤ → Started

abbrev pub with_reason : {S : Type 0} → String → Failure → S × List String → S × List String
with_reason reason (some e) (after, reasons) = (after, reasons)
with_reason reason none (after, reasons) =
    if reason == "" then (after, reasons) else (after, reason ∷ reasons)

module _ {S Offer Status : Type 0} where
  -- acceptOffer's loop: an error is logged, and a reason that is not empty is kept.
  unfoldable pub decline_reasons :
      Map (MesosTaskRunner S Offer Status) → Offer → S → S × List String
  decline_reasons [] offer world = (world, [])
  decline_reasons ((name, runner) ∷ rest) offer world =
      with_reason (runner.resource_offer offer world).1 (runner.resource_offer offer world).2
        (decline_reasons rest offer (runner.resource_offer offer world).0)

  -- StatusUpdate: the first runner that takes the status is the last to see it.
  unfoldable pub update_each : Map (MesosTaskRunner S Offer Status) → Status → S → S
  update_each [] status world = world
  update_each ((name, runner) ∷ rest) status world =
      let result = runner.status_update status world in
      let others = update_each rest status result.0 in if result.1 then result.0 else others

module _ {S Offer Status : Type 0} (runners : Map (MesosTaskRunner S Offer Status)) where
  abbrev is_timed : Application → Bool
  is_timed a = not (a.time_schedule == "") || not (a.start_time == "")

  abbrev schedule : Application → S × ℤ → Scheduler S Offer → Scheduler S Offer × Started
  schedule a (world, id) s = (
    record s {
      scheduled_tasks =
          s.scheduled_tasks
          ++ record {
            id = id;
            name = a.id;
            start_time = a.start_time;
            time_schedule = a.time_schedule;
          }
            ∷ [];
      world = world;
    },
    scheduled id,
  )

  unfoldable pub run_application : Application → Scheduler S Offer → Scheduler S Offer × Started
  unfolding lookup
  run_application a s = elim (lookup a.type runners) [
    | none ↦ (s, no_runner)
    | some runner ↦
        if is_timed a
        then schedule a (runner.schedule_application a s.world) s
        else (record s { world = runner.stage_application a s.world }, staged)
  ]

  unfoldable pub accept_offer : Offer → S → S × String
  unfolding decline_reasons join
  accept_offer offer world =
      let result = decline_reasons runners offer world in (result.0, join result.1 ", ")

  abbrev decline_if : Offer → S × String → Scheduler S Offer → Scheduler S Offer
  decline_if offer (world, reason) s =
      if reason == ""
      then record s { world = world }
      else record s { world = world; calls = declined offer ∷ s.calls }

  unfoldable pub resource_offers : List Offer → Scheduler S Offer → Scheduler S Offer
  unfolding accept_offer
  resource_offers [] s = s
  resource_offers (offer ∷ offers) s =
      resource_offers offers (decline_if offer (accept_offer offer s.world) s)

  unfoldable pub status_update : (Status → Bool) → Status → Scheduler S Offer → Scheduler S Offer
  unfolding update_each
  status_update is_finished status s = record s {
    world = update_each runners status s.world;
    calls = if is_finished status then revived_offers ∷ s.calls else s.calls;
  }

  abbrev removed : Scheduler S Offer → Option (List ScheduledTask) → Scheduler S Offer × Bool
  removed s none = (s, false)
  removed s (some left) = (record s { scheduled_tasks = left }, true)

  -- RemoveScheduled: the job of the runner "run-once", then the list. A nil runner panics.
  unfoldable pub remove_scheduled : ℤ → Scheduler S Offer → Option (Scheduler S Offer × Bool)
  unfolding lookup remove_scheduled_from
  remove_scheduled id s = elim (lookup "run-once" runners) [
    | none ↦ none
    | some runner ↦ some (
        removed (record s { world = runner.delete_schedule id s.world })
          (remove_scheduled_from id s.scheduled_tasks))
  ]

-- Registered keeps the id, which the storage then saves; Disconnected forgets the driver.
unfoldable pub registered : {S Offer : Type 0} → String → Scheduler S Offer → Scheduler S Offer
registered id s = record s { framework_id = id; connected = true }

unfoldable pub reregistered : {S Offer : Type 0} → Scheduler S Offer → Scheduler S Offer
reregistered s = record s { connected = true }

unfoldable pub disconnected : {S Offer : Type 0} → Scheduler S Offer → Scheduler S Offer
disconnected s = record s { connected = false }

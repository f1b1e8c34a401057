-- ===== src/Scheduler/Timed.antt =====
-- mesosrunners/time_scheduler.go: the jobs that the run-once runner gives to the cron library.
use stack_deploy.Prelude.{String, ◌&&◌, not, ◌==◌, if◌then◌else◌}
use stack_deploy.Prelude.Int.{ℤ, pos}
use stack_deploy.Application.{Application}

-- A job stages the application, or adds another job to the cron library.
pub data Job : Type 0 where
  stage : Application → Job
  add_job : (spec : String) → Job → Job

-- `add` is AddFunc: it gives the id of the job. Its error is ignored by the callers.
module _ {C : Type 0} (add : String → Job → C → C × ℤ) where
  unfoldable pub start_with_schedule : Application → C → C × ℤ
  start_with_schedule a cron = add a.start_time (add_job a.time_schedule (stage a)) cron

  unfoldable pub start_only : Application → C → C × ℤ
  start_only a cron = add a.start_time (stage a) cron

  unfoldable pub schedule_only : Application → C → C × ℤ
  schedule_only a cron = add a.time_schedule (stage a) cron

  -- ScheduleApplication; the channel has a nil error at once. The three tests exclude each other.
  unfoldable pub schedule_application : Application → C → C × ℤ
  unfolding start_with_schedule start_only schedule_only
  schedule_application a cron =
      let starts = not (a.start_time == "") in
      let repeats = not (a.time_schedule == "") in
      if starts && repeats
      then start_with_schedule a cron
      else if starts && not repeats
      then start_only a cron
      else if not starts && repeats
      then schedule_only a cron
      else (cron, pos 0)

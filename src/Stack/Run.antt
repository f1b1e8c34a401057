-- ===== src/Stack/Run.antt =====
-- Stack.Run: the applications of a stack are started as their dependencies come to run, each in a
-- goroutine of its own, which reports over the channel `statuses`. The main goroutine and the others
-- interleave: an `Event` is one step of one of them, and a run is a list of events.
pub mod Trace
pub mod Safety
pub mod Live
pub mod Launches
pub mod Progress
pub mod Skipping
pub mod Endings
pub mod Settling
mod Tests
use stack_deploy.Prelude.{
  ℕ, suc, String, Bool, true, false, Option, none, some, List, [], ◌∷◌, ◌++◌, length, ltb, ◌==◌,
  if◌then◌else◌,
}
use stack_deploy.Map.{Map, lookup, insert}
use stack_deploy.Variables.{Variables, set_stack_variable}
use stack_deploy.Constraints.{Regexps}
use stack_deploy.Application.{
  Application, ApplicationStatus, staging, running, failed, Error, Failure, is_running,
  is_dependency_satisfied,
}
use stack_deploy.Stack.{Stack}
use stack_deploy.Stack.Validate.{validate_stack}

-- ApplicationRunStatus
pub record RunStatus : Type 0 where
  pub application : Application
  pub error : Failure

pub data RunError : Type 0 where
  invalid_application : String → Error → RunError
  marathon_info : Error → RunError
  bad_pattern : String → RunError
  application_failed : String → Error → RunError
  save_failed : Error → RunError

-- What the run does to the outside world: goroutines that it starts, calls of the state storage.
pub data Effect : Type 0 where
  start : Application → Effect
  save_application_status : String → ApplicationStatus → Effect
  save_stack_variables : Effect

-- How the main goroutine ended. `panicked` is a send on the closed channel.
pub data Outcome : Type 0 where
  returned : Option RunError → Outcome
  panicked : Outcome

pub record RunState : Type 0 where
  pub running_apps : Map ApplicationStatus
  pub in_flight : List Application
  pub statuses : List RunStatus
  pub trace : List Effect
  pub outcome : Option Outcome

-- `runningApps[app.ID] = ApplicationStatusStaging; go s.runApplication(...)`. The trace has its
-- newest effect first.
abbrev pub launch : Application → RunState → RunState
launch app st = record st {
  running_apps = insert app.id staging st.running_apps;
  in_flight = app ∷ st.in_flight;
  trace = start app ∷ st.trace;
}

-- The body of the loop in runApplications.
pub consider : Application → RunState → RunState
consider app st = elim (lookup app.id st.running_apps) [
  | some state ↦ st
  | none ↦ if is_dependency_satisfied app st.running_apps then launch app st else st
]

-- runApplications
pub run_applications : Map Application → RunState → RunState
run_applications [] st = st
run_applications ((name, app) ∷ apps) st = run_applications apps (consider app st)

pub all_applications_running : Map Application → Map ApplicationStatus → Bool
unfolding is_running
all_applications_running [] apps = true
all_applications_running ((name, app) ∷ rest) apps = elim (lookup app.id apps) [
  | none ↦ false
  | some state ↦ if is_running state then all_applications_running rest apps else false
]

-- The step of a goroutine whose application ends: it sends on `statuses`, and waits while the
-- channel, which has room for one status of each application, is full.
abbrev take_out : String → List Application → Option (Application × List Application)
take_out id [] = none
take_out id (app ∷ apps) =
    let rest = take_out id apps in
    if app.id == id
    then some (app, apps)
    else elim rest [ none ↦ none | some (found, others) ↦ some (found, app ∷ others) ]

abbrev is_closed : Option Outcome → Bool
is_closed (some (returned none)) = true
is_closed (some panicked) = true
is_closed _ = false

unfoldable pub finish : Stack → String → Failure → RunState → RunState
finish s id error st = elim (take_out id st.in_flight) [
  | none ↦ st
  | some (app, others) ↦
      if is_closed st.outcome
      then record st { outcome = some panicked }
      else if ltb (length st.statuses) (length s.applications)
      then record st {
        in_flight = others;
        statuses = st.statuses ++ record { application = app; error = error } ∷ [];
      }
      else st
]

abbrev stop : Option RunError → RunState → RunState
stop e st = record st { outcome = some (returned e) }

-- The body of the loop over `statuses`, once an application is known to run and its status and the
-- variables are saved: `close(statuses); return nil`, or go on.
pub after_save : Stack → RunState → RunState
unfolding all_applications_running run_applications
after_save s st =
    if all_applications_running s.applications st.running_apps
    then stop none st
    else run_applications s.applications st

-- `saved` and `variables_saved` are what the calls of the state storage return.
unfoldable pub handle_status : Stack → Failure → Failure → RunStatus → RunState → RunState
unfolding after_save
handle_status s saved variables_saved status st =
    let id = status.application.id in
    elim status.error [
      | some e ↦
          stop (some (application_failed id e))
            (record st { trace = save_application_status id failed ∷ st.trace })
      | none ↦
          let st' = record st {
            running_apps = insert id running st.running_apps;
            trace = save_application_status id running ∷ st.trace;
          } in
          elim saved [
            | some e ↦ stop (some (save_failed e)) st'
            | none ↦
                let st'' = record st' { trace = save_stack_variables ∷ st'.trace } in
                elim variables_saved [
                  | some e ↦ stop (some (save_failed e)) st''
                  | none ↦ after_save s st''
                ]
          ]
    ]

-- The step of the main goroutine: it takes the oldest status, and waits while there is none.
unfoldable pub receive : Stack → Failure → Failure → RunState → RunState
unfolding handle_status
receive s saved variables_saved st = elim st.outcome [
  | some o ↦ st
  | none ↦ elim st.statuses [
    | [] ↦ st
    | status ∷ rest ↦ handle_status s saved variables_saved status (record st { statuses = rest })
  ]
]

pub data Event : Type 0 where
  finishes : String → Failure → Event
  receives : Failure → Failure → Event

unfoldable pub step : Stack → RunState → Event → RunState
unfolding finish receive
step s st (finishes id error) = finish s id error st
step s st (receives saved variables_saved) = receive s saved variables_saved st

unfoldable pub run_events : Stack → RunState → List Event → RunState
unfolding step
run_events s st [] = st
run_events s st (e ∷ es) = run_events s (step s st e) es

-- markSkippedApps. It sends on `statuses` while nothing receives yet.
pub data Marked : Type 0 where
  marked : Map ApplicationStatus → List RunStatus → Marked
  failed_with : RunError → Marked
  blocked : Marked

pub mark_matching :
    Regexps → ℕ → String → Map Application → Map ApplicationStatus → List RunStatus → Marked
mark_matching re room pattern [] apps statuses = marked apps statuses
mark_matching re room pattern ((name, app) ∷ rest) apps statuses =
    let next =
      mark_matching re room pattern rest (insert app.id running apps)
        (statuses ++ record { application = app; error = none } ∷ []) in
    let skip = mark_matching re room pattern rest apps statuses in
    if re.match_string pattern app.id
    then (if ltb (length statuses) room then next else blocked)
    else skip

-- The rest of the loop, unless it has ended.
abbrev pub and_then : Marked → (Map ApplicationStatus → List RunStatus → Marked) → Marked
and_then (marked apps statuses) next = next apps statuses
and_then (failed_with e) next = failed_with e
and_then blocked next = blocked

unfoldable pub mark_skipped_apps :
    Regexps → Stack → List String → Map ApplicationStatus → List RunStatus → Marked
mark_skipped_apps re s [] apps statuses = marked apps statuses
mark_skipped_apps re s (pattern ∷ patterns) apps statuses =
    if re.compiles pattern
    then and_then (mark_matching re (length s.applications) pattern s.applications apps statuses)
        (mark_skipped_apps re s patterns)
    else failed_with (bad_pattern pattern)

-- The run up to its loop. `info` is Marathon's answer: the address of the Mesos master.
pub data Started : Type 0 where
  refused : RunError → Started
  stuck : Started
  looping : Variables → RunState → Started

pub data Info : Type 0 where
  master : String → Info
  no_info : Error → Info

unfoldable pub prepare_variables : String → String → String → Variables → Variables
prepare_variables mesos_master zone stack_name v =
    set_stack_variable "stack" stack_name
      (set_stack_variable "zone" zone (set_stack_variable "mesos.master" mesos_master v))

unfoldable pub begin_loop : Stack → Variables → Marked → Started
unfolding run_applications
begin_loop s v (failed_with e) = refused e
begin_loop s v blocked = stuck
begin_loop s v (marked apps statuses) = looping v (
    run_applications s.applications (record {
      running_apps = apps;
      in_flight = [];
      statuses = statuses;
      trace = [];
      outcome = none;
    }))

unfoldable pub begin_run :
    Regexps → List String → Stack → List String → String → String → Info → Variables → Started
unfolding validate_stack mark_skipped_apps prepare_variables begin_loop
begin_run re runners s skip zone stack_name info v = elim (validate_stack re runners s) [
  | some (name, e) ↦ refused (invalid_application name e)
  | none ↦ elim info [
    | no_info e ↦ refused (marathon_info e)
    | master address ↦
        begin_loop s (prepare_variables address zone stack_name v)
          (mark_skipped_apps re s skip [] [])
  ]
]

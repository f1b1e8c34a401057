-- ===== src/Stack/Run/Safety.antt =====
-- Whatever the order in which applications end and statuses are taken, applications are started in
-- the order of their dependencies, and once.
use stack_deploy.Prelude.{
  String, ◌≡◌, refl, inl, inr, Option, some, none, List, [], ◌∷◌, arith, eq_iff, ◌≤◌, Bool-cases,
}
use stack_deploy.Map.{Map, insert, lookup-insert}
use stack_deploy.Application.{Application, ApplicationStatus, running, failed, is_running, Failure}
use stack_deploy.Stack.{Stack}
use stack_deploy.Stack.Run.{
  RunStatus, RunState, RunError, Event, finishes, receives, save_application_status,
  save_stack_variables, Outcome, finish, receive, handle_status, after_save, stop, step, run_events,
  run_applications, all_applications_running,
}
use stack_deploy.Stack.Run.Trace.{Inv, IsOrdered, starts, run_applications-Inv}

-- The state of a run when its loop begins.
unfoldable pub initial : Stack → Map ApplicationStatus → List RunStatus → RunState
initial s skipped statuses = run_applications s.applications (record {
  running_apps = skipped;
  in_flight = [];
  statuses = statuses;
  trace = [];
  outcome = none;
})

pub initial-Inv :
    (s : Stack) (skipped : Map ApplicationStatus) (statuses : List RunStatus)
    → Inv skipped (initial s skipped statuses)
unfolding initial
initial-Inv s skipped statuses = run_applications-Inv skipped s.applications _ (record {
  backed = λ id e. inl e;
  ordered = tt;
  once = λ id. omega arith;
  fresh = λ id e. omega arith;
})

module _ (skipped : Map ApplicationStatus) where
  -- A step that leaves the map and the trace as they are.
  Inv-same :
      (st st' : RunState)
      → st'.running_apps ≡ st.running_apps
      → st'.trace ≡ st.trace
      → Inv skipped st
      → Inv skipped st'
  Inv-same st st' e f v = record {
    backed = λ id h. rw f (v.backed id (rw e at h));
    ordered = rw f v.ordered;
    once = λ id. rw f (v.once id);
    fresh = λ id h. rw f (v.fresh id (rw e at h));
  }

  finish-Inv :
      (s : Stack) (id : String) (error : Failure) (st : RunState)
      → Inv skipped st
      → Inv skipped (finish s id error st)
  unfolding finish
  finish-Inv s id error st v = Inv-same st _ (ground arith) (ground arith) v

  failed-Inv :
      (id : String) (e : Option RunError) (st : RunState)
      → Inv skipped st
      → Inv skipped (stop e (record st { trace = save_application_status id failed ∷ st.trace }))
  unfolding is_running
  failed-Inv id e st v = record {
    backed = v.backed;
    ordered = v.ordered;
    once = v.once;
    fresh = v.fresh;
  }

  -- An application that is reported to run is saved as running.
  running-Inv :
      (id : String) (st : RunState)
      → Inv skipped st
      → Inv skipped (record st {
        running_apps = insert id running st.running_apps;
        trace = save_application_status id running ∷ st.trace;
      })
  unfolding is_running
  running-Inv id st v = record {
    backed =
        λ j h. ground (arith, eq_iff id j, lookup-insert id j running st.running_apps, v.backed j);
    ordered = v.ordered;
    once = v.once;
    fresh =
        λ j h. ground (arith, eq_iff id j, lookup-insert id j running st.running_apps, v.fresh j);
  }

  after_save-Inv : (s : Stack) (st : RunState) → Inv skipped st → Inv skipped (after_save s st)
  unfolding after_save
  after_save-Inv s st v =
      elim (Bool-cases (all_applications_running s.applications st.running_apps)) [
        | inl done ↦ rw done (Inv-same st _ refl refl v)
        | inr more ↦ rw more (run_applications-Inv skipped s.applications st v)
      ]

  variables-Inv :
      (st : RunState)
      → Inv skipped st
      → Inv skipped (record st { trace = save_stack_variables ∷ st.trace })
  variables-Inv st v = record {
    backed = v.backed;
    ordered = v.ordered;
    once = v.once;
    fresh = v.fresh;
  }

  handle_status-Inv :
      (s : Stack) (saved variables_saved : Failure) (app : Application) (error : Failure)
      (st : RunState)
      → Inv skipped st
      → Inv skipped
          (handle_status s saved variables_saved (record { application = app; error = error }) st)
  unfolding handle_status
  handle_status-Inv s saved variables_saved app (some e) st v = failed-Inv app.id _ st v
  handle_status-Inv s (some e) variables_saved app none st v =
      Inv-same _ _ refl refl (running-Inv app.id st v)
  handle_status-Inv s none (some e) app none st v =
      Inv-same _ _ refl refl (variables-Inv _ (running-Inv app.id st v))
  handle_status-Inv s none none app none st v =
      after_save-Inv s _ (variables-Inv _ (running-Inv app.id st v))

  receive-Inv :
      (s : Stack) (saved variables_saved : Failure) (o : Option Outcome) (ss : List RunStatus)
      (st : RunState)
      → st.outcome ≡ o
      → st.statuses ≡ ss
      → Inv skipped st
      → Inv skipped (receive s saved variables_saved st)
  unfolding receive
  receive-Inv s saved variables_saved (some o) ss st e f v = rw (e, receive) v
  receive-Inv s saved variables_saved none [] st e f v = rw (e, receive) (rw (f, receive) v)
  receive-Inv s saved variables_saved none (status ∷ rest) st e f v =
      rw (e, receive)
        (rw (f, receive)
          (handle_status-Inv s saved variables_saved status.application status.error _
            (Inv-same st _ refl refl v)))

  step-Inv : (s : Stack) (st : RunState) (e : Event) → Inv skipped st → Inv skipped (step s st e)
  unfolding step
  step-Inv s st (finishes id error) v = finish-Inv s id error st v
  step-Inv s st (receives saved variables_saved) v =
      receive-Inv s saved variables_saved st.outcome st.statuses st refl refl v

  pub run_events-Inv :
      (s : Stack) (st : RunState) (es : List Event)
      → Inv skipped st
      → Inv skipped (run_events s st es)
  unfolding run_events
  run_events-Inv s st [] v = v
  run_events-Inv s st (e ∷ es) v = run_events-Inv s (step s st e) es (step-Inv s st e v)

-- After any events, in any order, each application of the run was started only after every one of
-- its dependencies had been skipped or saved as running.
pub run_events-IsOrdered :
    (s : Stack) (skipped : Map ApplicationStatus) (statuses : List RunStatus) (es : List Event)
    → IsOrdered skipped (run_events s (initial s skipped statuses) es).trace
run_events-IsOrdered s skipped statuses es =
    (run_events-Inv skipped s _ es (initial-Inv s skipped statuses)).ordered

-- After any events, in any order, no application id was started more than once.
pub run_events-starts :
    (s : Stack) (skipped : Map ApplicationStatus) (statuses : List RunStatus) (es : List Event)
    (id : String)
    → starts id (run_events s (initial s skipped statuses) es).trace ≤ 1
run_events-starts s skipped statuses es id =
    (run_events-Inv skipped s _ es (initial-Inv s skipped statuses)).once id

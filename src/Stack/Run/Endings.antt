-- ===== src/Stack/Run/Endings.antt =====
-- How a run ends, whatever the order of its events.
use stack_deploy.Prelude.{
  ℕ, ◌+◌, ◌<◌, String, ◌≡◌, ◌≢◌, refl, some, none, List, [], ◌∷◌, arith, All, All-map, length, ap,
  ◌≤◌,
}
use stack_deploy.Map.{Map, lookup}
use stack_deploy.Application.{Application, ApplicationStatus, staging, running, failed}
use stack_deploy.Stack.{Stack}
use stack_deploy.Stack.Run.{
  RunStatus, RunState, Event, finishes, receives, returned, panicked, step, run_events, take_out,
  finish, receive, run_applications,
}
use stack_deploy.Stack.Run.Trace.{RanBefore}
use stack_deploy.Stack.Run.Safety.{initial, run_events-Inv, initial-Inv}
use stack_deploy.Stack.Run.Skipping.{IsMarked}
use stack_deploy.Stack.Run.Live.{run_applications-IsTracked, flights, queued}
use stack_deploy.Stack.Run.Progress.{IsRanked, IsLive-progress, all_running_lem}
use stack_deploy.Stack.Run.Progress.Sound.{
  IsSound, HasId-self, run_applications_members, launched-IsLive,
}
use stack_deploy.Stack.Run.Progress.Finish.{finish-IsSound}
use stack_deploy.Stack.Run.Progress.Receive.{receive-IsSound}
use stack_deploy.Stack.Run.Launches.{run_applications-Launches}

queued-le-length : (id : String) (ss : List RunStatus) → queued id ss ≤ length ss
queued-le-length id [] = omega arith
queued-le-length id (x ∷ ss) = ground (arith, queued-le-length id ss)

module _ (skipped : Map ApplicationStatus) (statuses : List RunStatus)
    (m : IsMarked skipped statuses) where
  some_status :
      (apps : Map Application)
      → apps ≢ []
      → All (λ row. lookup row.1.id skipped ≡ some running) apps
      → 0 < length statuses
  some_status [] ne h = absurd (ne refl)
  some_status ((name, app) ∷ apps) ne h =
      omega (arith, (m.marks app.id running h.0).1, queued-le-length app.id statuses)

module _ (s : Stack) (skipped : Map ApplicationStatus) (statuses : List RunStatus)
    (marked : IsMarked skipped statuses) (some_app : s.applications ≢ []) where
  pub initial-IsSound : IsSound s.applications (initial s skipped statuses)
  unfolding initial
  initial-IsSound = record {
    tracked = run_applications-IsTracked s.applications _ (record {
      flying = λ id h. absurd (omega arith);
      single = λ id. omega arith;
      apart = λ id h. absurd (omega arith);
      unknown = λ id h. marked.unmarked id h;
    });
    members =
        run_applications_members s.applications s.applications _ (HasId-self s.applications)
          (λ id h. absurd (omega arith));
    live = λ h.
        launched-IsLive s.applications _ (λ id h. cc ((marked.marks id staging h).0))
          (λ all.
            some_status skipped statuses marked s.applications some_app
              (all_running_lem s.applications skipped all))
          (λ id h. cc ((marked.marks id failed h).0));
    landed = λ h. cc ((run_applications-Launches s.applications _).outcome);
    complete = λ h. cc ((run_applications-Launches s.applications _).outcome);
    calm = λ h. cc ((run_applications-Launches s.applications _).outcome);
  }

  step-IsSound :
      (st : RunState) (e : Event) → IsSound s.applications st → IsSound s.applications (step s st e)
  unfolding step
  step-IsSound st (finishes id error) v = finish-IsSound s id error st v
  step-IsSound st (receives saved variables_saved) v =
      receive-IsSound s saved variables_saved st.outcome st.statuses st refl refl v

  events-IsSound :
      (st : RunState) (es : List Event)
      → IsSound s.applications st
      → IsSound s.applications (run_events s st es)
  unfolding run_events
  events-IsSound st [] v = v
  events-IsSound st (e ∷ es) v = events-IsSound (step s st e) es (step-IsSound st e v)

  run-IsSound :
      (es : List Event) → IsSound s.applications (run_events s (initial s skipped statuses) es)
  run-IsSound es = events-IsSound _ es initial-IsSound

-- In a stack with an application, whose dependencies are applications of the stack without a cycle,
-- a run that has not ended has an application in flight or a status to receive, after any events;
-- the skipped applications and the channel being as markSkippedApps leaves them.
pub run_events-progress :
    (s : Stack) (rank : String → ℕ) (skipped : Map ApplicationStatus) (statuses : List RunStatus)
    (es : List Event)
    → s.applications ≢ []
    → IsRanked rank s.applications
    → IsMarked skipped statuses
    → (run_events s (initial s skipped statuses) es).outcome ≡ none
    → 0
      < length (run_events s (initial s skipped statuses) es).in_flight
        + length (run_events s (initial s skipped statuses) es).statuses
run_events-progress s rank skipped statuses es ne ranked m o =
    IsLive-progress rank s.applications _ ranked ((run-IsSound s skipped statuses m ne es).live o)

-- After any events of a run of a stack with an application, nothing has been sent on the closed
-- channel; the skipped applications and the channel being as markSkippedApps leaves them.
pub run_events-calm :
    (s : Stack) (skipped : Map ApplicationStatus) (statuses : List RunStatus) (es : List Event)
    → s.applications ≢ []
    → IsMarked skipped statuses
    → (run_events s (initial s skipped statuses) es).outcome ≢ some panicked
run_events-calm s skipped statuses es ne m = (run-IsSound s skipped statuses m ne es).calm

-- When a run of a stack with an application has returned nil, no application is in flight; the
-- skipped applications and the channel being as markSkippedApps leaves them.
pub run_events-landed :
    (s : Stack) (skipped : Map ApplicationStatus) (statuses : List RunStatus) (es : List Event)
    (id : String)
    → s.applications ≢ []
    → IsMarked skipped statuses
    → (run_events s (initial s skipped statuses) es).outcome ≡ some (returned none)
    → flights id (run_events s (initial s skipped statuses) es).in_flight ≡ 0
run_events-landed s skipped statuses es id ne m o =
    (run-IsSound s skipped statuses m ne es).landed o id

-- When a run of a stack with an application has returned nil, every application of the stack was
-- skipped or saved as running; the skipped applications and the channel being as markSkippedApps
-- leaves them.
pub run_events-RanBefore :
    (s : Stack) (skipped : Map ApplicationStatus) (statuses : List RunStatus) (es : List Event)
    → s.applications ≢ []
    → IsMarked skipped statuses
    → (run_events s (initial s skipped statuses) es).outcome ≡ some (returned none)
    → All
        (λ row. RanBefore skipped (run_events s (initial s skipped statuses) es).trace row.1.id)
        s.applications
run_events-RanBefore s skipped statuses es ne m o =
    All-map _ _
      (λ row. (run_events-Inv skipped s _ es (initial-Inv s skipped statuses)).backed row.1.id)
      s.applications
      (all_running_lem s.applications _ ((run-IsSound s skipped statuses m ne es).complete o))

empty_step :
    (s : Stack) (st : RunState) (e : Event)
    → (st.in_flight ≡ []) × (st.statuses ≡ []) × (st.outcome ≡ none)
    → step s st e ≡ st
unfolding step finish receive
empty_step s st (finishes id error) (f, g, o) = ground (arith, ap (take_out id) f)
empty_step s st (receives saved variables_saved) (f, g, o) = ground arith

initial_empty :
    (s : Stack)
    → s.applications ≡ []
    → let st = initial s [] [] in (st.in_flight ≡ []) × (st.statuses ≡ []) × (st.outcome ≡ none)
unfolding initial run_applications
initial_empty s e = rw e (refl, refl, refl)

-- A run of a stack with no applications waits for ever: no events change its state, and it has not
-- returned.
pub run_events_empty :
    (s : Stack) (es : List Event)
    → s.applications ≡ []
    → (run_events s (initial s [] []) es ≡ initial s [] []) × ((initial s [] []).outcome ≡ none)
unfolding run_events
run_events_empty s [] e = (refl, (initial_empty s e).2)
run_events_empty s (x ∷ es) e =
    rw (empty_step s (initial s [] []) x (initial_empty s e)) (run_events_empty s es e)

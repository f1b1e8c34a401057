-- ===== src/Stack/Run/Settling.antt =====
-- A run in which nothing fails comes to its end.
pub mod Weight
pub mod Well
use stack_deploy.Prelude.{
  ℕ, zero, suc, ◌+◌, ◌*◌, ◌<◌, ◌≤◌, String, ◌≡◌, ◌≢◌, refl, ◌⊎◌, inl, inr, Bool, true, false,
  Option, some, none, List, [], ◌∷◌, ◌++◌, arith, ◌==◌, ap, eq_iff, eq_refl, All, All-append,
  length, length-append, length_pos, lt→ltb, ltb, if◌then◌else◌, Option-cases, Bool-cases, subst,
  ◌∙◌,
}
use stack_deploy.Map.{Map, lookup, insert, lookup-insert}
use stack_deploy.Application.{Application, ApplicationStatus, staging, running, Failure}
use stack_deploy.Stack.{Stack}
use stack_deploy.Stack.Run.{
  RunStatus, RunState, Event, save_application_status, save_stack_variables, finishes, receives,
  Outcome, returned, panicked, step, run_events, finish, receive, handle_status, after_save,
  take_out, is_closed, consider, launch, run_applications, all_applications_running,
}
use stack_deploy.Stack.Run.Trace.{consider_cases}
use stack_deploy.Stack.Run.Safety.{initial}
use stack_deploy.Stack.Run.Launches.{run_applications-Launches}
use stack_deploy.Stack.Run.Skipping.{IsMarked}
use stack_deploy.Stack.Run.Progress.{HasId, IsRanked, IsLive, IsLive-progress}
use stack_deploy.Stack.Run.Progress.Finish.{finish-IsSound}
use stack_deploy.Stack.Run.Progress.Receive.{receive-IsSound}
use stack_deploy.Stack.Run.Progress.Sound.{IsSound, HasId-self}
use stack_deploy.Stack.Run.Endings.{initial-IsSound}
use stack_deploy.Stack.Run.Settling.Weight.{
  one_if_none, fresh, weight, fresh-insert-le, run_applications-weight, finish-weight,
  finish-weight-le, fresh-le-length,
}
use stack_deploy.Stack.Run.Settling.Well.{
  IsSmooth, IsWell, finish-IsWell, receive-GoesOn, receive_cases-IsWell, events-IsWell, GoesOn,
}

-- A schedule of the goroutines: the main one whenever it has a status to receive, and else an
-- application in flight, which ends well. `rounds` bounds the number of steps.
abbrev event_for : List RunStatus → List Application → List Event
event_for (status ∷ rest) flying = receives none none ∷ []
event_for [] (app ∷ others) = finishes app.id none ∷ []
event_for [] [] = []

abbrev unless_over : Option Outcome → RunState → RunState → RunState
unless_over (some o) st next = st
unless_over none st next = next

abbrev advance : Stack → RunState → RunState
advance s st = unless_over st.outcome st (run_events s st (event_for st.statuses st.in_flight))

unfoldable pub drive : ℕ → Stack → RunState → RunState
drive zero s st = st
drive (suc rounds) s st = drive rounds s (advance s st)

advance_over : (s : Stack) (st : RunState) (o : Outcome) → st.outcome ≡ some o → advance s st ≡ st
advance_over s st o h =
    ap (λ x. unless_over x st (run_events s st (event_for st.statuses st.in_flight))) h

advance_on :
    (s : Stack) (st : RunState)
    → st.outcome ≡ none
    → advance s st ≡ run_events s st (event_for st.statuses st.in_flight)
advance_on s st h =
    ap (λ x. unless_over x st (run_events s st (event_for st.statuses st.in_flight))) h

drive_over :
    (rounds : ℕ) (s : Stack) (st : RunState) (o : Outcome)
    → st.outcome ≡ some o
    → drive rounds s st ≡ st
unfolding drive
drive_over zero s st o h = refl
drive_over (suc rounds) s st o h =
    ap (drive rounds s) (advance_over s st o h) ∙ drive_over rounds s st o h

module _ (rank : String → ℕ) (s : Stack) (some_app : s.applications ≢ [])
    (ranked : IsRanked rank s.applications) where
  advance-weight :
      (ss : List RunStatus) (flying : List Application) (st : RunState)
      → IsWell s.applications st
      → st.outcome ≡ none
      → st.statuses ≡ ss
      → st.in_flight ≡ flying
      → weight s.applications (run_events s st (event_for ss flying)) < weight s.applications st
  unfolding run_events step
  advance-weight [] [] st w o e f = absurd (
      omega (
        arith,
        IsLive-progress rank s.applications st ranked (w.sound.live o),
        ap length e,
        ap length f,
      ))
  advance-weight [] (app ∷ others) st w o e f = finish-weight s app others st some_app o e f
  advance-weight (status ∷ rest) flying st w o e f =
      let (same, ended, light) = receive-GoesOn s status rest st w o e in
      omega (arith, light, ap length e)

  event_for-IsSmooth :
      (ss : List RunStatus) (flying : List Application) → IsSmooth (event_for ss flying)
  event_for-IsSmooth (status ∷ rest) flying = (refl, refl, tt)
  event_for-IsSmooth [] (app ∷ others) = (refl, tt)
  event_for-IsSmooth [] [] = tt

  drive-returns :
      (rounds : ℕ) (st : RunState)
      → IsWell s.applications st
      → weight s.applications st ≤ rounds
      → (drive rounds s st).outcome ≡ some (returned none)
  unfolding drive
  drive-returns zero st w light = elim w.unfailed [
    | inr over ↦ over
    | inl o ↦ absurd (omega (arith, IsLive-progress rank s.applications st ranked (w.sound.live o)))
  ]
  drive-returns (suc rounds) st w light = elim w.unfailed [
    | inr over ↦ ap (λ x. x.outcome) (drive_over (suc rounds) s st (returned none) over) ∙ over
    | inl o ↦
        ap (λ x. (drive rounds s x).outcome) (advance_on s st o)
        ∙ drive-returns rounds (run_events s st (event_for st.statuses st.in_flight))
            (events-IsWell s st _ (event_for-IsSmooth st.statuses st.in_flight) w)
            (omega (arith, advance-weight st.statuses st.in_flight st w o refl refl))
  ]

-- No smooth event adds work.
receive-weight-le :
    (s : Stack) (o : Option Outcome) (ss : List RunStatus) (st : RunState)
    → st.outcome ≡ o
    → st.statuses ≡ ss
    → IsWell s.applications st
    → weight s.applications (receive s none none st) ≤ weight s.applications st
unfolding receive
receive-weight-le s (some o) ss st e f w = rw (e, receive) (omega arith)
receive-weight-le s none [] st e f w =
    rw (e, receive) (rw (f, receive) (omega (arith, ap length f)))
receive-weight-le s none (status ∷ rest) st e f w =
    let (same, ended, light) = receive-GoesOn s status rest st w e f in
    omega (arith, light, ap length f, ap length same)

events-weight-le :
    (s : Stack) (st : RunState) (es : List Event)
    → IsSmooth es
    → IsWell s.applications st
    → weight s.applications (run_events s st es) ≤ weight s.applications st
unfolding run_events step
events-weight-le s st [] h w = omega arith
events-weight-le s st (finishes id (some x) ∷ es) h w = cc (h.0)
events-weight-le s st (finishes id none ∷ es) h w = omega (
  arith,
  events-weight-le s (finish s id none st) es h.1 (finish-IsWell s id st w),
  finish-weight-le s id st,
)
events-weight-le s st (receives (some x) v ∷ es) h w = cc (h.0)
events-weight-le s st (receives none (some x) ∷ es) h w = cc (h.1)
events-weight-le s st (receives none none ∷ es) h w = omega (
  arith,
  events-weight-le s (receive s none none st) es h.2
      (receive_cases-IsWell s st.outcome st.statuses st refl refl w),
  receive-weight-le s st.outcome st.statuses st refl refl w,
)

module _ (s : Stack) (skipped : Map ApplicationStatus) (statuses : List RunStatus)
    (marked : IsMarked skipped statuses) (some_app : s.applications ≢ []) where
  abbrev before_loop : RunState
  before_loop = record {
    running_apps = skipped;
    in_flight = [];
    statuses = statuses;
    trace = [];
    outcome = none;
  }

  initial-IsWell : IsWell s.applications (initial s skipped statuses)
  unfolding initial
  initial-IsWell =
      let l = run_applications-Launches s.applications before_loop in
      record {
        sound = initial-IsSound s skipped statuses marked some_app;
        errorless = rw l.statuses marked.errorless;
        unfailed = inl l.outcome;
      }

  initial-weight :
      weight s.applications (initial s skipped statuses)
      ≤ 3 * length s.applications + length statuses
  unfolding initial
  initial-weight = omega (
    arith,
    run_applications-weight s.applications s.applications before_loop (HasId-self s.applications),
    fresh-le-length skipped s.applications,
  )

-- A run whose applications do not fail returns nil: in a stack with applications whose dependencies
-- are applications of the stack without a cycle, with the skipped applications and the channel as
-- markSkippedApps leaves them, after any events without a failure, enough rounds of finishing an
-- application and receiving a status end the run; three times the applications and the statuses
-- waiting are enough.
pub run_events-returns :
    (rank : String → ℕ) (s : Stack) (skipped : Map ApplicationStatus) (statuses : List RunStatus)
    (es : List Event) (rounds : ℕ)
    → s.applications ≢ []
    → IsRanked rank s.applications
    → IsMarked skipped statuses
    → IsSmooth es
    → 3 * length s.applications + length statuses ≤ rounds
    → (drive rounds s (run_events s (initial s skipped statuses) es)).outcome ≡ some (returned none)
run_events-returns rank s skipped statuses es rounds ne ranked marked smooth enough =
    let first = initial-IsWell s skipped statuses marked ne in
    drive-returns rank s ne ranked rounds (run_events s (initial s skipped statuses) es)
      (events-IsWell s (initial s skipped statuses) es smooth first)
      (omega (
        arith,
        events-weight-le s (initial s skipped statuses) es smooth first,
        initial-weight s skipped statuses marked ne,
      ))

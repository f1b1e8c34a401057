-- ===== src/Stack/Run/Progress/Receive.antt =====
-- The main goroutine keeps the invariant.
use stack_deploy.Prelude.{
  ◌+◌, ◌<◌, String, ◌≡◌, ◌≢◌, inl, inr, true, Option, some, none, List, [], ◌∷◌, arith, ap, eq_iff,
  lt_or_le, Bool-cases,
}
use stack_deploy.Map.{Map, lookup, insert, lookup-insert}
use stack_deploy.Application.{Application, staging, running, failed, Failure}
use stack_deploy.Stack.{Stack}
use stack_deploy.Stack.Run.{
  RunStatus, RunState, Effect, RunError, Outcome, receive, handle_status, after_save, stop,
  all_applications_running,
}
use stack_deploy.Stack.Run.Live.{
  flights, queued, IsTracked, run_applications-IsTracked, take-IsTracked, drop-IsTracked,
}
use stack_deploy.Stack.Run.Launches.{run_applications-Launches}
use stack_deploy.Stack.Run.Progress.{All-HasId, IsLive, all_running_lem}
use stack_deploy.Stack.Run.Progress.Sound.{
  AreMembers, IsSound, HasId-self, run_applications_members, launched-IsLive,
}

module _ (s : Stack) where
  abbrev apps : Map Application
  apps = s.applications

  -- An outcome other than `close(statuses)` ends the loop and asks for nothing more.
  stopped-IsSound :
      (e : RunError) (st : RunState)
      → IsTracked st
      → AreMembers apps st.in_flight
      → IsSound apps (stop (some e) st)
  stopped-IsSound e st t m = record {
    tracked = record { flying = t.flying; single = t.single; apart = t.apart; unknown = t.unknown };
    members = m;
    live = λ h. cc;
    landed = λ h. cc;
    complete = λ h. cc;
    calm = λ h. cc;
  }

  closed-IsSound :
      (st : RunState)
      → IsTracked st
      → AreMembers apps st.in_flight
      → all_applications_running apps st.running_apps ≡ true
      → IsSound apps (stop none st)
  closed-IsSound st t m done = record {
    tracked = record { flying = t.flying; single = t.single; apart = t.apart; unknown = t.unknown };
    members = m;
    live = λ h. cc;
    landed = λ h id. elim (lt_or_le 0 (flights id st.in_flight)) [
      | inl some_in_flight ↦ ground (
        arith,
        All-HasId (λ j. lookup j st.running_apps ≡ some running) apps id
            (all_running_lem apps st.running_apps done) (m id some_in_flight),
        t.flying id,
      )
      | inr none_in_flight ↦ omega arith
    ];
    complete = λ h. done;
    calm = λ h. cc;
  }

  after_save-IsSound :
      (st : RunState)
      → st.outcome ≡ none
      → IsTracked st
      → AreMembers apps st.in_flight
      → ((id : String)
          → lookup id st.running_apps ≡ some staging
          → 0 < flights id st.in_flight + queued id st.statuses)
      → ((id : String) → lookup id st.running_apps ≢ some failed)
      → IsSound apps (after_save s st)
  unfolding after_save
  after_save-IsSound st o t m acc ok =
      elim (Bool-cases (all_applications_running apps st.running_apps)) [
        | inl done ↦ rw done (closed-IsSound st t m done)
        | inr more ↦ rw more (record {
          tracked = run_applications-IsTracked apps st t;
          members = run_applications_members apps apps st (HasId-self apps) m;
          live = λ h. launched-IsLive apps st acc (λ all. cc) ok;
          landed = λ h. cc ((run_applications-Launches apps st).outcome);
          complete = λ h. cc ((run_applications-Launches apps st).outcome);
          calm = λ h. cc ((run_applications-Launches apps st).outcome);
        })
      ]

  IsTracked-trace :
      (st : RunState) (trace : List Effect) → IsTracked st → IsTracked (record st { trace = trace })
  IsTracked-trace st trace t = record {
    flying = t.flying;
    single = t.single;
    apart = t.apart;
    unknown = t.unknown;
  }

  -- The status of an application that runs is taken: what was staging and is not this one is still
  -- in flight or in the channel.
  taken-accounted :
      (app : Application) (error : Failure) (rest : List RunStatus) (st : RunState)
      → st.statuses ≡ record { application = app; error = error } ∷ rest
      → IsLive apps st
      → (id : String) → lookup id (insert app.id running st.running_apps) ≡ some staging
      → 0 < flights id st.in_flight + queued id rest
  taken-accounted app error rest st e l id h = ground (
    arith,
    eq_iff app.id id,
    ap (queued id) e,
    lookup-insert app.id id running st.running_apps,
    l.accounted id,
  )

  taken-unfailed :
      (app : Application) (st : RunState)
      → IsLive apps st
      → (id : String) → lookup id (insert app.id running st.running_apps) ≢ some failed
  taken-unfailed app st l id h =
      ground
        (arith, eq_iff app.id id, lookup-insert app.id id running st.running_apps, l.unfailed id)

  handle_status-IsSound :
      (saved variables_saved : Failure) (app : Application) (error : Failure)
      (rest : List RunStatus) (st : RunState)
      → st.statuses ≡ record { application = app; error = error } ∷ rest
      → st.outcome ≡ none
      → IsSound apps st
      → IsSound apps (
          handle_status s saved variables_saved
            (record { application = app; error = error })
            (record st { statuses = rest }))
  unfolding handle_status
  handle_status-IsSound saved variables_saved app (some x) rest st e o v =
      stopped-IsSound _ _ (IsTracked-trace _ _ (drop-IsTracked _ rest st e v.tracked)) v.members
  handle_status-IsSound (some x) variables_saved app none rest st e o v =
      stopped-IsSound _ _ (IsTracked-trace _ _ (take-IsTracked _ rest st e v.tracked)) v.members
  handle_status-IsSound none (some x) app none rest st e o v =
      stopped-IsSound _ _ (IsTracked-trace _ _ (take-IsTracked _ rest st e v.tracked)) v.members
  handle_status-IsSound none none app none rest st e o v =
      after_save-IsSound _ o (IsTracked-trace _ _ (take-IsTracked _ rest st e v.tracked)) v.members
        (taken-accounted app none rest st e (v.live o)) (taken-unfailed app st (v.live o))

  pub receive-IsSound :
      (saved variables_saved : Failure) (o : Option Outcome) (ss : List RunStatus) (st : RunState)
      → st.outcome ≡ o
      → st.statuses ≡ ss
      → IsSound apps st
      → IsSound apps (receive s saved variables_saved st)
  unfolding receive
  receive-IsSound saved variables_saved (some o) ss st e f v = rw (e, receive) v
  receive-IsSound saved variables_saved none [] st e f v = rw (e, receive) (rw (f, receive) v)
  receive-IsSound saved variables_saved none (status ∷ rest) st e f v =
      rw (e, receive)
        (rw (f, receive)
          (handle_status-IsSound saved variables_saved status.application status.error rest st f e
            v))

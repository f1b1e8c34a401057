-- ===== src/Stack/Run/Live.antt =====
-- What keeps a run alive: every application that is staging is in flight or has its status in the
-- channel, and no application that could be started is left.
use stack_deploy.Prelude.{
  ℕ, suc, ◌+◌, ◌<◌, ◌≤◌, String, ◌≡◌, inl, inr, some, none, List, [], ◌∷◌, ◌++◌, arith, ◌==◌, ap,
  eq_iff, if◌then◌else◌, Option-cases, Bool-cases,
}
use stack_deploy.Map.{Map, lookup, insert, lookup-insert}
use stack_deploy.Application.{Application, staging, running, Failure}
use stack_deploy.Stack.Run.{RunStatus, RunState, consider, launch, run_applications, take_out}
use stack_deploy.Stack.Run.Trace.{consider_cases}

abbrev pub flights : String → List Application → ℕ
flights id [] = 0
flights id (app ∷ apps) = let rest = flights id apps in if app.id == id then suc rest else rest

abbrev pub queued : String → List RunStatus → ℕ
queued id [] = 0
queued id (s ∷ ss) = let rest = queued id ss in if s.application.id == id then suc rest else rest

-- Where each application is, the loop running or not.
pub record IsTracked (st : RunState) : Type 0 where
  pub flying :
      (id : String) → 0 < flights id st.in_flight → lookup id st.running_apps ≡ some staging
  pub single : (id : String) → flights id st.in_flight ≤ 1
  pub apart : (id : String) → 0 < flights id st.in_flight → queued id st.statuses ≡ 0
  pub unknown : (id : String) → lookup id st.running_apps ≡ none → queued id st.statuses ≡ 0

pub queued-append :
    (id : String) (ss : List RunStatus) (s : RunStatus)
    → queued id (ss ++ s ∷ []) ≡ queued id ss + (if s.application.id == id then 1 else 0)
queued-append id [] s = ground arith
queued-append id (x ∷ xs) s = ground (arith, queued-append id xs s)

-- `take_out` takes one application of that id.
pub flights-take_out :
    (id other : String) (apps : List Application) (app : Application) (rest : List Application)
    → take_out id apps ≡ some (app, rest)
    → (app.id ≡ id) × (flights other apps ≡ flights other rest + (if id == other then 1 else 0))
flights-take_out id other [] app rest h = cc
flights-take_out id other (a ∷ more) app rest h = elim (Bool-cases (a.id == id)) [
  | inl hit ↦ ground (arith, eq_iff a.id id)
  | inr miss ↦ elim (Option-cases (take_out id more)) [
    | inl e ↦ ground arith
    | inr ((found, others), e) ↦ ground (arith, flights-take_out id other more found others e)
  ]
]

launch-IsTracked :
    (app : Application) (st : RunState)
    → lookup app.id st.running_apps ≡ none
    → IsTracked st
    → IsTracked (launch app st)
launch-IsTracked app st fresh t = record {
  flying = λ id h.
      ground
        (arith, eq_iff app.id id, lookup-insert app.id id staging st.running_apps, t.flying id);
  single = λ id. ground (arith, eq_iff app.id id, t.single id, t.flying id);
  apart = λ id h. ground (arith, eq_iff app.id id, t.apart id, t.unknown id);
  unknown = λ id h.
      ground
        (arith, eq_iff app.id id, lookup-insert app.id id staging st.running_apps, t.unknown id);
}

consider-IsTracked :
    (app : Application) (st : RunState) → IsTracked st → IsTracked (consider app st)
consider-IsTracked app st t = elim (consider_cases app st) [
  | inl (fresh, _, e) ↦ rw e (launch-IsTracked app st fresh t)
  | inr e ↦ rw e t
]

pub run_applications-IsTracked :
    (apps : Map Application) (st : RunState) → IsTracked st → IsTracked (run_applications apps st)
unfolding run_applications
run_applications-IsTracked [] st t = t
run_applications-IsTracked ((name, app) ∷ apps) st t =
    run_applications-IsTracked apps (consider app st) (consider-IsTracked app st t)

-- The goroutine's send moves its application from `in_flight` to the channel.
pub send-IsTracked :
    (id : String) (error : Failure) (app : Application) (others : List Application) (st : RunState)
    → take_out id st.in_flight ≡ some (app, others)
    → IsTracked st
    → IsTracked (record st {
      in_flight = others;
      statuses = st.statuses ++ record { application = app; error = error } ∷ [];
    })
send-IsTracked id error app others st taken t = record {
  flying = λ j h. ground (arith, flights-take_out id j st.in_flight app others taken, t.flying j);
  single = λ j. ground (arith, flights-take_out id j st.in_flight app others taken, t.single j);
  apart = λ j h. ground (
    arith,
    flights-take_out id j st.in_flight app others taken,
    eq_iff id j,
    t.single j,
    t.apart j,
    queued-append j st.statuses (record { application = app; error = error }),
  );
  unknown = λ j h. ground (
    arith,
    flights-take_out id j st.in_flight app others taken,
    eq_iff id j,
    t.flying j,
    t.unknown j,
    queued-append j st.statuses (record { application = app; error = error }),
  );
}

-- The main goroutine takes a status and learns that its application runs.
pub take-IsTracked :
    (status : RunStatus) (rest : List RunStatus) (st : RunState)
    → st.statuses ≡ status ∷ rest
    → IsTracked st
    → IsTracked (record st {
      statuses = rest;
      running_apps = insert status.application.id running st.running_apps;
    })
take-IsTracked status rest st e t = record {
  flying = λ j h. ground (
    arith,
    eq_iff status.application.id j,
    ap (queued j) e,
    lookup-insert status.application.id j running st.running_apps,
    t.flying j,
    t.apart j,
  );
  single = t.single;
  apart = λ j h. ground (arith, ap (queued j) e, t.apart j);
  unknown = λ j h. ground (
    arith,
    ap (queued j) e,
    eq_iff status.application.id j,
    lookup-insert status.application.id j running st.running_apps,
    t.unknown j,
  );
}

pub drop-IsTracked :
    (status : RunStatus) (rest : List RunStatus) (st : RunState)
    → st.statuses ≡ status ∷ rest
    → IsTracked st
    → IsTracked (record st { statuses = rest })
drop-IsTracked status rest st e t = record {
  flying = t.flying;
  single = t.single;
  apart = λ j h. ground (arith, ap (queued j) e, t.apart j);
  unknown = λ j h. ground (arith, ap (queued j) e, t.unknown j);
}

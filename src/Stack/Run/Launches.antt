-- ===== src/Stack/Run/Launches.antt =====
-- What runApplications does to the map of statuses: it adds staging entries, and leaves no
-- application behind that could be started.
use stack_deploy.Prelude.{
  ◌<◌, ◌≤◌, String, ◌≡◌, refl, inl, inr, true, false, some, none, List, [], ◌∷◌, arith, eq_refl,
  eq_iff, All, Option-cases, Bool-cases, ◌∙◌,
}
use stack_deploy.Map.{Map, lookup, lookup-insert}
use stack_deploy.Application.{
  Application, ApplicationStatus, staging, running, failed, is_running, is_dependency_satisfied,
  satisfied,
}
use stack_deploy.Stack.Run.{RunState, consider, launch, run_applications}
use stack_deploy.Stack.Run.Trace.{satisfied_lem, consider_cases}
use stack_deploy.Stack.Run.Live.{flights}

pub record Launches (st st' : RunState) : Type 0 where
  pub kept :
      (id : String) (x : ApplicationStatus)
      → lookup id st.running_apps ≡ some x
      → lookup id st'.running_apps ≡ some x
  pub still :
      (id : String)
      → lookup id st'.running_apps ≡ some running
      → lookup id st.running_apps ≡ some running
  pub unfailed :
      (id : String)
      → lookup id st'.running_apps ≡ some failed
      → lookup id st.running_apps ≡ some failed
  pub flies :
      (id : String)
      → lookup id st.running_apps ≡ none
      → lookup id st'.running_apps ≡ some staging
      → 0 < flights id st'.in_flight
  pub more : (id : String) → flights id st.in_flight ≤ flights id st'.in_flight
  pub statuses : st'.statuses ≡ st.statuses
  pub outcome : st'.outcome ≡ st.outcome

Launches-refl : (st : RunState) → Launches st st
Launches-refl st = record {
  kept = λ id x h. h;
  still = λ id h. h;
  unfailed = λ id h. h;
  flies = λ id h k. cc;
  more = λ id. omega arith;
  statuses = refl;
  outcome = refl;
}

Launches-trans : (a b c : RunState) → Launches a b → Launches b c → Launches a c
Launches-trans a b c p q = record {
  kept = λ id x h. q.kept id x (p.kept id x h);
  still = λ id h. p.still id (q.still id h);
  unfailed = λ id h. p.unfailed id (q.unfailed id h);
  flies = λ id h k. elim (Option-cases (lookup id b.running_apps)) [
    | inl e ↦ q.flies id e k
    | inr (x, e) ↦ ground (arith, q.kept id x e, p.flies id h, q.more id)
  ];
  more = λ id. omega (arith, p.more id, q.more id);
  statuses = q.statuses ∙ p.statuses;
  outcome = q.outcome ∙ p.outcome;
}

launch-Launches :
    (app : Application) (st : RunState)
    → lookup app.id st.running_apps ≡ none
    → Launches st (launch app st)
launch-Launches app st fresh = record {
  kept =
      λ id x h. ground (arith, eq_iff app.id id, lookup-insert app.id id staging st.running_apps);
  still = λ id h. ground (arith, eq_iff app.id id, lookup-insert app.id id staging st.running_apps);
  unfailed =
      λ id h. ground (arith, eq_iff app.id id, lookup-insert app.id id staging st.running_apps);
  flies =
      λ id h k. ground (arith, eq_iff app.id id, lookup-insert app.id id staging st.running_apps);
  more = λ id. ground arith;
  statuses = refl;
  outcome = refl;
}

pub consider-Launches : (app : Application) (st : RunState) → Launches st (consider app st)
consider-Launches app st = elim (consider_cases app st) [
  | inl (fresh, _, e) ↦ rw e (launch-Launches app st fresh)
  | inr e ↦ rw e (Launches-refl st)
]

pub run_applications-Launches :
    (apps : Map Application) (st : RunState) → Launches st (run_applications apps st)
unfolding run_applications
run_applications-Launches [] st = Launches-refl st
run_applications-Launches ((name, app) ∷ apps) st =
    Launches-trans st (consider app st) _ (consider-Launches app st)
      (run_applications-Launches apps (consider app st))

pub of_running :
    (deps : List String) (apps : Map ApplicationStatus)
    → All (λ d. lookup d apps ≡ some running) deps
    → satisfied deps apps ≡ true
unfolding satisfied is_running
of_running [] apps h = refl
of_running (d ∷ deps) apps h = ground (arith, of_running deps apps h.1)

All-still :
    (st st' : RunState)
    → Launches st st'
    → (deps : List String) → All (λ d. lookup d st'.running_apps ≡ some running) deps
    → All (λ d. lookup d st.running_apps ≡ some running) deps
All-still st st' l [] h = tt
All-still st st' l (d ∷ deps) h = (l.still d h.0, All-still st st' l deps h.1)

-- An application that waits for another.
abbrev pub Waits : RunState → Application → Type 0
Waits st app =
    lookup app.id st.running_apps ≡ none → is_dependency_satisfied app st.running_apps ≡ false

-- One that waits does so still when others have been launched.
Launches-Waits :
    (st st' : RunState) (app : Application) → Launches st st' → Waits st app → Waits st' app
unfolding is_dependency_satisfied
Launches-Waits st st' app l w h = elim (Bool-cases (satisfied app.dependencies st'.running_apps)) [
  | inl sat ↦ ground (
    arith,
    l.kept,
    of_running app.dependencies st.running_apps
        (All-still st st' l app.dependencies (satisfied_lem app.dependencies st'.running_apps sat)),
    none_before,
    w none_before,
  )
  | inr e ↦ e
]
  where
    none_before : lookup app.id st.running_apps ≡ none
    none_before = elim (Option-cases (lookup app.id st.running_apps)) [
      | inl e ↦ e
      | inr (x, e) ↦ cc (l.kept app.id x e)
    ]

consider-Waits : (app : Application) (st : RunState) → Waits (consider app st) app
unfolding consider
consider-Waits app st h =
    ground (arith, lookup-insert app.id app.id staging st.running_apps, eq_refl app.id)

pub run_applications-Waits :
    (apps : Map Application) (st : RunState)
    → All (λ row. Waits (run_applications apps st) row.1) apps
unfolding run_applications
run_applications-Waits [] st = tt
run_applications-Waits ((name, app) ∷ apps) st = (
  Launches-Waits (consider app st) _ app (run_applications-Launches apps (consider app st))
      (consider-Waits app st),
  run_applications-Waits apps (consider app st),
)

-- ===== src/Stack/Run/Progress/Sound.antt =====
-- The invariant of a run, and that runApplications keeps it.
use stack_deploy.Prelude.{
  ◌+◌, ◌<◌, String, ◌≡◌, ◌≢◌, refl, inl, inr, true, some, none, List, [], ◌∷◌, arith, ◌==◌, ap,
  eq_iff, All, length, All-map, Option-cases, Bool-cases, subst,
}
use stack_deploy.Map.{Map, lookup}
use stack_deploy.Application.{Application, staging, failed}
use stack_deploy.Stack.Run.{
  RunState, returned, panicked, consider, run_applications, all_applications_running,
}
use stack_deploy.Stack.Run.Live.{flights, queued, IsTracked}
use stack_deploy.Stack.Run.Trace.{consider_cases}
use stack_deploy.Stack.Run.Launches.{run_applications-Launches, run_applications-Waits}
use stack_deploy.Stack.Run.Progress.{HasId, IsLive, all_running_lem, of_all_running}

abbrev pub AreMembers : Map Application → List Application → Type 0
AreMembers apps flying = (id : String) → 0 < flights id flying → HasId id apps

-- The invariant of a run.
pub record IsSound (apps : Map Application) (st : RunState) : Type 0 where
  pub tracked : IsTracked st
  pub members : AreMembers apps st.in_flight
  pub live : st.outcome ≡ none → IsLive apps st
  pub landed : st.outcome ≡ some (returned none) → (id : String) → flights id st.in_flight ≡ 0
  pub complete :
      st.outcome ≡ some (returned none) → all_applications_running apps st.running_apps ≡ true
  pub calm : st.outcome ≢ some panicked

pub HasId-self : (apps : Map Application) → All (λ row. HasId row.1.id apps) apps
HasId-self apps = from apps (λ id m. m)
  where
    from :
        (rows : Map Application)
        → ((id : String) → HasId id rows → HasId id apps)
        → All (λ row. HasId row.1.id apps) rows
    from [] f = tt
    from ((name, app) ∷ rows) f = (f app.id (inl refl), from rows (λ id m. f id (inr m)))

pub launch_members :
    (apps : Map Application) (app : Application) (flying : List Application)
    → HasId app.id apps
    → AreMembers apps flying
    → AreMembers apps (app ∷ flying)
launch_members apps app flying here m id h = elim (Bool-cases (app.id == id)) [
  | inl hit ↦ subst (λ j. HasId j apps) ((eq_iff app.id id).0 hit) here
  | inr miss ↦ m id (ground arith)
]

pub run_applications_members :
    (apps rows : Map Application) (st : RunState)
    → All (λ row. HasId row.1.id apps) rows
    → AreMembers apps st.in_flight
    → AreMembers apps (run_applications rows st).in_flight
unfolding run_applications
run_applications_members apps [] st h m = m
run_applications_members apps ((name, app) ∷ rows) st h m =
    run_applications_members apps rows (consider app st) h.1 (elim (consider_cases app st) [
      | inl (_, _, e) ↦ rw e (launch_members apps app st.in_flight h.0 m)
      | inr e ↦ rw e m
    ])

-- Launching keeps what is live: `st` is live but for what it is about to launch.
pub launched-IsLive :
    (apps : Map Application) (st : RunState)
    → ((id : String)
        → lookup id st.running_apps ≡ some staging
        → 0 < flights id st.in_flight + queued id st.statuses)
    → (all_applications_running apps st.running_apps ≡ true → 0 < length st.statuses)
    → ((id : String) → lookup id st.running_apps ≢ some failed)
    → IsLive apps (run_applications apps st)
launched-IsLive apps st acc unf ok =
    let l = run_applications-Launches apps st in
    record {
      accounted = λ id h. elim (Option-cases (lookup id st.running_apps)) [
        | inl e ↦ omega (arith, l.flies id e h)
        | inr (x, e) ↦ ground (arith, l.kept id x e, acc id, l.more id, ap (queued id) l.statuses)
      ];
      saturated = run_applications-Waits apps st;
      unfinished = λ h. omega (
        arith,
        ap length l.statuses,
        unf (
            of_all_running apps st.running_apps (
              All-map _ _ (λ row. l.still row.1.id) apps
                (all_running_lem apps (run_applications apps st).running_apps h))),
      );
      unfailed = λ id h. ok id (l.unfailed id h);
    }

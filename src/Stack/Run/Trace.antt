-- ===== src/Stack/Run/Trace.antt =====
-- What is read off the trace of a run.
use stack_deploy.Prelude.{
  ℕ, suc, String, ◌≡◌, ◌⊎◌, inl, inr, Bool, true, false, ◌&&◌, ◌||◌, some, none, List, [], ◌∷◌,
  arith, ◌==◌, eq_iff, All, if◌then◌else◌, ◌≤◌,
}
use stack_deploy.Map.{Map, lookup, lookup-insert}
use stack_deploy.Application.{
  Application, ApplicationStatus, staging, running, is_running, satisfied, is_dependency_satisfied,
}
use stack_deploy.Stack.Run.{
  Effect, launch, start, save_application_status, RunState, consider, run_applications,
}

-- The state storage was told that the application runs.
abbrev pub was_saved : String → List Effect → Bool
was_saved id [] = false
was_saved id (save_application_status other status ∷ trace) =
    is_running status && other == id || was_saved id trace
was_saved id (_ ∷ trace) = was_saved id trace

-- How often an application of this id was started.
abbrev pub starts : String → List Effect → ℕ
starts id [] = 0
starts id (start app ∷ trace) =
    let rest = starts id trace in if app.id == id then suc rest else rest
starts id (_ ∷ trace) = starts id trace

-- The application was skipped by the request, or reported to run earlier in the trace.
abbrev pub RanBefore : Map ApplicationStatus → List Effect → String → Type 0
RanBefore skipped trace id = (lookup id skipped ≡ some running) ⊎ (was_saved id trace ≡ true)

-- Every start comes after all of the application's dependencies ran.
abbrev pub IsOrdered : Map ApplicationStatus → List Effect → Type 0
IsOrdered skipped [] = Unit
IsOrdered skipped (start app ∷ trace) =
    All (RanBefore skipped trace) app.dependencies × IsOrdered skipped trace
IsOrdered skipped (_ ∷ trace) = IsOrdered skipped trace

-- The invariant of a run, for the applications that it skips.
pub record Inv (skipped : Map ApplicationStatus) (st : RunState) : Type 0 where
  pub backed :
      (id : String) → lookup id st.running_apps ≡ some running → RanBefore skipped st.trace id
  pub ordered : IsOrdered skipped st.trace
  pub once : (id : String) → starts id st.trace ≤ 1
  pub fresh : (id : String) → lookup id st.running_apps ≡ none → starts id st.trace ≡ 0

pub satisfied_lem :
    (deps : List String) (apps : Map ApplicationStatus)
    → satisfied deps apps ≡ true
    → All (λ d. lookup d apps ≡ some running) deps
unfolding satisfied is_running
satisfied_lem [] apps h = tt
satisfied_lem (d ∷ deps) apps h = (ground arith, satisfied_lem deps apps (ground arith))

All-map_of :
    (P Q : String → Type 0) → ((d : String) → P d → Q d) → (ds : List String) → All P ds → All Q ds
All-map_of P Q f [] h = tt
All-map_of P Q f (d ∷ ds) h = (f d h.0, All-map_of P Q f ds h.1)

-- What one round of the loop does.
pub consider_cases :
    (app : Application) (st : RunState)
    → ((lookup app.id st.running_apps ≡ none)
        × (is_dependency_satisfied app st.running_apps ≡ true)
        × (consider app st ≡ launch app st))
      ⊎ (consider app st ≡ st)
unfolding consider
consider_cases app st = ground arith

module _ (skipped : Map ApplicationStatus) (app : Application) (st : RunState) (v : Inv skipped st)
    (fresh : lookup app.id st.running_apps ≡ none)
    (sat : All (λ d. lookup d st.running_apps ≡ some running) app.dependencies) where
  launch-Inv : Inv skipped (launch app st)
  launch-Inv = record {
    backed = λ id e. ground (arith, lookup-insert app.id id staging st.running_apps, v.backed id);
    ordered = (All-map_of _ _ v.backed app.dependencies sat, v.ordered);
    once = λ id. ground (arith, v.once id, v.fresh id, eq_iff app.id id);
    fresh = λ id h.
        ground
          (arith, eq_iff app.id id, lookup-insert app.id id staging st.running_apps, v.fresh id);
  }

pub consider-Inv :
    (skipped : Map ApplicationStatus) (app : Application) (st : RunState)
    → Inv skipped st
    → Inv skipped (consider app st)
unfolding is_dependency_satisfied
consider-Inv skipped app st v = elim (consider_cases app st) [
  | inl (fresh, sat, e) ↦
      rw e (launch-Inv skipped app st v fresh (satisfied_lem app.dependencies st.running_apps sat))
  | inr e ↦ rw e v
]

pub run_applications-Inv :
    (skipped : Map ApplicationStatus) (apps : Map Application) (st : RunState)
    → Inv skipped st
    → Inv skipped (run_applications apps st)
unfolding run_applications
run_applications-Inv skipped [] st v = v
run_applications-Inv skipped ((name, app) ∷ apps) st v =
    run_applications-Inv skipped apps (consider app st) (consider-Inv skipped app st v)

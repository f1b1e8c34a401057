-- ===== src/Stack/Run/Progress.antt =====
-- A run gets on: the loop never waits for a status that nobody will send, and no goroutine sends on
-- the closed channel.
pub mod Sound
pub mod Finish
pub mod Receive
use stack_deploy.Prelude.{
  ℕ, zero, suc, ◌+◌, ◌<◌, ◌≤◌, String, ◌≡◌, ◌≢◌, refl, ◌⊎◌, inl, inr, Bool, true, false, Option,
  some, none, List, [], ◌∷◌, ◌++◌, arith, ◌==◌, ap, eq_iff, eq_refl, All, length, length-append,
  if◌then◌else◌, Option-cases, Bool-cases, subst, sym,
}
use stack_deploy.Map.{Map, lookup, insert, lookup-insert}
use stack_deploy.Application.{
  Application, ApplicationStatus, staging, running, failed, is_running, is_dependency_satisfied,
  satisfied, Failure, Error,
}
use stack_deploy.Stack.{Stack}
use stack_deploy.Stack.Run.{
  RunStatus, RunState, RunError, Event, finishes, receives, save_application_status,
  save_stack_variables, Outcome, returned, panicked, finish, receive, handle_status, after_save,
  stop, step, run_events, consider, launch, run_applications, all_applications_running, take_out,
  is_closed,
}
use stack_deploy.Stack.Run.Live.{
  flights, queued, IsTracked, run_applications-IsTracked, send-IsTracked, take-IsTracked,
  drop-IsTracked, flights-take_out, queued-append,
}
use stack_deploy.Stack.Run.Launches.{
  Launches, Waits, run_applications-Launches, run_applications-Waits, of_running,
}

-- An application of this id is in the stack.
abbrev pub HasId : String → Map Application → Type 0
HasId id [] = ⊥
HasId id ((name, app) ∷ apps) = (app.id ≡ id) ⊎ HasId id apps

pub All-HasId :
    (P : String → Type 0) (apps : Map Application) (id : String)
    → All (λ row. P row.1.id) apps
    → HasId id apps
    → P id
All-HasId P ((name, app) ∷ apps) id h (inl e) = subst P e h.0
All-HasId P ((name, app) ∷ apps) id h (inr m) = All-HasId P apps id h.1 m
All-HasId P [] id h m = absurd m

-- Every dependency is an application of the stack, of a lower rank: there are no cycles.
abbrev pub IsRanked : (String → ℕ) → Map Application → Type 0
IsRanked rank apps =
    All (λ row. All (λ d. HasId d apps × (rank d < rank row.1.id)) row.1.dependencies) apps

pub all_running_lem :
    (apps : Map Application) (m : Map ApplicationStatus)
    → all_applications_running apps m ≡ true
    → All (λ row. lookup row.1.id m ≡ some running) apps
unfolding all_applications_running
all_running_lem [] m h = tt
all_running_lem ((name, app) ∷ apps) m h = (ground arith, all_running_lem apps m (ground arith))

pub of_all_running :
    (apps : Map Application) (m : Map ApplicationStatus)
    → All (λ row. lookup row.1.id m ≡ some running) apps
    → all_applications_running apps m ≡ true
unfolding all_applications_running
of_all_running [] m h = refl
of_all_running ((name, app) ∷ apps) m h = ground (arith, of_all_running apps m h.1)

-- While the loop runs: nothing is lost, nothing that could start waits, and the loop is not over.
pub record IsLive (apps : Map Application) (st : RunState) : Type 0 where
  pub accounted :
      (id : String)
      → lookup id st.running_apps ≡ some staging
      → 0 < flights id st.in_flight + queued id st.statuses
  pub saturated : All (λ row. Waits st row.1) apps
  pub unfinished : all_applications_running apps st.running_apps ≡ true → 0 < length st.statuses
  pub unfailed : (id : String) → lookup id st.running_apps ≢ some failed

flights-nil : (id : String) (as' : List Application) → length as' ≡ 0 → flights id as' ≡ 0
flights-nil id [] h = refl
flights-nil id (a ∷ as') h = absurd (omega arith)

queued-nil : (id : String) (ss : List RunStatus) → length ss ≡ 0 → queued id ss ≡ 0
queued-nil id [] h = refl
queued-nil id (a ∷ ss) h = absurd (omega arith)

module _ (rank : String → ℕ) (apps : Map Application) (ranked : IsRanked rank apps) (st : RunState)
    (live : IsLive apps st) (landed : length st.in_flight ≡ 0)
    (empty : length st.statuses ≡ 0) where
  abbrev RunsBelow : ℕ → String → Type 0
  RunsBelow n id = rank id < n → lookup id st.running_apps ≡ some running

  known_runs :
      (app : Application)
      → is_dependency_satisfied app st.running_apps ≡ true
      → Waits st app
      → lookup app.id st.running_apps ≡ some running
  known_runs app sat w = elim (Option-cases (lookup app.id st.running_apps)) [
    | inl e ↦ ground (arith, w e)
    | inr (running, e) ↦ e
    | inr (staging, e) ↦ absurd (
        omega (
          arith,
          live.accounted app.id e,
          flights-nil app.id st.in_flight landed,
          queued-nil app.id st.statuses empty,
        ))
    | inr (failed, e) ↦ absurd (live.unfailed app.id e)
  ]

  deps_run :
      (n : ℕ)
      → All (λ row. RunsBelow n row.1.id) apps
      → (id : String) → rank id < suc n
      → (deps : List String) → All (λ d. HasId d apps × (rank d < rank id)) deps
      → All (λ d. lookup d st.running_apps ≡ some running) deps
  deps_run n ih id lt [] h = tt
  deps_run n ih id lt (d ∷ deps) h =
      (All-HasId (RunsBelow n) apps d ih h.0.0 (omega arith), deps_run n ih id lt deps h.1)

  step_up :
      (n : ℕ)
      → All (λ row. RunsBelow n row.1.id) apps
      → (rows : Map Application)
      → All (λ row. All (λ d. HasId d apps × (rank d < rank row.1.id)) row.1.dependencies) rows
      → All (λ row. Waits st row.1) rows
      → All (λ row. RunsBelow (suc n) row.1.id) rows
  unfolding is_dependency_satisfied
  step_up n ih [] r w = tt
  step_up n ih ((name, app) ∷ rows) r w = (
    λ lt.
        known_runs app
          (of_running app.dependencies st.running_apps
            (deps_run n ih app.id lt app.dependencies r.0))
          w.0,
    step_up n ih rows r.1 w.1,
  )

  base : (rows : Map Application) → All (λ row. RunsBelow 0 row.1.id) rows
  base [] = tt
  base (row ∷ rows) = (λ lt. absurd (omega arith), base rows)

  all_below : (n : ℕ) → All (λ row. RunsBelow n row.1.id) apps
  all_below zero = base apps
  all_below (suc n) = step_up n (all_below n) apps ranked live.saturated

  -- With nothing in flight and nothing to receive, every application would run.
  all_run :
      (bound : ℕ)
      → All (λ row. rank row.1.id < bound) apps
      → All (λ row. lookup row.1.id st.running_apps ≡ some running) apps
  all_run bound h = apply_all apps h (all_below bound)
    where
      apply_all :
          (rows : Map Application)
          → All (λ row. rank row.1.id < bound) rows
          → All (λ row. RunsBelow bound row.1.id) rows
          → All (λ row. lookup row.1.id st.running_apps ≡ some running) rows
      apply_all [] h f = tt
      apply_all (row ∷ rows) h f = (f.0 h.0, apply_all rows h.1 f.1)

-- Some number above every rank.
top : (String → ℕ) → Map Application → ℕ
top rank [] = 0
top rank ((name, app) ∷ rows) = suc (rank app.id + top rank rows)

below_top :
    (rank : String → ℕ) (rows : Map Application) (k : ℕ)
    → top rank rows ≤ k
    → All (λ row. rank row.1.id < k) rows
unfolding top
below_top rank [] k h = tt
below_top rank ((name, app) ∷ rows) k h = (omega arith, below_top rank rows k (omega arith))

-- A live loop has something to wait for.
pub IsLive-progress :
    (rank : String → ℕ) (apps : Map Application) (st : RunState)
    → IsRanked rank apps
    → IsLive apps st
    → 0 < length st.in_flight + length st.statuses
IsLive-progress rank apps st ranked live =
    waiting (length st.in_flight) (length st.statuses) refl refl
  where
    waiting :
        (m n : ℕ)
        → length st.in_flight ≡ m
        → length st.statuses ≡ n
        → 0 < length st.in_flight + length st.statuses
    waiting zero zero e f = absurd (
        omega (
          arith,
          live.unfinished (
              of_all_running apps st.running_apps (
                all_run rank apps ranked st live e f (top rank apps)
                  (below_top rank apps _ (omega arith)))),
        ))
    waiting zero (suc n) e f = omega arith
    waiting (suc m) n e f = omega arith

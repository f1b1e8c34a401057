-- ===== src/Stack/Run/Settling/Well.antt =====
-- The runs in which nothing has failed.
use stack_deploy.Prelude.{
  ℕ, ◌+◌, ◌*◌, ◌≤◌, String, ◌≡◌, refl, ◌⊎◌, inl, inr, Option, some, none, List, [], ◌∷◌, arith, All,
  All-append, length, ltb, Option-cases, Bool-cases, subst, ◌∙◌,
}
use stack_deploy.Map.{Map, insert}
use stack_deploy.Application.{Application, running, Failure}
use stack_deploy.Stack.{Stack}
use stack_deploy.Stack.Run.{
  RunStatus, RunState, Event, save_application_status, save_stack_variables, finishes, receives,
  Outcome, returned, panicked, step, run_events, finish, receive, handle_status, after_save,
  take_out, is_closed, all_applications_running,
}
use stack_deploy.Stack.Run.Launches.{run_applications-Launches}
use stack_deploy.Stack.Run.Progress.Finish.{finish-IsSound}
use stack_deploy.Stack.Run.Progress.Receive.{receive-IsSound}
use stack_deploy.Stack.Run.Progress.Sound.{IsSound, HasId-self}
use stack_deploy.Stack.Run.Settling.Weight.{fresh, weight, fresh-insert-le, run_applications-weight}

-- Events in which no application fails and everything is saved.
abbrev pub IsSmooth : List Event → Type 0
IsSmooth [] = Unit
IsSmooth (finishes id error ∷ es) = (error ≡ none) × IsSmooth es
IsSmooth (receives saved variables_saved ∷ es) =
    (saved ≡ none) × (variables_saved ≡ none) × IsSmooth es

-- No failure is in the channel, and the run has not failed.
pub record IsWell (apps : Map Application) (st : RunState) : Type 0 where
  pub sound : IsSound apps st
  pub errorless : All (λ status. status.error ≡ none) st.statuses
  pub unfailed : (st.outcome ≡ none) ⊎ (st.outcome ≡ some (returned none))

finish-errorless :
    (s : Stack) (id : String) (st : RunState)
    → All (λ status. status.error ≡ none) st.statuses
    → All (λ status. status.error ≡ none) (finish s id none st).statuses
unfolding finish
finish-errorless s id st h = elim (Option-cases (take_out id st.in_flight)) [
  | inl e ↦ rw (e, finish) h
  | inr ((app, others), e) ↦ elim (Bool-cases (is_closed st.outcome)) [
    | inl closed ↦ rw (e, finish) (rw closed h)
    | inr open' ↦ elim (Bool-cases (ltb (length st.statuses) (length s.applications))) [
      | inl room ↦
          rw (e, finish)
            (rw (open', room)
              (All-append (λ status. status.error ≡ none) st.statuses
                (record { application = app; error = none } ∷ []) h (refl, tt)))
      | inr full ↦ rw (e, finish) (rw (open', full) h)
    ]
  ]
]

finish_outcome :
    (s : Stack) (id : String) (st : RunState)
    → ((finish s id none st).outcome ≡ st.outcome) ⊎ ((finish s id none st).outcome ≡ some panicked)
unfolding finish
finish_outcome s id st = elim (Option-cases (take_out id st.in_flight)) [
  | inl e ↦ inl (rw (e, finish) refl)
  | inr ((app, others), e) ↦ elim (Bool-cases (is_closed st.outcome)) [
    | inl closed ↦ inr (rw (e, finish) (rw closed refl))
    | inr open' ↦ elim (Bool-cases (ltb (length st.statuses) (length s.applications))) [
      | inl room ↦ inl (rw (e, finish) (rw (open', room) refl))
      | inr full ↦ inl (rw (e, finish) (rw (open', full) refl))
    ]
  ]
]

module _ (s : Stack) where
  abbrev apps : Map Application
  apps = s.applications

  pub finish-IsWell :
      (id : String) (st : RunState) → IsWell apps st → IsWell apps (finish s id none st)
  finish-IsWell id st w =
      let sound = finish-IsSound s id none st w.sound in
      record {
        sound = sound;
        errorless = finish-errorless s id st w.errorless;
        unfailed = elim (finish_outcome s id st) [
          | inl e ↦ rw e w.unfailed
          | inr p ↦ absurd (sound.calm p)
        ];
      }

  -- What the loop's body does after a save.
  abbrev pub GoesOn : List RunStatus → ℕ → RunState → Type 0
  GoesOn rest bound st =
      (st.statuses ≡ rest)
      × ((st.outcome ≡ none) ⊎ (st.outcome ≡ some (returned none)))
      × (weight apps st ≤ bound)

  after_save-GoesOn :
      (st : RunState) → st.outcome ≡ none → GoesOn st.statuses (weight apps st) (after_save s st)
  unfolding after_save
  after_save-GoesOn st o = elim (Bool-cases (all_applications_running apps st.running_apps)) [
    | inl done ↦ rw done (refl, inr refl, omega arith)
    | inr more ↦
        let l = run_applications-Launches apps st in
        rw more
          (l.statuses, inl (l.outcome ∙ o), run_applications-weight apps apps st (HasId-self apps))
  ]

  handle_status-GoesOn :
      (app : Application) (error : Failure) (rest : List RunStatus) (st : RunState)
      → st.outcome ≡ none
      → error ≡ none
      → GoesOn rest (3 * fresh st.running_apps apps + 2 * length st.in_flight + length rest) (
          handle_status s none none
            (record { application = app; error = error })
            (record st { statuses = rest }))
  unfolding handle_status
  handle_status-GoesOn app (some x) rest st o e = cc
  handle_status-GoesOn app none rest st o e =
      let (same, ended, light) =
        after_save-GoesOn
          (record st {
            statuses = rest;
            running_apps = insert app.id running st.running_apps;
            trace = save_stack_variables ∷ save_application_status app.id running ∷ st.trace;
          })
          o in
      (same, ended, omega (arith, light, fresh-insert-le app.id running st.running_apps apps))

  -- A status that is there is received.
  pub receive-GoesOn :
      (status : RunStatus) (rest : List RunStatus) (st : RunState)
      → IsWell apps st
      → st.outcome ≡ none
      → st.statuses ≡ status ∷ rest
      → GoesOn rest
          (3 * fresh st.running_apps apps + 2 * length st.in_flight + length rest)
          (receive s none none st)
  unfolding receive
  receive-GoesOn status rest st w o e =
      let clean : All (λ x. x.error ≡ none) (status ∷ rest) =
        subst (All (λ x. x.error ≡ none)) e w.errorless in
      rw (o, receive)
        (rw (e, receive) (handle_status-GoesOn status.application status.error rest st o clean.0))

  pub receive_cases-IsWell :
      (o : Option Outcome) (ss : List RunStatus) (st : RunState)
      → st.outcome ≡ o
      → st.statuses ≡ ss
      → IsWell apps st
      → IsWell apps (receive s none none st)
  unfolding receive
  receive_cases-IsWell (some o) ss st e f w = rw (e, receive) w
  receive_cases-IsWell none [] st e f w = rw (e, receive) (rw (f, receive) w)
  receive_cases-IsWell none (status ∷ rest) st e f w =
      let (same, ended, light) = receive-GoesOn status rest st w e f in
      let clean : All (λ x. x.error ≡ none) (status ∷ rest) =
        subst (All (λ x. x.error ≡ none)) f w.errorless in
      record {
        sound = receive-IsSound s none none none (status ∷ rest) st e f w.sound;
        errorless = rw same clean.1;
        unfailed = ended;
      }

  step-IsWell :
      (st : RunState) (e : Event) → IsSmooth (e ∷ []) → IsWell apps st → IsWell apps (step s st e)
  unfolding step
  step-IsWell st (finishes id (some x)) smooth w = cc (smooth.0)
  step-IsWell st (finishes id none) smooth w = finish-IsWell id st w
  step-IsWell st (receives (some x) v) smooth w = cc (smooth.0)
  step-IsWell st (receives none (some x)) smooth w = cc (smooth.1)
  step-IsWell st (receives none none) smooth w =
      receive_cases-IsWell st.outcome st.statuses st refl refl w

  IsSmooth-head :
      (e : Event) (es : List Event) → IsSmooth (e ∷ es) → IsSmooth (e ∷ []) × IsSmooth es
  IsSmooth-head (finishes id error) es h = ((h.0, tt), h.1)
  IsSmooth-head (receives saved v) es h = ((h.0, h.1, tt), h.2)

  pub events-IsWell :
      (st : RunState) (es : List Event)
      → IsSmooth es
      → IsWell apps st
      → IsWell apps (run_events s st es)
  unfolding run_events
  events-IsWell st [] h w = w
  events-IsWell st (e ∷ es) h w =
      let (first, rest) = IsSmooth-head e es h in
      events-IsWell (step s st e) es rest (step-IsWell st e first w)

-- ===== src/Stack/Run/Settling/Weight.antt =====
-- A measure of what a run has left to do.
use stack_deploy.Prelude.{
  ℕ, suc, ◌+◌, ◌*◌, ◌<◌, ◌≤◌, String, ◌≡◌, ◌≢◌, refl, inl, inr, true, false, Option, some, none,
  List, [], ◌∷◌, arith, ◌==◌, ap, eq_iff, eq_refl, All, length, length-append, length_pos, lt→ltb,
  ltb, Option-cases, Bool-cases,
}
use stack_deploy.Map.{Map, lookup, insert, lookup-insert}
use stack_deploy.Application.{Application, ApplicationStatus, staging}
use stack_deploy.Stack.{Stack}
use stack_deploy.Stack.Run.{RunState, finish, take_out, is_closed, consider, run_applications}
use stack_deploy.Stack.Run.Trace.{consider_cases}
use stack_deploy.Stack.Run.Progress.{HasId}

-- How many applications have not been started.
abbrev pub one_if_none : Option ApplicationStatus → ℕ
one_if_none none = 1
one_if_none (some x) = 0

abbrev pub fresh : Map ApplicationStatus → Map Application → ℕ
fresh m [] = 0
fresh m ((name, app) ∷ rows) = one_if_none (lookup app.id m) + fresh m rows

-- What is left to do: start an application, let it end, receive its status.
abbrev pub weight : Map Application → RunState → ℕ
weight apps st = 3 * fresh st.running_apps apps + 2 * length st.in_flight + length st.statuses

pub fresh-insert-le :
    (id : String) (x : ApplicationStatus) (m : Map ApplicationStatus) (rows : Map Application)
    → fresh (insert id x m) rows ≤ fresh m rows
fresh-insert-le id x m [] = omega arith
fresh-insert-le id x m ((name, app) ∷ rows) =
    ground (arith, fresh-insert-le id x m rows, lookup-insert id app.id x m)

fresh-insert-lt :
    (id : String) (x : ApplicationStatus) (m : Map ApplicationStatus) (rows : Map Application)
    → HasId id rows
    → lookup id m ≡ none
    → fresh (insert id x m) rows < fresh m rows
fresh-insert-lt id x m [] here h = absurd here
fresh-insert-lt id x m ((name, app) ∷ rows) (inl e) h =
    ground (arith, fresh-insert-le id x m rows, lookup-insert id app.id x m, eq_iff id app.id)
fresh-insert-lt id x m ((name, app) ∷ rows) (inr k) h =
    ground (arith, fresh-insert-lt id x m rows k h, lookup-insert id app.id x m)

consider-weight :
    (apps : Map Application) (app : Application) (st : RunState)
    → HasId app.id apps
    → weight apps (consider app st) ≤ weight apps st
consider-weight apps app st here = elim (consider_cases app st) [
  | inl (new, _, e) ↦
      rw e (omega (arith, fresh-insert-lt app.id staging st.running_apps apps here new))
  | inr e ↦ rw e (omega arith)
]

pub run_applications-weight :
    (apps rows : Map Application) (st : RunState)
    → All (λ row. HasId row.1.id apps) rows
    → weight apps (run_applications rows st) ≤ weight apps st
unfolding run_applications
run_applications-weight apps [] st h = omega arith
run_applications-weight apps ((name, app) ∷ rows) st h = omega (
  arith,
  run_applications-weight apps rows (consider app st) h.1,
  consider-weight apps app st h.0,
)

-- An application in flight ends, and there is room for its status in the channel.
pub finish-weight :
    (s : Stack) (app : Application) (others : List Application) (st : RunState)
    → s.applications ≢ []
    → st.outcome ≡ none
    → st.statuses ≡ []
    → st.in_flight ≡ app ∷ others
    → weight s.applications (finish s app.id none st) < weight s.applications st
unfolding finish
finish-weight s app others st ne o e f =
    let taken : take_out app.id st.in_flight ≡ some (app, others) =
      rw f (rw (eq_refl app.id) refl) in
    let open' : is_closed st.outcome ≡ false = rw o refl in
    let room : ltb (length st.statuses) (length s.applications) ≡ true =
      rw e (lt→ltb 0 (length s.applications) (length_pos s.applications ne)) in
    rw (taken, finish)
      (rw (open', room)
        (omega (
          arith,
          ap length f,
          length-append st.statuses (record { application = app; error = none } ∷ []),
        )))

length-take_out :
    (id : String) (flying : List Application) (app : Application) (others : List Application)
    → take_out id flying ≡ some (app, others)
    → length flying ≡ suc (length others)
length-take_out id [] app others h = cc
length-take_out id (a ∷ more) app others h = elim (Bool-cases (a.id == id)) [
  | inl hit ↦ ground arith
  | inr miss ↦ elim (Option-cases (take_out id more)) [
    | inl e ↦ ground arith
    | inr ((found, rest), e) ↦ ground (arith, length-take_out id more found rest e)
  ]
]

pub finish-weight-le :
    (s : Stack) (id : String) (st : RunState)
    → weight s.applications (finish s id none st) ≤ weight s.applications st
unfolding finish
finish-weight-le s id st = elim (Option-cases (take_out id st.in_flight)) [
  | inl e ↦ rw (e, finish) (omega arith)
  | inr ((app, others), e) ↦ elim (Bool-cases (is_closed st.outcome)) [
    | inl closed ↦ rw (e, finish) (rw closed (omega arith))
    | inr open' ↦ elim (Bool-cases (ltb (length st.statuses) (length s.applications))) [
      | inl room ↦
          rw (e, finish)
            (rw (open', room)
              (omega (
                arith,
                length-take_out id st.in_flight app others e,
                length-append st.statuses (record { application = app; error = none } ∷ []),
              )))
      | inr full ↦ rw (e, finish) (rw (open', full) (omega arith))
    ]
  ]
]

pub fresh-le-length :
    (m : Map ApplicationStatus) (rows : Map Application) → fresh m rows ≤ length rows
fresh-le-length m [] = omega arith
fresh-le-length m ((name, app) ∷ rows) = ground (arith, fresh-le-length m rows)

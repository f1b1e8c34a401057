-- ===== src/Stack/Run/Progress/Finish.antt =====
-- A goroutine's send keeps the invariant.
use stack_deploy.Prelude.{
  String, ◌≡◌, ◌⊎◌, inl, inr, true, Option, some, none, List, [], ◌∷◌, ◌++◌, arith, eq_iff, eq_refl,
  length, length-append, ltb, Option-cases, Bool-cases,
}
use stack_deploy.Map.{Map}
use stack_deploy.Application.{Application, Failure}
use stack_deploy.Stack.{Stack}
use stack_deploy.Stack.Run.{RunState, Outcome, returned, panicked, finish, take_out, is_closed}
use stack_deploy.Stack.Run.Live.{send-IsTracked, flights-take_out, queued-append}
use stack_deploy.Stack.Run.Progress.{IsLive}
use stack_deploy.Stack.Run.Progress.Sound.{AreMembers, IsSound}

module _ (s : Stack) where
  abbrev apps : Map Application
  apps = s.applications

  send-IsLive :
      (id : String) (error : Failure) (app : Application) (others : List Application)
      (st : RunState)
      → take_out id st.in_flight ≡ some (app, others)
      → IsLive apps st
      → IsLive apps (record st {
        in_flight = others;
        statuses = st.statuses ++ record { application = app; error = error } ∷ [];
      })
  send-IsLive id error app others st taken l = record {
    accounted = λ j h. ground (
      arith,
      flights-take_out id j st.in_flight app others taken,
      queued-append j st.statuses (record { application = app; error = error }),
      l.accounted j,
      eq_iff id j,
    );
    saturated = l.saturated;
    unfinished = λ h.
        omega (arith, length-append st.statuses (record { application = app; error = error } ∷ []));
    unfailed = l.unfailed;
  }

  flown-members :
      (id : String) (app : Application) (others flying : List Application)
      → take_out id flying ≡ some (app, others)
      → AreMembers apps flying
      → AreMembers apps others
  flown-members id app others flying taken m j h =
      m j (omega (arith, (flights-take_out id j flying app others taken).1))

  closed_cases :
      (o : Option Outcome) → is_closed o ≡ true → (o ≡ some (returned none)) ⊎ (o ≡ some panicked)
  closed_cases o h = ground arith

  -- After `close(statuses)` nothing is in flight.
  not_closed :
      (id : String) (app : Application) (others : List Application) (st : RunState)
      → take_out id st.in_flight ≡ some (app, others)
      → IsSound apps st
      → ¬ (is_closed st.outcome ≡ true)
  not_closed id app others st taken v closed = elim (closed_cases st.outcome closed) [
    | inl e ↦
        ground
          (arith, flights-take_out id id st.in_flight app others taken, eq_refl id, v.landed e id)
    | inr e ↦ v.calm e
  ]

  pub finish-IsSound :
      (id : String) (error : Failure) (st : RunState)
      → IsSound apps st
      → IsSound apps (finish s id error st)
  unfolding finish
  finish-IsSound id error st v = elim (Option-cases (take_out id st.in_flight)) [
    | inl e ↦ rw (e, finish) v
    | inr ((app, others), e) ↦ elim (Bool-cases (is_closed st.outcome)) [
      | inl closed ↦ absurd (not_closed id app others st e v closed)
      | inr open' ↦ elim (Bool-cases (ltb (length st.statuses) (length s.applications))) [
        | inl room ↦
            rw (e, finish)
              (rw (open', room)
                (record {
                  tracked = send-IsTracked id error app others st e v.tracked;
                  members = flown-members id app others st.in_flight e v.members;
                  live = λ h. send-IsLive id error app others st e (v.live h);
                  landed = λ h j. ground arith;
                  complete = v.complete;
                  calm = v.calm;
                }))
        | inr full ↦ rw (e, finish) (rw (open', full) v)
      ]
    ]
  ]

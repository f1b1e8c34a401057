-- ===== src/Application/Run/Clear/Steps.antt =====
-- No step of a run leaves a text with an unresolved variable in the journal.
use stack_deploy.Prelude.{
  Bool, String, ◌≡◌, refl, sym, subst, inl, inr, Option, none, some, List, [], ◌∷◌, arith, All,
  elem, Bool-cases, Option-cases,
}
use stack_deploy.Prelude.Int.{ℤ}
use stack_deploy.Constraints.{Regexps}
use stack_deploy.Variables.{Variables}
use stack_deploy.Application.Slaves.{MesosState}
use stack_deploy.Application.Instances.{get_instances}
use stack_deploy.Application.{Application, Fields, Failure}
use stack_deploy.Application.Marathon.{MarathonApplication, create_application}
use stack_deploy.Application.Resolve.{ensure_string, ensure_strings, first_failure}
use stack_deploy.Application.Resolve.Unresolved.{HasVariable, ensure_string-HasVariable}
use stack_deploy.Application.Run.{
  Effect, executed, created, awaited, staged, listed_tasks, filled, ran_task, TaskList, tasks_error,
  no_task, some_task, Outside, Running, Outcome, goes, fails, panics, ◌>>=◌, unless_failed, note,
  resolved, perform, execute_commands, run_hook, ensure_launch, before_launch, await, run_marathon,
  start, call_runner, fill_context, first_task_or_error, run_task, map_of_fields,
}

-- No command and no argument has an unresolved variable in it.
abbrev pub IsClear : Effect → Type 0
IsClear (executed file commands) = All (λ s. ¬ HasVariable s) commands
IsClear (created m) = All (λ s. ¬ HasVariable s) m.args
IsClear (staged a) = ¬ HasVariable a.launch_command
IsClear _ = Unit

abbrev pub journal_of : Outcome → List Effect
journal_of (goes st) = st.journal
journal_of (fails e st) = st.journal
journal_of (panics st) = st.journal

-- The journal is clear, and `Q` holds where the run goes on.
abbrev pub Leaves : (Running → Type 0) → Outcome → Type 0
Leaves Q (goes st) = All IsClear st.journal × Q st
Leaves Q (fails e st) = All IsClear st.journal
Leaves Q (panics st) = All IsClear st.journal

abbrev pub Any : Running → Type 0
Any st = Unit

-- Nothing that a launch reads has an unresolved variable.
abbrev pub IsReady : Running → Type 0
IsReady st =
    (¬ HasVariable st.application.launch_command) × All (λ s. ¬ HasVariable s) st.application.args

pub Leaves-bind :
    (P Q : Running → Type 0) (m : Outcome) (next : Running → Outcome)
    → Leaves P m
    → ((st : Running) → All IsClear st.journal → P st → Leaves Q (next st))
    → Leaves Q (m >>= next)
Leaves-bind P Q (goes st) next h f = f st h.0 h.1
Leaves-bind P Q (fails e st) next h f = h
Leaves-bind P Q (panics st) next h f = h

pub Leaves-journal : (Q : Running → Type 0) (m : Outcome) → Leaves Q m → All IsClear (journal_of m)
Leaves-journal Q (goes st) h = h.0
Leaves-journal Q (fails e st) h = h
Leaves-journal Q (panics st) h = h

unless_failed-Leaves :
    (Q : Running → Type 0) (f : Failure) (st : Running)
    → All IsClear st.journal
    → (f ≡ none → Q st)
    → Leaves Q (unless_failed f st)
unless_failed-Leaves Q none st h q = (h, q refl)
unless_failed-Leaves Q (some e) st h q = h

first_failure-none : (a b : Failure) → first_failure a b ≡ none → (a ≡ none) × (b ≡ none)
first_failure-none none b h = (refl, h)
first_failure-none (some e) b h = cc

ensured : (values : List String) → ensure_strings values ≡ none → All (λ s. ¬ HasVariable s) values
unfolding ensure_strings
ensured [] h = tt
ensured (value ∷ values) h =
    let (first, later) = first_failure-none (ensure_string value) (ensure_strings values) h in
    ((ensure_string-HasVariable value).0 first, ensured values later)

module _ (o : Outside) where
  perform-Leaves :
      (Q : Running → Type 0) (e : Effect) (st : Running)
      → IsClear e
      → All IsClear st.journal
      → Q (note e st)
      → Leaves Q (perform o e st)
  perform-Leaves Q e st c h q =
      unless_failed-Leaves Q (o.answer (e ∷ st.journal)) (note e st) (c, h) (λ f. q)

  execute_commands-Leaves :
      (Q : Running → Type 0) (commands : List String) (file : String) (st : Running)
      → All (λ s. ¬ HasVariable s) commands
      → All IsClear st.journal
      → ((journal : List Effect) → Q (record st { journal = journal }))
      → Leaves Q (execute_commands o commands file st)
  unfolding execute_commands
  execute_commands-Leaves Q [] file st c h q = (h, q st.journal)
  execute_commands-Leaves Q (command ∷ commands) file st c h q =
      perform-Leaves Q (executed file (command ∷ commands)) st c h
        (q (executed file (command ∷ commands) ∷ st.journal))

  pub run_hook-Leaves :
      (hook : Application → List String) (suffix : String) (st : Running)
      → All IsClear st.journal
      → Leaves Any (run_hook o hook suffix st)
  unfolding run_hook
  run_hook-Leaves hook suffix st h =
      Leaves-bind (λ next. All (λ s. ¬ HasVariable s) (hook (resolved st).application)) Any
        (unless_failed (ensure_strings (hook (resolved st).application)) (resolved st)) _
        (unless_failed-Leaves _ _ (resolved st) h (ensured (hook (resolved st).application)))
        (λ next clear c. execute_commands-Leaves Any _ _ next c clear (λ j. tt))

  ready_of :
      (a : Application)
      → ensure_launch o a ≡ none
      → All (λ s. ¬ HasVariable s) a.before_scheduler
        × (¬ HasVariable a.launch_command)
        × All (λ s. ¬ HasVariable s) a.args
  unfolding ensure_launch
  ready_of a h =
      let (commands, h₁) = first_failure-none (ensure_strings a.before_scheduler) _ h in
      let (launch, h₂) = first_failure-none (ensure_string a.launch_command) _ h₁ in
      let (options, h₃) = first_failure-none _ _ h₂ in
      let (args, env) = first_failure-none (ensure_strings a.args) _ h₃ in
      (
        ensured a.before_scheduler commands,
        (ensure_string-HasVariable a.launch_command).0 launch,
        ensured a.args args,
      )

  pub before_launch-Leaves :
      (st : Running) → All IsClear st.journal → Leaves IsReady (before_launch o st)
  unfolding before_launch
  before_launch-Leaves st h =
      let a = (resolved st).application in
      Leaves-bind (λ next. All (λ s. ¬ HasVariable s) a.before_scheduler × IsReady next) IsReady
        (unless_failed (ensure_launch o a) (resolved st)) _
        (unless_failed-Leaves _ _ (resolved st) h
          (λ e. let (commands, launch, args) = ready_of a e in (commands, (launch, args))))
        (λ next clear p.
          execute_commands-Leaves IsReady a.before_scheduler _ next p.0 clear (λ j. p.1))

  await-Leaves :
      (max_wait : ℤ) (st : Running) → All IsClear st.journal → Leaves Any (await o max_wait st)
  unfolding await
  await-Leaves max_wait st h =
      unless_failed-Leaves Any _ (note (awaited max_wait) st) (tt, h) (λ e. tt)

  -- The arguments go to Marathon as they are.
  args-create_application :
      (turned : Bool) (re : Regexps) (a : Application) (v : Variables) (mesos : MesosState)
      (m : MarathonApplication)
      → create_application turned re a v mesos ≡ some m
      → m.args ≡ a.args
  unfolding create_application
  args-create_application turned re a v mesos m h = elim (Option-cases (get_instances re a mesos)) [
    | inl e ↦ ground arith
    | inr (n, e) ↦ ground arith
  ]

  run_marathon-Leaves :
      (max_wait : ℤ) (st : Running)
      → All IsClear st.journal
      → IsReady st
      → Leaves Any (run_marathon o max_wait st)
  unfolding run_marathon
  run_marathon-Leaves max_wait st h ready =
      elim (Option-cases (
        create_application (o.turned st.journal) o.regexps st.application st.variables
          (o.mesos st.journal))) [
            | inl e ↦ rw (e, run_marathon) h
            | inr (m, e) ↦
                rw (e, run_marathon)
                  (Leaves-bind Any Any (perform o (created m) st) (await o max_wait)
                    (perform-Leaves Any (created m) st
                      (subst (All (λ s. ¬ HasVariable s))
                        (sym (
                          args-create_application (o.turned st.journal) o.regexps st.application
                            st.variables (o.mesos st.journal) m e))
                        ready.1)
                      h tt)
                    (λ next clear p. await-Leaves max_wait next clear))
          ]

  pub start-Leaves :
      (max_wait : ℤ) (st : Running)
      → All IsClear st.journal
      → IsReady st
      → Leaves Any (start o max_wait st)
  unfolding start
  start-Leaves max_wait st h ready =
      elim (Bool-cases (elem st.application.type o.mesos_task_runners)) [
        | inl mesos ↦ rw mesos (perform-Leaves Any (staged st.application) st ready.0 h tt)
        | inr other ↦ rw other (run_marathon-Leaves max_wait st h ready)
      ]

  call_runner-Leaves :
      (e : Effect) (st : Running)
      → IsClear e
      → All IsClear st.journal
      → Leaves Any (call_runner o e st)
  call_runner-Leaves e st c h =
      unless_failed-Leaves Any (o.answer (e ∷ st.journal))
        (record st {
          variables = o.set_variables (e ∷ st.journal) st.variables;
          journal = e ∷ st.journal;
        })
        (c, h) (λ f. tt)

  pub fill_context-Leaves : (st : Running) → All IsClear st.journal → Leaves Any (fill_context o st)
  unfolding fill_context
  fill_context-Leaves st h = with_tasks (o.tasks (listed_tasks ∷ st.journal))
    where
      with_tasks : (t : TaskList) → Leaves Any (first_task_or_error o t (note listed_tasks st))
      with_tasks (tasks_error e) = (tt, h)
      with_tasks no_task = (tt, h)
      with_tasks some_task = call_runner-Leaves filled (note listed_tasks st) tt (tt, h)

  pub run_task-Leaves :
      (t : Option (String × Option Fields)) (st : Running)
      → All IsClear st.journal
      → Leaves Any (run_task o t st)
  run_task-Leaves none st h = h
  run_task-Leaves (some (key, none)) st h = h
  run_task-Leaves (some (key, some fields)) st h =
      call_runner-Leaves (ran_task key (map_of_fields fields [])) st tt h

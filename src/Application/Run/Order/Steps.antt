-- ===== src/Application/Run/Order/Steps.antt =====
-- What each step of a run does where the run goes on.
use stack_deploy.Prelude.{
  ℕ, zero, suc, String, ◌≡◌, refl, ap, sym, subst, ◌∙◌, inl, inr, Bool, true, false, Option, none,
  some, List, [], ◌∷◌, elem, if◌then◌else◌, Bool-cases, Option-cases,
}
use stack_deploy.Prelude.Int.{ℤ}
use stack_deploy.Prelude.Text.{concat}
use stack_deploy.Application.{Application, Fields, Failure}
use stack_deploy.Application.Marathon.{create_application}
use stack_deploy.Application.Resolve.{ensure_strings}
use stack_deploy.Application.Run.{
  Effect, executed, created, awaited, staged, listed_tasks, ran_task, TaskList, tasks_error,
  no_task, some_task, Outside, Running, Outcome, goes, fails, panics, ◌>>=◌, unless_failed, note,
  resolved, perform, execute_commands, run_hook, ensure_launch, before_launch, await, run_marathon,
  start, call_runner, fill_context, first_task_or_error, run_task, task_at, map_of_fields,
}
use stack_deploy.Application.Run.Order.Kinds.{
  Kind, script, creation, waiting, staging, listing, filling, task, kind, is_empty, keys, Shape,
  shape, done_script, done_start, kinds, shape-resolved,
}

-- Where the run goes on, it has done `f` and kept the shape `s` and the tasks' keys.
abbrev pub Does : (List Kind → List Kind) → Shape → List Kind → Outcome → Type 0
Does f s before (goes st) = (kinds st.journal ≡ f before) × (shape st.application ≡ s)
Does f s before (fails e st) = Unit
Does f s before (panics st) = Unit

pub Does-bind :
    (f g : List Kind → List Kind) (s : Shape) (before : List Kind) (m : Outcome)
    (next : Running → Outcome)
    → Does f s before m
    → ((st : Running) → shape st.application ≡ s → Does g s (kinds st.journal) (next st))
    → Does (λ ks. g (f ks)) s before (m >>= next)
Does-bind f g s before (goes st) next h k = subst (λ ks. Does g s ks (next st)) h.0 (k st h.1)
Does-bind f g s before (fails e st) next h k = tt
Does-bind f g s before (panics st) next h k = tt

unless_failed-Does :
    (f : List Kind → List Kind) (s : Shape) (before : List Kind) (e : Failure) (st : Running)
    → kinds st.journal ≡ f before
    → shape st.application ≡ s
    → Does f s before (unless_failed e st)
unless_failed-Does f s before none st h k = (h, k)
unless_failed-Does f s before (some e) st h k = tt

-- The names of the tasks from a place on.
abbrev key_at : Option (String × Option Fields) → Option String
key_at none = none
key_at (some (key, value)) = some key

abbrev pub skip : ℕ → List String → List String
skip zero ks = ks
skip (suc n) [] = []
skip (suc n) (k ∷ ks) = skip n ks

pub key_at-task_at :
    (n : ℕ) (tasks : List (String × Option Fields)) (key : String) (left : List String)
    → skip n (keys tasks) ≡ key ∷ left
    → (key_at (task_at n tasks) ≡ some key) × (skip (suc n) (keys tasks) ≡ left)
key_at-task_at zero [] key left h = cc
key_at-task_at (suc n) [] key left h = cc
key_at-task_at zero ((k, v) ∷ tasks) key left h = (cc, cc)
key_at-task_at (suc n) ((k, v) ∷ tasks) key left h = key_at-task_at n tasks key left h

module _ (o : Outside) where
  execute_commands-Does :
      (commands : List String) (file : String) (s : Shape) (st : Running)
      → shape st.application ≡ s
      → Does
          (λ ks. if is_empty commands then ks else script file ∷ ks)
          s
          (kinds st.journal)
          (execute_commands o commands file st)
  unfolding execute_commands
  execute_commands-Does [] file s st h = (refl, h)
  execute_commands-Does (c ∷ cs) file s st h =
      unless_failed-Does (λ ks. script file ∷ ks) s (kinds st.journal)
        (o.answer (executed file (c ∷ cs) ∷ st.journal)) (note (executed file (c ∷ cs)) st) refl h

  -- A hook after a test.
  tested-Does :
      (f : Failure) (commands : List String) (no_commands : Bool) (id suffix file : String)
      (s : Shape) (st : Running)
      → shape st.application ≡ s
      → is_empty commands ≡ no_commands
      → concat (id ∷ suffix ∷ []) ≡ file
      → Does
          (done_script no_commands id suffix)
          s
          (kinds st.journal)
          (unless_failed f st >>= execute_commands o commands file)
  tested-Does (some e) commands no_commands id suffix file s st h k l = tt
  tested-Does none commands no_commands id suffix file s st h k l =
      subst
        (λ b.
          Does (λ ks. if b then ks else script (concat (id ∷ suffix ∷ [])) ∷ ks) s
            (kinds st.journal) (execute_commands o commands file st))
        k
        (subst
          (λ x.
            Does (λ ks. if is_empty commands then ks else script x ∷ ks) s (kinds st.journal)
              (execute_commands o commands file st))
          (sym l) (execute_commands-Does commands file s st h))

  pub run_hook-Does :
      (hook : Application → List String) (lacks : Shape → Bool) (suffix : String) (s : Shape)
      (st : Running)
      → ((a : Application) → is_empty (hook a) ≡ lacks (shape a))
      → shape st.application ≡ s
      → Does (done_script (lacks s) s.id suffix) s (kinds st.journal) (run_hook o hook suffix st)
  unfolding run_hook
  run_hook-Does hook lacks suffix s st same h =
      let here = shape-resolved st ∙ h in
      tested-Does (ensure_strings (hook (resolved st).application)) (hook (resolved st).application)
        (lacks s) s.id suffix (concat ((resolved st).application.id ∷ suffix ∷ [])) s (resolved st)
        here (same (resolved st).application ∙ ap lacks here)
        (ap (λ x. concat (x.id ∷ suffix ∷ [])) (sym here))

  pub before_launch-Does :
      (s : Shape) (st : Running)
      → shape st.application ≡ s
      → Does
          (done_script s.no_before_scheduler s.id "_before_scheduler.sh")
          s
          (kinds st.journal)
          (before_launch o st)
  unfolding before_launch
  before_launch-Does s st h =
      let here = shape-resolved st ∙ h in
      tested-Does (ensure_launch o (resolved st).application)
        (resolved st).application.before_scheduler s.no_before_scheduler s.id "_before_scheduler.sh"
        (concat ((resolved st).application.id ∷ "_before_scheduler.sh" ∷ [])) s (resolved st) here
        (ap (λ x. x.no_before_scheduler) here)
        (ap (λ x. concat (x.id ∷ "_before_scheduler.sh" ∷ [])) (sym here))

  run_marathon-Does :
      (max_wait : ℤ) (s : Shape) (st : Running)
      → shape st.application ≡ s
      → Does (done_start false) s (kinds st.journal) (run_marathon o max_wait st)
  unfolding run_marathon await
  run_marathon-Does max_wait s st h =
      elim (Option-cases (
        create_application (o.turned st.journal) o.regexps st.application st.variables
          (o.mesos st.journal))) [
            | inl e ↦ rw (e, run_marathon) tt
            | inr (m, e) ↦
                rw (e, run_marathon)
                  (Does-bind (λ ks. creation ∷ ks) (λ ks. waiting ∷ ks) s (kinds st.journal)
                    (perform o (created m) st) (await o max_wait)
                    (unless_failed-Does (λ ks. creation ∷ ks) s (kinds st.journal)
                      (o.answer (created m ∷ st.journal)) (note (created m) st) refl h)
                    (λ next k.
                      unless_failed-Does (λ ks. waiting ∷ ks) s (kinds next.journal) _
                        (note (awaited max_wait) next) refl k))
          ]

  pub start-Does :
      (max_wait : ℤ) (s : Shape) (st : Running)
      → shape st.application ≡ s
      → Does
          (done_start (elem s.type o.mesos_task_runners))
          s
          (kinds st.journal)
          (start o max_wait st)
  unfolding start
  start-Does max_wait s st h = elim (Bool-cases (elem st.application.type o.mesos_task_runners)) [
    | inl mesos ↦
        let there : elem s.type o.mesos_task_runners ≡ true =
          ap (λ x. elem x.type o.mesos_task_runners) (sym h) ∙ mesos in
        rw (mesos, there)
          (unless_failed-Does (λ ks. staging ∷ ks) s (kinds st.journal)
            (o.answer (staged st.application ∷ st.journal)) (note (staged st.application) st) refl
            h)
    | inr other ↦
        let there : elem s.type o.mesos_task_runners ≡ false =
          ap (λ x. elem x.type o.mesos_task_runners) (sym h) ∙ other in
        rw (other, there) (run_marathon-Does max_wait s st h)
  ]

  call_runner-Does :
      (e : Effect) (s : Shape) (st : Running)
      → shape st.application ≡ s
      → Does (λ ks. kind e ∷ ks) s (kinds st.journal) (call_runner o e st)
  call_runner-Does e s st h =
      unless_failed-Does (λ ks. kind e ∷ ks) s (kinds st.journal) (o.answer (e ∷ st.journal)) _ refl
        h

  pub fill_context-Does :
      (s : Shape) (st : Running)
      → shape st.application ≡ s
      → Does (λ ks. filling ∷ listing ∷ ks) s (kinds st.journal) (fill_context o st)
  unfolding fill_context
  fill_context-Does s st h = with_tasks (o.tasks (listed_tasks ∷ st.journal))
    where
      with_tasks :
          (t : TaskList)
          → Does
              (λ ks. filling ∷ listing ∷ ks)
              s
              (kinds st.journal)
              (first_task_or_error o t (note listed_tasks st))
      with_tasks (tasks_error e) = tt
      with_tasks no_task = tt
      with_tasks some_task =
          unless_failed-Does (λ ks. filling ∷ listing ∷ ks) s (kinds st.journal) _ _ refl h

  pub run_task-Does :
      (t : Option (String × Option Fields)) (key : String) (s : Shape) (st : Running)
      → key_at t ≡ some key
      → shape st.application ≡ s
      → Does (λ ks. task key ∷ ks) s (kinds st.journal) (run_task o t st)
  run_task-Does none key s st h k = tt
  run_task-Does (some (x, none)) key s st h k = tt
  run_task-Does (some (x, some fields)) key s st h k =
      let same : x ≡ key = cc in
      subst
        (λ y. Does (λ ks. task y ∷ ks) s (kinds st.journal) (run_task o (some (x, some fields)) st))
        same (call_runner-Does (ran_task x (map_of_fields fields [])) s st k)

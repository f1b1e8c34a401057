-- ===== src/Application/Run/Clear.antt =====
-- What a run does with texts in which a variable is unresolved.
pub mod Steps
use stack_deploy.Prelude.{ℕ, suc, String, inl, inr, Option, List, [], ◌∷◌, All, elem, Bool-cases}
use stack_deploy.Prelude.Int.{ℤ}
use stack_deploy.Variables.{Variables}
use stack_deploy.Application.{Application, Fields}
use stack_deploy.Application.Run.{
  executed, created, staged, Outside, Running, run_hook, before_launch, start, fill_context,
  run_task, task_at, run_tasks, run_runner, run,
}
use stack_deploy.Application.Run.Clear.Steps.{
  IsClear, journal_of, Any, Leaves, Leaves-bind, Leaves-journal, IsReady, run_hook-Leaves,
  before_launch-Leaves, start-Leaves, fill_context-Leaves, run_task-Leaves,
}

module _ (o : Outside) where
  run_tasks-Leaves :
      (left : List (String × Option Fields)) (n : ℕ) (st : Running)
      → All IsClear st.journal
      → Leaves Any (run_tasks o left n st)
  unfolding run_tasks
  run_tasks-Leaves [] n st h = (h, tt)
  run_tasks-Leaves (t ∷ left) n st h =
      Leaves-bind Any Any _ (run_tasks o left (suc n))
        (Leaves-bind Any Any _ (run_hook o (λ a. a.after_task) "_after_task.sh")
          (Leaves-bind Any Any (run_hook o (λ a. a.before_task) "_before_task.sh" st)
            (λ next. run_task o (task_at n next.application.tasks) next)
            (run_hook-Leaves o (λ a. a.before_task) "_before_task.sh" st h)
            (λ next clear p. run_task-Leaves o (task_at n next.application.tasks) next clear))
          (λ next clear p. run_hook-Leaves o (λ a. a.after_task) "_after_task.sh" next clear))
        (λ next clear p. run_tasks-Leaves left (suc n) next clear)

  run_runner-Leaves : (st : Running) → All IsClear st.journal → Leaves Any (run_runner o st)
  unfolding run_runner
  run_runner-Leaves st h = elim (Bool-cases (elem st.application.type o.task_runners)) [
    | inl runner ↦ rw runner (
        Leaves-bind Any Any (fill_context o st) (λ next. run_tasks o next.application.tasks 0 next)
          (fill_context-Leaves o st h)
          (λ next clear p. run_tasks-Leaves next.application.tasks 0 next clear))
    | inr other ↦ rw other (h, tt)
  ]

  run-Leaves :
      (max_wait : ℤ) (st : Running) → All IsClear st.journal → Leaves Any (run o max_wait st)
  unfolding run
  run-Leaves max_wait st h =
      Leaves-bind Any Any _ (run_hook o (λ a. a.after_tasks) "_after_tasks.sh")
        (Leaves-bind Any Any _ (run_runner o)
          (Leaves-bind Any Any _ (run_hook o (λ a. a.after_scheduler) "_after_scheduler.sh")
            (Leaves-bind IsReady Any (before_launch o st) (start o max_wait)
              (before_launch-Leaves o st h)
              (λ next clear ready. start-Leaves o max_wait next clear ready))
            (λ next clear p.
              run_hook-Leaves o (λ a. a.after_scheduler) "_after_scheduler.sh" next clear))
          (λ next clear p. run_runner-Leaves next clear))
        (λ next clear p. run_hook-Leaves o (λ a. a.after_tasks) "_after_tasks.sh" next clear)

-- However a run ends and whatever the outside answers, no command of a script that it executed, no
-- argument of the application that it created in Marathon, and no launch command of an application
-- that it staged as a Mesos task had an unresolved variable in it.
pub run-IsClear :
    (o : Outside) (max_wait : ℤ) (a : Application) (v : Variables)
    → All IsClear
        (journal_of (run o max_wait (record { application = a; variables = v; journal = [] })))
run-IsClear o max_wait a v = Leaves-journal Any _ (run-Leaves o max_wait _ tt)

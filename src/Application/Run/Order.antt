-- ===== src/Application/Run/Order.antt =====
-- The order of what a run does when it succeeds.
pub mod Kinds
pub mod Steps
use stack_deploy.Prelude.{
  ℕ, suc, String, ◌≡◌, refl, ap, sym, subst, ◌∙◌, inl, inr, true, false, Option, List, [], ◌∷◌,
  elem, Bool-cases,
}
use stack_deploy.Prelude.Int.{ℤ}
use stack_deploy.Variables.{Variables}
use stack_deploy.Application.{Application, Fields}
use stack_deploy.Application.Run.{
  Outside, Running, goes, run_hook, before_launch, start, fill_context, run_task, task_at,
  run_tasks, run_runner, run,
}
use stack_deploy.Application.Run.Order.Kinds.{
  listing, filling, task, keys, Shape, shape, done_script, done_tasks, done_start, done_runner,
  done, kinds,
}
use stack_deploy.Application.Run.Order.Steps.{
  Does, Does-bind, run_hook-Does, before_launch-Does, start-Does, fill_context-Does, key_at-task_at,
  run_task-Does, skip,
}

module _ (o : Outside) where
  run_tasks-Does :
      (left : List (String × Option Fields)) (n : ℕ) (s : Shape) (st : Running)
      → skip n s.tasks ≡ keys left
      → shape st.application ≡ s
      → Does (done_tasks s (keys left)) s (kinds st.journal) (run_tasks o left n st)
  unfolding run_tasks
  run_tasks-Does [] n s st e h = (refl, h)
  run_tasks-Does ((key, value) ∷ left) n s st e h =
      let at = λ (next : Running) (k : shape next.application ≡ s).
        key_at-task_at n next.application.tasks key (keys left) (ap (λ x. skip n x.tasks) k ∙ e) in
      let later : skip (suc n) s.tasks ≡ keys left =
        ap (λ x. skip (suc n) x.tasks) (sym h) ∙ (at st h).1 in
      Does-bind
        (λ ks.
          done_script s.no_after_task s.id "_after_task.sh"
            (task key ∷ done_script s.no_before_task s.id "_before_task.sh" ks))
        (done_tasks s (keys left)) s (kinds st.journal) _ (run_tasks o left (suc n))
        (Does-bind (λ ks. task key ∷ done_script s.no_before_task s.id "_before_task.sh" ks)
          (done_script s.no_after_task s.id "_after_task.sh") s (kinds st.journal) _
          (run_hook o (λ a. a.after_task) "_after_task.sh")
          (Does-bind (done_script s.no_before_task s.id "_before_task.sh") (λ ks. task key ∷ ks) s
            (kinds st.journal) (run_hook o (λ a. a.before_task) "_before_task.sh" st)
            (λ next. run_task o (task_at n next.application.tasks) next)
            (run_hook-Does o (λ a. a.before_task) (λ x. x.no_before_task) "_before_task.sh" s st
              (λ a. refl) h)
            (λ next k.
              run_task-Does o (task_at n next.application.tasks) key s next (at next k).0 k))
          (λ next k.
            run_hook-Does o (λ a. a.after_task) (λ x. x.no_after_task) "_after_task.sh" s next
              (λ a. refl) k))
        (λ next k. run_tasks-Does left (suc n) s next later k)

  run_runner-Does :
      (s : Shape) (st : Running)
      → shape st.application ≡ s
      → Does (done_runner (elem s.type o.task_runners) s) s (kinds st.journal) (run_runner o st)
  unfolding run_runner
  run_runner-Does s st h = elim (Bool-cases (elem st.application.type o.task_runners)) [
    | inl runner ↦
        let there : elem s.type o.task_runners ≡ true =
          ap (λ x. elem x.type o.task_runners) (sym h) ∙ runner in
        rw (runner, there)
          (Does-bind (λ ks. filling ∷ listing ∷ ks) (done_tasks s s.tasks) s (kinds st.journal)
            (fill_context o st) (λ next. run_tasks o next.application.tasks 0 next)
            (fill_context-Does o s st h)
            (λ next k.
              subst
                (λ ts.
                  Does (done_tasks s ts) s (kinds next.journal)
                    (run_tasks o next.application.tasks 0 next))
                (ap (λ x. x.tasks) k)
                (run_tasks-Does next.application.tasks 0 s next (ap (λ x. x.tasks) (sym k)) k)))
    | inr other ↦
        let there : elem s.type o.task_runners ≡ false =
          ap (λ x. elem x.type o.task_runners) (sym h) ∙ other in
        rw (other, there) (refl, h)
  ]

  run-Does :
      (max_wait : ℤ) (s : Shape) (st : Running)
      → shape st.application ≡ s
      → Does (done o s) s (kinds st.journal) (run o max_wait st)
  unfolding run
  run-Does max_wait s st h =
      let b = done_script s.no_before_scheduler s.id "_before_scheduler.sh" in
      let l = done_start (elem s.type o.mesos_task_runners) in
      let a = done_script s.no_after_scheduler s.id "_after_scheduler.sh" in
      let r = done_runner (elem s.type o.task_runners) s in
      Does-bind (λ ks. r (a (l (b ks)))) (done_script s.no_after_tasks s.id "_after_tasks.sh") s
        (kinds st.journal) _ (run_hook o (λ x. x.after_tasks) "_after_tasks.sh")
        (Does-bind (λ ks. a (l (b ks))) r s (kinds st.journal) _ (run_runner o)
          (Does-bind (λ ks. l (b ks)) a s (kinds st.journal) _
            (run_hook o (λ x. x.after_scheduler) "_after_scheduler.sh")
            (Does-bind b l s (kinds st.journal) (before_launch o st) (start o max_wait)
              (before_launch-Does o s st h) (λ next k. start-Does o max_wait s next k))
            (λ next k.
              run_hook-Does o (λ x. x.after_scheduler) (λ x. x.no_after_scheduler)
                "_after_scheduler.sh" s next (λ x. refl) k))
          (λ next k. run_runner-Does s next k))
        (λ next k.
          run_hook-Does o (λ x. x.after_tasks) (λ x. x.no_after_tasks) "_after_tasks.sh" s next
            (λ x. refl) k)

-- A run that succeeds has done, in this order: the commands before the scheduler; the start of the
-- application, in Marathon with the wait for it, or as a Mesos task; the commands after the
-- scheduler; where its type has a task runner, the filling of the context and for each task in turn
-- the commands before it, the task and the commands after it; and the commands after the tasks. A
-- hook without commands does nothing.
pub run_order :
    (o : Outside) (max_wait : ℤ) (a : Application) (v : Variables) (st : Running)
    → run o max_wait (record { application = a; variables = v; journal = [] }) ≡ goes st
    → kinds st.journal ≡ done o (shape a) []
run_order o max_wait a v st h =
    (subst (Does (done o (shape a)) (shape a) []) h (
      run-Does o max_wait (shape a) (record { application = a; variables = v; journal = [] })
        refl)).0

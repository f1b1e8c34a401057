-- ===== src/RunOnce/Counted.antt =====
-- What a context launches, and when it reports success.
use stack_deploy.Prelude.{
  ℕ, zero, suc, ◌+◌, String, ◌≡◌, refl, ap, Bool, true, false, List, [], ◌∷◌, arith, subst, length,
  length-append, All, if◌then◌else◌,
}
use stack_deploy.Prelude.Int.{pos}
use stack_deploy.Constraints.{Regexps}
use stack_deploy.Application.{Application}
use stack_deploy.RunOnce.{
  TaskState, task_staging, task_starting, task_running, task_finished, task_failed, task_killed,
  task_lost, task_error, Task, Offer, Context, Answer, accepts, panics, declines, Report, silent,
  succeeded, is_done, is_zero, decrement, new_run_once_task, new_task_info, matches_offer,
  launch_task, update_task_state, all_done, all_tasks_finished, status_update_of,
}

-- What happens to a context: an offer with the uuid of the task it may lead to, and a status update
-- with the host, the id and the state of a task.
pub data Event : Type 0 where
  offers : Offer → String → Event
  updates : String → String → TaskState → Event

abbrev pub after_offer : Answer → Context → Context → Context
after_offer accepts ctx next = next
after_offer _ ctx next = ctx

abbrev pub step : Regexps → Context → Event → Context × Report
step re ctx (offers offer uuid) =
    (after_offer (matches_offer re ctx offer) ctx (launch_task ctx offer uuid).0, silent)
step re ctx (updates host task_id state) = status_update_of ctx host task_id state

-- The context and the last report after some events, the latest first.
unfoldable pub run : Regexps → Context → List Event → Context × Report
run re ctx [] = (ctx, silent)
run re ctx (e ∷ es) = step re (run re ctx es).0 e

abbrev pub new_context : Application → ℕ → Context
new_context a n = record { application = a; instances_left = pos n; tasks = [] }

-- `left` instances are to be launched, and with the tasks they make `n`.
pub record IsCounted (n : ℕ) (ctx : Context) : Type 0 where
  pub left : ℕ
  pub shown : ctx.instances_left ≡ pos left
  pub total : left + length ctx.tasks ≡ n

length-update_task_state :
    (task_id : String) (state : TaskState) (ts : List Task)
    → length (update_task_state task_id state ts) ≡ length ts
unfolding update_task_state
length-update_task_state task_id state [] = refl
length-update_task_state task_id state (t ∷ ts) =
    ground (arith, length-update_task_state task_id state ts)

after-IsCounted :
    (n : ℕ) (answer : Answer) (ctx next : Context)
    → IsCounted n ctx
    → IsCounted n next
    → IsCounted n (after_offer answer ctx next)
after-IsCounted n accepts ctx next h k = k
after-IsCounted n panics ctx next h k = h
after-IsCounted n (declines r) ctx next h k = h

launched-IsCounted :
    (n left : ℕ) (ctx : Context) (offer : Offer) (uuid : String)
    → ctx.instances_left ≡ pos (suc left)
    → suc left + length ctx.tasks ≡ n
    → IsCounted n (launch_task ctx offer uuid).0
unfolding launch_task
launched-IsCounted n left ctx offer uuid shown total = record {
  left = left;
  shown = ap decrement shown;
  total =
      rw
        (length-append ctx.tasks
          (new_run_once_task offer (new_task_info ctx offer uuid).task_id ∷ []))
        (omega arith);
}

-- Nothing is launched when no instance is left.
none_left :
    (re : Regexps) (ctx : Context) (offer : Offer) (next : Context)
    → ctx.instances_left ≡ pos 0
    → after_offer (matches_offer re ctx offer) ctx next ≡ ctx
unfolding matches_offer
none_left re ctx offer next h = rw h

launch-IsCounted :
    (re : Regexps) (n : ℕ) (ctx : Context) (offer : Offer) (uuid : String) (left : ℕ)
    → ctx.instances_left ≡ pos left
    → left + length ctx.tasks ≡ n
    → IsCounted n (after_offer (matches_offer re ctx offer) ctx (launch_task ctx offer uuid).0)
launch-IsCounted re n ctx offer uuid zero shown total =
    rw (none_left re ctx offer (launch_task ctx offer uuid).0 shown)
      (record { left = 0; shown = shown; total = total })
launch-IsCounted re n ctx offer uuid (suc left) shown total =
    after-IsCounted n (matches_offer re ctx offer) ctx (launch_task ctx offer uuid).0
      (record { left = suc left; shown = shown; total = total })
      (launched-IsCounted n left ctx offer uuid shown total)

next-IsCounted :
    (n : ℕ) (ctx : Context) (task_id : String) (state : TaskState)
    → IsCounted n ctx
    → IsCounted n (record ctx { tasks = update_task_state task_id state ctx.tasks })
next-IsCounted n ctx task_id state h = record {
  left = h.left;
  shown = h.shown;
  total = rw (length-update_task_state task_id state ctx.tasks) h.total;
}

update-IsCounted :
    (n : ℕ) (ctx : Context) (host task_id : String) (state : TaskState)
    → IsCounted n ctx
    → IsCounted n (status_update_of ctx host task_id state).0
unfolding status_update_of
update-IsCounted n ctx host task_id task_staging h = next-IsCounted n ctx task_id task_staging h
update-IsCounted n ctx host task_id task_starting h = next-IsCounted n ctx task_id task_starting h
update-IsCounted n ctx host task_id task_running h = next-IsCounted n ctx task_id task_running h
update-IsCounted n ctx host task_id task_finished h = next-IsCounted n ctx task_id task_finished h
update-IsCounted n ctx host task_id task_failed h = next-IsCounted n ctx task_id task_failed h
update-IsCounted n ctx host task_id task_killed h = next-IsCounted n ctx task_id task_killed h
update-IsCounted n ctx host task_id task_lost h = next-IsCounted n ctx task_id task_lost h
update-IsCounted n ctx host task_id task_error h = next-IsCounted n ctx task_id task_error h

-- After any offers and status updates of a new context with n instances to run, the tasks it
-- launched and the instances left to launch, which are not negative, are n together.
pub run-IsCounted :
    (re : Regexps) (a : Application) (n : ℕ) (es : List Event)
    → IsCounted n (run re (new_context a n) es).0
unfolding run
run-IsCounted re a n [] = record { left = n; shown = refl; total = omega arith }
run-IsCounted re a n (offers offer uuid ∷ es) =
    let h = run-IsCounted re a n es in
    launch-IsCounted re n (run re (new_context a n) es).0 offer uuid h.left h.shown h.total
run-IsCounted re a n (updates host task_id state ∷ es) =
    update-IsCounted n (run re (new_context a n) es).0 host task_id state (run-IsCounted re a n es)

all_done-All : (ts : List Task) → all_done ts ≡ true → All (λ t. is_done t.state ≡ true) ts
unfolding all_done
all_done-All [] h = tt
all_done-All (t ∷ ts) h = (ground arith, all_done-All ts (ground arith))

abbrev pub is_success : Report → Bool
is_success succeeded = true
is_success _ = false

report_if : (b : Bool) → is_success (if b then succeeded else silent) ≡ true → b ≡ true
report_if true h = refl
report_if false h = cc

-- Success is reported only when all tasks are done.
succeeded-finished :
    (ctx : Context) (host task_id : String) (state : TaskState)
    → is_success (status_update_of ctx host task_id state).1 ≡ true
    → all_tasks_finished (status_update_of ctx host task_id state).0 ≡ true
unfolding status_update_of
succeeded-finished ctx host task_id task_staging h = cc
succeeded-finished ctx host task_id task_starting h = cc
succeeded-finished ctx host task_id task_running h = cc
succeeded-finished ctx host task_id task_failed h = cc
succeeded-finished ctx host task_id task_lost h = cc
succeeded-finished ctx host task_id task_error h = cc
succeeded-finished ctx host task_id task_finished h = report_if _ h
succeeded-finished ctx host task_id task_killed h = report_if _ h

is_zero-pos : (left : ℕ) → is_zero (pos left) ≡ true → left ≡ 0
is_zero-pos zero h = refl
is_zero-pos (suc left) h = cc

finished-all :
    (n : ℕ) (ctx : Context)
    → IsCounted n ctx
    → all_tasks_finished ctx ≡ true
    → (length ctx.tasks ≡ n) × All (λ t. is_done t.state ≡ true) ctx.tasks
unfolding all_tasks_finished
finished-all n ctx h done =
    let zero_left : is_zero ctx.instances_left ≡ true = ground arith in
    let none_left = is_zero-pos h.left (subst (λ i. is_zero i ≡ true) h.shown zero_left) in
    let total = h.total in (omega arith, all_done-All ctx.tasks (ground arith))

step-finished :
    (re : Regexps) (ctx : Context) (e : Event)
    → is_success (step re ctx e).1 ≡ true
    → all_tasks_finished (step re ctx e).0 ≡ true
step-finished re ctx (offers offer uuid) h = cc
step-finished re ctx (updates host task_id state) h = succeeded-finished ctx host task_id state h

run-finished :
    (re : Regexps) (ctx : Context) (es : List Event)
    → is_success (run re ctx es).1 ≡ true
    → all_tasks_finished (run re ctx es).0 ≡ true
unfolding run
run-finished re ctx [] h = cc
run-finished re ctx (e ∷ es) h = step-finished re (run re ctx es).0 e h

-- When the last of some offers and status updates makes a new context with n instances to run
-- report success, it has launched n tasks, and each of them has finished or was killed.
pub run-succeeded :
    (re : Regexps) (a : Application) (n : ℕ) (es : List Event)
    → is_success (run re (new_context a n) es).1 ≡ true
    → (length (run re (new_context a n) es).0.tasks ≡ n)
      × All (λ t. is_done t.state ≡ true) (run re (new_context a n) es).0.tasks
run-succeeded re a n es h =
    finished-all n (run re (new_context a n) es).0 (run-IsCounted re a n es)
      (run-finished re (new_context a n) es h)

-- ===== src/Application/Run/Order/Kinds.antt =====
-- What the order of a run depends on, which no resolution of variables changes, and the order.
use stack_deploy.Prelude.{
  String, ◌≡◌, refl, ap, ◌∙◌, Bool, true, false, Option, none, some, List, [], ◌∷◌, map, elem,
  if◌then◌else◌,
}
use stack_deploy.Prelude.Text.{concat}
use stack_deploy.Map.{Map}
use stack_deploy.Variables.{all_variables}
use stack_deploy.Application.{Application, Fields}
use stack_deploy.Application.Resolve.{
  resolve_text, resolve_cmd_variables, resolve_one, resolve_each, resolve_variables, map_tasks,
}
use stack_deploy.Application.Run.{
  Effect, executed, created, awaited, staged, listed_tasks, filled, ran_task, Outside, Running,
  resolved,
}

-- An effect without its contents.
pub data Kind : Type 0 where
  script : (file : String) → Kind
  creation waiting staging listing filling : Kind
  task : (key : String) → Kind

abbrev pub kind : Effect → Kind
kind (executed file commands) = script file
kind (created m) = creation
kind (awaited max_wait) = waiting
kind (staged a) = staging
kind listed_tasks = listing
kind filled = filling
kind (ran_task key fields) = task key

abbrev pub is_empty : List String → Bool
is_empty [] = true
is_empty (x ∷ xs) = false

abbrev pub keys : List (String × Option Fields) → List String
keys [] = []
keys ((key, value) ∷ tasks) = key ∷ keys tasks

-- What the order depends on, and no resolution changes: which hooks have commands.
pub record Shape : Type 0 where
  pub id : String
  pub type : String
  pub tasks : List String
  pub no_before_scheduler : Bool
  pub no_after_scheduler : Bool
  pub no_before_task : Bool
  pub no_after_task : Bool
  pub no_after_tasks : Bool

abbrev pub shape : Application → Shape
shape a = record {
  id = a.id;
  type = a.type;
  tasks = keys a.tasks;
  no_before_scheduler = is_empty a.before_scheduler;
  no_after_scheduler = is_empty a.after_scheduler;
  no_before_task = is_empty a.before_task;
  no_after_task = is_empty a.after_task;
  no_after_tasks = is_empty a.after_tasks;
}

-- The kinds that a run has done, the newest first, on top of `before`.
abbrev pub done_script : Bool → String → String → List Kind → List Kind
done_script no_commands id suffix before =
    if no_commands then before else script (concat (id ∷ suffix ∷ [])) ∷ before

abbrev pub done_tasks : Shape → List String → List Kind → List Kind
done_tasks s [] before = before
done_tasks s (key ∷ left) before = done_tasks s left (
    done_script s.no_after_task s.id "_after_task.sh"
      (task key ∷ done_script s.no_before_task s.id "_before_task.sh" before))

abbrev pub done_start : Bool → List Kind → List Kind
done_start true before = staging ∷ before
done_start false before = waiting ∷ creation ∷ before

abbrev pub done_runner : Bool → Shape → List Kind → List Kind
done_runner true s before = done_tasks s s.tasks (filling ∷ listing ∷ before)
done_runner false s before = before

abbrev pub done : Outside → Shape → List Kind → List Kind
done o s before = done_script s.no_after_tasks s.id "_after_tasks.sh" (
    done_runner (elem s.type o.task_runners) s (
      done_script s.no_after_scheduler s.id "_after_scheduler.sh" (
        done_start (elem s.type o.mesos_task_runners)
          (done_script s.no_before_scheduler s.id "_before_scheduler.sh" before))))

abbrev pub kinds : List Effect → List Kind
kinds [] = []
kinds (e ∷ es) = kind e ∷ kinds es

keys-map_tasks :
    (f : String → String) (tasks : List (String × Option Fields))
    → keys (map_tasks f tasks) ≡ keys tasks
keys-map_tasks f [] = refl
keys-map_tasks f ((key, none) ∷ tasks) = ap (λ ks. key ∷ ks) (keys-map_tasks f tasks)
keys-map_tasks f ((key, some fields) ∷ tasks) = ap (λ ks. key ∷ ks) (keys-map_tasks f tasks)

is_empty-map :
    (f : String → String) (commands : List String) → is_empty (map f commands) ≡ is_empty commands
is_empty-map f [] = refl
is_empty-map f (c ∷ cs) = refl

is_empty-resolve_cmd_variables :
    (all : Map String) (commands : List String)
    → is_empty (resolve_cmd_variables all commands) ≡ is_empty commands
unfolding resolve_cmd_variables
is_empty-resolve_cmd_variables [] commands = refl
is_empty-resolve_cmd_variables (v ∷ all) commands =
    is_empty-resolve_cmd_variables all (map (resolve_text v) commands)
    ∙ is_empty-map (resolve_text v) commands

shape-resolve_one :
    (all : Map String) (v : String × String) (a : Application)
    → shape (resolve_one all v a) ≡ shape a
unfolding resolve_one
shape-resolve_one all v a = simp (keys-map_tasks, is_empty-resolve_cmd_variables)

shape-resolve_each :
    (all vs : Map String) (a : Application) → shape (resolve_each all vs a) ≡ shape a
unfolding resolve_each
shape-resolve_each all [] a = refl
shape-resolve_each all (v ∷ vs) a =
    shape-resolve_each all vs (resolve_one all v a) ∙ shape-resolve_one all v a

pub shape-resolved : (st : Running) → shape (resolved st).application ≡ shape st.application
unfolding resolve_variables
shape-resolved st =
    shape-resolve_each (all_variables st.variables) (all_variables st.variables) st.application

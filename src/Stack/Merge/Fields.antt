-- ===== src/Stack/Merge/Fields.antt =====
-- Stack.Merge, application by application and field by field.
use stack_deploy.Prelude.{String, ◌≡◌, ◌≢◌, true, Option, none, some, []}
use stack_deploy.Prelude.Float.{zero_float}
use stack_deploy.Map.{Map, lookup}
use stack_deploy.Application.{Application}
use stack_deploy.Stack.{Stack}
use stack_deploy.Stack.Merge.{merged_option}

-- The child's value where it is not the zero value, and the parent's where it is.
abbrev pub Overrides {ℓ} : {A : Type ℓ} → (unset child parent merged : A) → Type ℓ
Overrides unset child parent merged =
    (child ≢ unset → merged ≡ child) × (child ≡ unset → merged ≡ parent)

-- An application `m` that has what the child sets and is else the parent's.
pub record IsMerged (parent child m : Application) : Type 0 where
  pub ids : Overrides "" child.id parent.id m.id
  pub versions : Overrides "" child.version parent.version m.version
  pub cpus : Overrides zero_float child.cpu parent.cpu m.cpu
  pub mems : Overrides zero_float child.mem parent.mem m.mem
  pub ports_set : Overrides [] child.ports parent.ports m.ports
  pub users : Overrides "" child.user parent.user m.user
  pub healthchecks : Overrides "" child.healthcheck parent.healthcheck m.healthcheck
  pub commands : Overrides "" child.launch_command parent.launch_command m.launch_command
  pub urls : Overrides [] child.artifact_urls parent.artifact_urls m.artifact_urls
  pub additional :
      Overrides [] child.additional_artifacts parent.additional_artifacts m.additional_artifacts
  pub needed : Overrides [] child.dependencies parent.dependencies m.dependencies
  pub options :
      (k : String)
      → lookup k m.scheduler ≡ merged_option (lookup k child.scheduler) (lookup k parent.scheduler)
  pub tasks_set : Overrides [] child.tasks parent.tasks m.tasks
  pub before_schedulers :
      Overrides [] child.before_scheduler parent.before_scheduler m.before_scheduler
  pub after_schedulers : Overrides [] child.after_scheduler parent.after_scheduler m.after_scheduler
  pub before_tasks : Overrides [] child.before_task parent.before_task m.before_task
  pub after_one : Overrides [] child.after_task parent.after_task m.after_task
  pub after_all : Overrides [] child.after_tasks parent.after_tasks m.after_tasks
  pub types : m.type ≡ parent.type
  pub counts : m.instances ≡ parent.instances
  pub constraint_lists : m.constraints ≡ parent.constraints
  pub arguments : m.args ≡ parent.args
  pub environments : m.env ≡ parent.env
  pub dockers : m.docker ≡ parent.docker
  pub start_times : m.start_time ≡ parent.start_time
  pub schedules : m.time_schedule ≡ parent.time_schedule

-- The parent's map is nil, and the child has an application.
abbrev pub AddsToNil : Stack → Stack → Type 0
AddsToNil s child = (s.nil_applications ≡ true) × (child.applications ≢ [])

-- What the merged stack has of a name, by what the child and the parent have.
abbrev pub Merges : Option Application → Option Application → Option Application → Type 0
Merges none parent got = got ≡ parent
Merges (some child) none got = got ≡ some child
Merges (some child) (some parent) got = (m : Application) × (got ≡ some m) × IsMerged parent child m

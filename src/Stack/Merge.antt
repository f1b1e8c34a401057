-- ===== src/Stack/Merge.antt =====
-- Stack.Merge with the setters of framework/util.go: a child stack laid over its parent. The child's
-- applications that the parent lacks are shared with it in the source, and copied here.
pub mod Fields
use stack_deploy.Prelude.{
  subst, ap, inl, inr, String-cases, String, ◌≡◌, ◌≢◌, sym, refl, zero, suc, Bool, true, false, ◌⊎◌,
  Option, none, some, List, [], ◌∷◌, arith, ◌==◌, eq_iff, if◌then◌else◌,
}
use stack_deploy.Prelude.Float.{Float64, nan, neg_inf, num, pos_inf, zero_float, ne_zero_float}
use stack_deploy.Prelude.Int.{pos, negsuc}
use stack_deploy.Map.{Map, IsMap, lookup, insert, remove, lookup-insert, lookup-remove}
use stack_deploy.Application.{Application}
use stack_deploy.Stack.{Stack}

-- setStringSlice, setIntSlice, and the test on Tasks
abbrev pub set_slice {ℓ} : {A : Type ℓ} → List A → List A → List A
set_slice [] to = to
set_slice (x ∷ xs) to = x ∷ xs

abbrev pub set_string : String → String → String
set_string from to = if from == "" then to else from

abbrev pub set_float : Float64 → Float64 → Float64
set_float from to = if ne_zero_float from then from else to

-- The loop over the child's scheduler options: an empty value deletes.
unfoldable pub merge_scheduler : Map String → Map String → Map String
unfolding insert remove
merge_scheduler [] options = options
merge_scheduler ((k, v) ∷ rest) options =
    merge_scheduler rest (if v == "" then remove k options else insert k v options)

unfoldable pub merge_application : Application → Application → Application
unfolding merge_scheduler
merge_application app child = record app {
  id = set_string child.id app.id;
  version = set_string child.version app.version;
  cpu = set_float child.cpu app.cpu;
  mem = set_float child.mem app.mem;
  ports = set_slice child.ports app.ports;
  user = set_string child.user app.user;
  healthcheck = set_string child.healthcheck app.healthcheck;
  launch_command = set_string child.launch_command app.launch_command;
  artifact_urls = set_slice child.artifact_urls app.artifact_urls;
  additional_artifacts = set_slice child.additional_artifacts app.additional_artifacts;
  dependencies = set_slice child.dependencies app.dependencies;
  scheduler = merge_scheduler child.scheduler app.scheduler;
  tasks = set_slice child.tasks app.tasks;
  before_scheduler = set_slice child.before_scheduler app.before_scheduler;
  after_scheduler = set_slice child.after_scheduler app.after_scheduler;
  before_task = set_slice child.before_task app.before_task;
  after_task = set_slice child.after_task app.after_task;
  after_tasks = set_slice child.after_tasks app.after_tasks;
}

abbrev pub merge_into : Option Application → Application → Application
merge_into none child = child
merge_into (some app) child = merge_application app child

-- The loop over the child's applications.
unfoldable pub merge_applications : Map Application → Map Application → Map Application
unfolding insert lookup
merge_applications [] apps = apps
merge_applications ((name, child) ∷ rest) apps =
    merge_applications rest (insert name (merge_into (lookup name apps) child) apps)

-- A nil map panics when the first application of the child is added.
abbrev pub adds_to_nil : Bool → Map Application → Bool
adds_to_nil false children = false
adds_to_nil true [] = false
adds_to_nil true (child ∷ children) = true

-- `none` is that panic.
unfoldable pub merge : Stack → Stack → Option Stack
unfolding merge_applications
merge s child =
    if adds_to_nil s.nil_applications child.applications
    then none
    else some (record s {
      name = child.name;
      applications = merge_applications child.applications s.applications;
    })

-- What an option of the child makes of the parent's.
abbrev pub merged_option : Option String → Option String → Option String
merged_option none old = old
merged_option (some v) old = if v == "" then none else some v

pub lookup-merge_scheduler :
    (child options : Map String) (k : String)
    → IsMap child
    → lookup k (merge_scheduler child options) ≡ merged_option (lookup k child) (lookup k options)
unfolding merge_scheduler lookup
lookup-merge_scheduler [] options k h = refl
lookup-merge_scheduler ((j, v) ∷ rest) options k h = ground (
  arith,
  eq_iff j k,
  lookup-merge_scheduler rest (if v == "" then remove j options else insert j v options) k h.1,
  lookup-remove j k options,
  lookup-insert j k v options,
)

abbrev pub merged_application : Option Application → Option Application → Option Application
merged_application none old = old
merged_application (some child) old = some (merge_into old child)

pub lookup-merge_applications :
    (children apps : Map Application) (name : String)
    → IsMap children
    → lookup name (merge_applications children apps)
      ≡ merged_application (lookup name children) (lookup name apps)
unfolding merge_applications lookup
lookup-merge_applications [] apps name h = refl
lookup-merge_applications ((j, child) ∷ rest) apps name h =
    rw (lookup-merge_applications rest (insert j (merge_into (lookup j apps) child) apps) name h.1)
      (rw (lookup-insert j name (merge_into (lookup j apps) child) apps)
        (elim (String-cases j name) [
          | inl (same, hit) ↦
              rw (hit, subst (λ n. lookup n rest ≡ none) same h.0)
                (ap (λ n. some (merge_into (lookup n apps) child)) same)
          | inr (_, miss) ↦ rw miss
        ]))

-- An option of the merged scheduler is the child's value, none where the child's value is empty,
-- and the parent's where the child has none. The child's scheduler has one entry for an option.
pub lookup-scheduler-merge_application :
    (app child : Application) (k : String)
    → IsMap child.scheduler
    → lookup k (merge_application app child).scheduler
      ≡ merged_option (lookup k child.scheduler) (lookup k app.scheduler)
unfolding merge_application
lookup-scheduler-merge_application app child k h =
    lookup-merge_scheduler child.scheduler app.scheduler k h

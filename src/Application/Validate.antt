-- ===== src/Application/Validate.antt =====
-- Application.Validate: which error it reports, and exactly which applications pass.
use stack_deploy.Prelude.{
  String, ◌≡◌, ◌≢◌, ◌↔◌, ◌⊎◌, inl, Bool, true, false, not, ◌&&◌, Option, none, some, List, [], ◌∷◌,
  arith, ◌==◌, eq_iff, elem, if◌then◌else◌, refl, ne_of_==, ==_of_ne,
}
use stack_deploy.Prelude.Float.{le_zero_float}
use stack_deploy.Prelude.Int.{ℤ, pos, ltb_ℤ, ◌≤ℤ◌}
use stack_deploy.Prelude.Text.{atoi}
use stack_deploy.Map.{Map}
use stack_deploy.Constraints.{Regexps, Constraint}
use stack_deploy.Constraints.Parse.{Result, ok, err, parse_constraints}
use stack_deploy.Application.{
  Application, Fields, Failure, no_type, no_task_runner, no_id, invalid_cpu, invalid_mem,
  invalid_instances, invalid_constraints,
}

abbrev invalid_number : Option ℤ → Bool
invalid_number none = true
invalid_number (some n) = ltb_ℤ n (pos 1)

-- The test on `instances`.
unfoldable pub bad_instances : String → Bool
unfolding atoi
bad_instances s = not (s == "") && not (s == "all") && invalid_number (atoi s)

abbrev has_tasks : List (String × Option Fields) → Bool
has_tasks [] = false
has_tasks (t ∷ ts) = true

abbrev check_constraints : Result (Map (List Constraint)) → Failure
check_constraints (ok constraints) = none
check_constraints (err e) = some (invalid_constraints e)

-- `runners` are the keys of TaskRunners.
unfoldable pub validate : Regexps → List String → Application → Failure
validate re runners a =
    if a.type == ""
    then some no_type
    else if has_tasks a.tasks && not (elem a.type runners)
    then some no_task_runner
    else if a.id == ""
    then some no_id
    else if le_zero_float a.cpu
    then some invalid_cpu
    else if le_zero_float a.mem
    then some invalid_mem
    else if bad_instances a.instances
    then some invalid_instances
    else check_constraints (parse_constraints re a.constraints)

abbrev pub IsCount : Option ℤ → Type 0
IsCount none = ⊥
IsCount (some n) = pos 1 ≤ℤ n

-- What a valid application is.
pub record IsValid (re : Regexps) (runners : List String) (a : Application) : Type 0 where
  pub typed : a.type ≢ ""
  pub runnable : (a.tasks ≡ []) ⊎ (elem a.type runners ≡ true)
  pub named : a.id ≢ ""
  pub cpu_positive : le_zero_float a.cpu ≡ false
  pub mem_positive : le_zero_float a.mem ≡ false
  pub counted : (a.instances ≡ "") ⊎ (a.instances ≡ "all") ⊎ IsCount (atoi a.instances)
  pub placeable : (m : Map (List Constraint)) × (parse_constraints re a.constraints ≡ ok m)

counted_of : (s : String) → bad_instances s ≡ false → (s ≡ "") ⊎ (s ≡ "all") ⊎ IsCount (atoi s)
unfolding bad_instances
counted_of s h = ground (arith, eq_iff s "", eq_iff s "all")

of_counted : (s : String) → (s ≡ "") ⊎ (s ≡ "all") ⊎ IsCount (atoi s) → bad_instances s ≡ false
unfolding bad_instances
of_counted s h = ground (arith, eq_iff s "", eq_iff s "all")

placeable_of :
    (r : Result (Map (List Constraint)))
    → check_constraints r ≡ none
    → (m : Map (List Constraint)) × (r ≡ ok m)
placeable_of (ok m) h = (m, refl)
placeable_of (err e) h = cc

runnable_of :
    (tasks : List (String × Option Fields)) (b : Bool)
    → (has_tasks tasks && not b) ≡ false
    → (tasks ≡ []) ⊎ (b ≡ true)
runnable_of [] b h = inl refl
runnable_of (t ∷ ts) b h = ground arith

of_runnable :
    (tasks : List (String × Option Fields)) (b : Bool)
    → (tasks ≡ []) ⊎ (b ≡ true)
    → (has_tasks tasks && not b) ≡ false
of_runnable [] b h = refl
of_runnable (t ∷ ts) b h = ground arith

first_of_seven :
    {A : Type 0} (b₁ b₂ b₃ b₄ b₅ b₆ : Bool) (e₁ e₂ e₃ e₄ e₅ e₆ : A) (rest : Option A)
    → (if b₁
        then some e₁
        else if b₂
        then some e₂
        else if b₃
        then some e₃
        else if b₄
        then some e₄
        else if b₅
        then some e₅
        else if b₆
        then some e₆
        else rest)
      ≡ none
    → (b₁ ≡ false)
      × (b₂ ≡ false)
      × (b₃ ≡ false)
      × (b₄ ≡ false)
      × (b₅ ≡ false)
      × (b₆ ≡ false)
      × (rest ≡ none)
first_of_seven b₁ b₂ b₃ b₄ b₅ b₆ e₁ e₂ e₃ e₄ e₅ e₆ rest h = ground arith

-- An application passes validation exactly if it has a type, a task runner where it has tasks, an
-- id, a cpu and a mem that are not at most zero, instances that are empty, "all" or a number from 1
-- on, and constraints that parse.
pub validate-IsValid :
    (re : Regexps) (runners : List String) (a : Application)
    → (validate re runners a ≡ none) ↔ IsValid re runners a
unfolding validate
validate-IsValid re runners a = (
  λ h.
      let t = first_of_seven _ _ _ _ _ _ _ _ _ _ _ _ _ h in
      record {
        typed = ne_of_== a.type "" t.0;
        runnable = runnable_of a.tasks _ t.1;
        named = ne_of_== a.id "" t.2;
        cpu_positive = t.3;
        mem_positive = t.4;
        counted = counted_of a.instances t.5;
        placeable = placeable_of _ t.6;
      },
  λ v. rw (
    ==_of_ne a.type "" v.typed,
    of_runnable a.tasks _ v.runnable,
    ==_of_ne a.id "" v.named,
    v.cpu_positive,
    v.mem_positive,
    of_counted a.instances v.counted,
    (v.placeable).1,
  ),
)

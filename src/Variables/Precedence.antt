-- ===== src/Variables/Precedence.antt =====
-- Which layer a variable is read from, and that All and Get agree on it.
use stack_deploy.Prelude.{String, ◌≡◌, [], some, arith, ◌==◌, ◌&&◌, not, if◌then◌else◌}
use stack_deploy.Map.{IsMap, insert_all, lookup, contains, lookup-insert, lookup-insert_all}
use stack_deploy.Variables.{
  Variables, get, all_variables, set_stack_variable, set_arbitrary_variable, set_global_variable,
}

-- Each layer is a Go map.
pub record IsValid (v : Variables) : Type 0 where
  pub stack_valid : IsMap v.stack_variables
  pub arbitrary_valid : IsMap v.arbitrary_variables
  pub global_valid : IsMap v.global_variables

-- All has for each key the value that Get finds, when each layer has one entry for a key.
pub lookup-all_variables :
    (v : Variables) (key : String) → IsValid v → lookup key (all_variables v) ≡ get key v
unfolding all_variables get lookup
lookup-all_variables v key h = ground (
  arith,
  lookup-insert_all v.stack_variables
      (insert_all v.arbitrary_variables (insert_all v.global_variables [])) key h.stack_valid,
  lookup-insert_all v.arbitrary_variables (insert_all v.global_variables []) key h.arbitrary_valid,
  lookup-insert_all v.global_variables [] key h.global_valid,
)

-- After a stack variable is set, Get finds it; after an arbitrary one, where no stack variable has
-- the key; after a global one, where neither a stack nor an arbitrary variable has it; and every
-- other key has the value it had.
pub get-set :
    (v : Variables) (key other value : String)
    → (get other (set_stack_variable key value v)
        ≡ (if key == other then some value else get other v))
      × (get other (set_arbitrary_variable key value v) ≡ (
          if key == other && not (contains other v.stack_variables)
          then some value
          else get other v))
      × (get other (set_global_variable key value v) ≡ (
          if key == other
            && not (contains other v.stack_variables)
            && not (contains other v.arbitrary_variables)
          then some value
          else get other v))
unfolding get
get-set v key other value = (
  ground (arith, lookup-insert key other value v.stack_variables),
  ground (arith, lookup-insert key other value v.arbitrary_variables),
  ground (arith, lookup-insert key other value v.global_variables),
)

-- ===== src/Variables.antt =====
-- framework/variables.go: the variables of a run, in three layers. The lock is not modelled: each
-- method is one step.
pub mod Precedence
pub mod Json
mod Tests
use stack_deploy.Prelude.{String, Option, none, some, []}
use stack_deploy.Map.{Map, lookup, insert, insert_all, or_else}

pub record Variables : Type 0 where
  pub stack_variables : Map String
  pub arbitrary_variables : Map String
  pub global_variables : Map String

abbrev pub new_variables : Variables
new_variables = record { stack_variables = []; arbitrary_variables = []; global_variables = [] }

abbrev pub set_stack_variable : String → String → Variables → Variables
set_stack_variable key value v = record v { stack_variables = insert key value v.stack_variables }

abbrev pub set_arbitrary_variable : String → String → Variables → Variables
set_arbitrary_variable key value v = record v {
  arbitrary_variables = insert key value v.arbitrary_variables;
}

abbrev pub set_global_variable : String → String → Variables → Variables
set_global_variable key value v = record v {
  global_variables = insert key value v.global_variables;
}

-- `none` is the error "Key %s is not present", on which MustGet panics.
unfoldable pub get : String → Variables → Option String
get key v = elim (lookup key v.stack_variables) [
  | some value ↦ some value
  | none ↦ elim (lookup key v.arbitrary_variables) [
    | some value ↦ some value
    | none ↦ elim (lookup key v.global_variables) [ some value ↦ some value | none ↦ none ]
  ]
]

unfoldable pub all_variables : Variables → Map String
all_variables v =
    insert_all v.stack_variables
      (insert_all v.arbitrary_variables (insert_all v.global_variables []))

-- ===== src/Stack.antt =====
-- framework/stack.go: a stack of applications. Merge and Validate are modelled here and in the
-- children, Run in Stack/Run.
pub mod Merge
pub mod Validate
pub mod Run
mod Tests
use stack_deploy.Prelude.{ℕ, String, Bool, ◌∷◌, []}
use stack_deploy.Prelude.Text
use stack_deploy.Map.{Map}
use stack_deploy.Application.{Application}

pub data StackStatus : Type 0 where
  staging running failed : StackStatus

-- Keys are the names of the applications. `nil_applications` tells a nil map, which has no entry and
-- panics when one is added, from an empty one.
pub record Stack : Type 0 where
  pub namespace : String
  pub name : String
  pub from : String
  pub applications : Map Application
  pub nil_applications : Bool
  pub layer : ℕ

pub full_id : Stack → String
full_id s = Text.concat (s.namespace ∷ "." ∷ s.name ∷ [])

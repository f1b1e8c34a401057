-- ===== src/Storage.antt =====
-- InMemoryStorage of framework/storage.go: the stacks by name, and the layers that a zone is merged
-- from.
pub mod Removal
pub mod Ending
pub mod Layering
pub mod Cassandra
mod Tests
use stack_deploy.Prelude.{
  ℕ, zero, suc, String, Bool, true, false, Option, none, some, List, [], ◌∷◌, ◌++◌, length, ◌==◌,
  if◌then◌else◌,
}
use stack_deploy.Map.{Map, lookup, insert, remove}
use stack_deploy.Stack.{Stack}
use stack_deploy.Stack.Merge.{merge}
use stack_deploy.Layers.{Layer, new_layer, merge_layer}

-- `merge_panics` is the panic of Stack.Merge on a nil map, which ends a call as an error would.
pub data Error : Type 0 where
  merge_panics : Error
  stack_exists stack_does_not_exist parent_does_not_exist : Error
  database : String → Error
  no_layer : String → ℕ → Error
  cannot_merge : ℕ → ℕ → Error
  has_children : String → List String → Error

pub data Result {ℓ} (A : Type ℓ) : Type ℓ where
  ok : A → Result A
  err : Error → Result A

abbrev pub or_panics : Option Stack → Result Stack
or_panics none = err merge_panics
or_panics (some s) = ok s

infixl 5 ◌>>=◌
abbrev pub ◌>>=◌ {ℓ κ} : {A : Type ℓ} {B : Type κ} → Result A → (A → Result B) → Result B
ok a >>= f = f a
err e >>= f = err e

abbrev pub Stacks : Type 0
Stacks = Map Stack

unfoldable pub get_all : Stacks → List Stack
get_all [] = []
get_all ((name, s) ∷ stacks) = s ∷ get_all stacks

unfoldable pub get_stack : Stacks → String → Result Stack
get_stack stacks name = elim (lookup name stacks) [
  | none ↦ err stack_does_not_exist
  | some s ↦ ok s
]

unfoldable pub store_stack : Stacks → Stack → Result Stacks
store_stack stacks s = elim (lookup s.name stacks) [
  | none ↦ ok (insert s.name s stacks)
  | some _ ↦ err stack_exists
]

-- The names of the stacks that extend `name`.
unfoldable pub children_of : String → Stacks → List String
children_of name [] = []
children_of name ((_, s) ∷ stacks) =
    let rest = children_of name stacks in if s.from == name then s.name ∷ rest else rest

-- InMemoryStorage.remove with `force`. The loop ranges over a map that the recursive calls shrink: a
-- Go range does not come to an entry that was deleted before it is reached, so a child is removed
-- only if it is still there. `fuel` bounds the depth of the recursion; `none` stands for a recursion
-- that is deeper, or has no end.
abbrev pub still_there : String → String → Stacks → Bool
still_there child name stacks = elim (lookup child stacks) [
  | none ↦ false
  | some s ↦ s.from == name
]

abbrev pub and_then : Option Stacks → (Stacks → Option Stacks) → Option Stacks
and_then none next = none
and_then (some stacks) next = next stacks

pub remove_each : (String → Stacks → Option Stacks) → String → List String → Stacks → Option Stacks
remove_each rm name [] stacks = some stacks
remove_each rm name (child ∷ children) stacks =
    let rest = λ (left : Stacks). remove_each rm name children left in
    if still_there child name stacks then and_then (rm child stacks) rest else rest stacks

unfoldable pub remove_forced : ℕ → String → Stacks → Option Stacks
unfolding remove_each children_of
remove_forced zero name stacks = none
remove_forced (suc fuel) name stacks =
    and_then (remove_each (remove_forced fuel) name (children_of name stacks) stacks)
      (λ left. some (remove name left))

abbrev remove_childless : String → List String → Stacks → Result Stacks
remove_childless name [] stacks = ok (remove name stacks)
remove_childless name (child ∷ children) stacks = err (has_children name (child ∷ children))

-- RemoveStack; `none` is the crash of a recursion without end.
unfoldable pub remove_stack : ℕ → Stacks → String → Bool → Option (Result Stacks)
unfolding remove_forced children_of
remove_stack fuel stacks name force = elim (lookup name stacks) [
  | none ↦ some (err stack_does_not_exist)
  | some _ ↦
      if force
      then (elim (remove_forced fuel name stacks) [ none ↦ none | some left ↦ some (ok left) ])
      else some (remove_childless name (children_of name stacks) stacks)
]

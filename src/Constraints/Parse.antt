-- ===== src/Constraints/Parse.antt =====
-- ParseConstraint and ParseConstraints.
use stack_deploy.Prelude.{String, none, some, List, [], ◌∷◌, ◌++◌, ◌==◌, if◌then◌else◌}
use stack_deploy.Prelude.Int.{pos}
use stack_deploy.Prelude.Text.{atoi}
use stack_deploy.Map.{Map, lookup, insert}
use stack_deploy.Constraints.{Regexps, Constraint, like, unlike, unique, cluster, group_by}

-- The errors, with what their messages print.
pub data Error : Type 0 where
  unsupported : List String → Error
  invalid : List String → Error
  invalid_like : String → Error
  invalid_unlike : String → Error
  empty_constraint : Error

pub data Result {ℓ} (A : Type ℓ) : Type ℓ where
  ok : A → Result A
  err : Error → Result A

infixl 5 ◌>>=◌
abbrev pub ◌>>=◌ {ℓ κ} : {A : Type ℓ} {B : Type κ} → Result A → (A → Result B) → Result B
ok a >>= f = f a
err e >>= f = err e

abbrev new_like_constraint : Regexps → String → Result Constraint
new_like_constraint re regex =
    if re.compiles regex then ok (like regex) else err (invalid_like regex)

abbrev new_unlike_constraint : Regexps → String → Result Constraint
new_unlike_constraint re regex =
    if re.compiles regex then ok (unlike regex) else err (invalid_unlike regex)

abbrev parse_like : Regexps → List String → Result Constraint
parse_like re (name ∷ regex ∷ rest) = new_like_constraint re regex
parse_like re value = err (unsupported value)

abbrev parse_unlike : Regexps → List String → Result Constraint
parse_unlike re (name ∷ regex ∷ rest) = new_unlike_constraint re regex
parse_unlike re value = err (unsupported value)

abbrev parse_cluster : List String → Result Constraint
parse_cluster (name ∷ wanted ∷ rest) = ok (cluster wanted)
parse_cluster value = ok (cluster "")

parse_group_by : List String → Result Constraint
unfolding atoi
parse_group_by (name ∷ groups ∷ rest) = elim (atoi groups) [
  | none ↦ err (invalid (name ∷ groups ∷ rest))
  | some n ↦ ok (group_by n)
]
parse_group_by value = ok (group_by (pos 1))

unfoldable pub parse_constraint : Regexps → List String → Result Constraint
unfolding parse_group_by
parse_constraint re [] = err (unsupported [])
parse_constraint re (name ∷ args) =
    let value = name ∷ args in
    if name == "LIKE"
    then parse_like re value
    else if name == "UNLIKE"
    then parse_unlike re value
    else if name == "UNIQUE"
    then ok unique
    else if name == "CLUSTER"
    then parse_cluster value
    else if name == "GROUP_BY"
    then parse_group_by value
    else err (unsupported value)

-- `append(constraints[attribute], constraint)`, with the empty list made first where there is none
abbrev pub constraints_of : String → Map (List Constraint) → List Constraint
unfolding lookup
constraints_of attribute constraints = elim (lookup attribute constraints) [
  | none ↦ []
  | some cs ↦ cs
]

-- The loop of ParseConstraints. A row is an attribute and its constraint.
unfoldable pub parse_rows :
    Regexps → List (List String) → Map (List Constraint) → Result (Map (List Constraint))
unfolding insert
parse_rows re [] constraints = ok constraints
parse_rows re ([] ∷ rows) constraints = err empty_constraint
parse_rows re ((attribute ∷ raw) ∷ rows) constraints = parse_constraint re raw >>= λ c.
    parse_rows re rows
      (insert attribute (constraints_of attribute constraints ++ c ∷ []) constraints)

-- No rows give Go's nil map, which is read as an empty one.
unfoldable pub parse_constraints : Regexps → List (List String) → Result (Map (List Constraint))
unfolding parse_rows
parse_constraints re rows = parse_rows re rows []

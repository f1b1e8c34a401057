-- ===== src/Constraints.antt =====
-- constraints/constraints.go: the five placement constraints, and whether the value of an attribute
-- meets one, given the values that are taken already.
pub mod Parse
pub mod Offers
pub mod Counting
pub mod Placement
mod Tests
use stack_deploy.Prelude.{
  ℕ, suc, String, Bool, true, false, not, ◌&&◌, ◌||◌, Option, none, some, List, [], ◌∷◌, ◌^◌, ◌-◌,
  length, ◌==◌, ltb, eqb, if◌then◌else◌,
}
use stack_deploy.Prelude.Int.{ℤ, pos, ltb_ℤ}
use stack_deploy.Map.{Map, lookup, insert, contains}

-- Go's `regexp` package: which patterns compile, and which texts a compiled pattern matches. A
-- compiled pattern is given by its text.
pub record Regexps : Type 0 where
  pub compiles : String → Bool
  pub match_string : String → String → Bool

pub data Constraint : Type 0 where
  like : (regex : String) → Constraint
  unlike : (regex : String) → Constraint
  unique : Constraint
  cluster : (value : String) → Constraint
  group_by : (groups : ℤ) → Constraint

-- `counts[k]`, 0 where there is none
abbrev pub count_or_zero : String → Map ℕ → ℕ
unfolding lookup
count_or_zero k counts = elim (lookup k counts) [ none ↦ 0 | some n ↦ n ]

-- The first loop of `GroupBy.Matches`.
pub count_values : List String → Map ℕ → Map ℕ
unfolding insert
count_values [] counts = counts
count_values (v ∷ vs) counts = count_values vs (insert v (suc (count_or_zero v counts)) counts)

-- Its second loop.
pub min_count : Map ℕ → ℕ → ℕ
min_count [] least = least
min_count ((k, n) ∷ counts) least = min_count counts (if ltb n least then n else least)

abbrev pub max_int32 : ℕ
max_int32 = 2 ^ 31 - 1

group_by_matches : ℤ → String → List String → Bool
unfolding count_values min_count
group_by_matches groups value values =
    let counts = count_values values [] in
    if ltb_ℤ (pos (length counts)) groups
    then not (contains value counts)
    else let least = min_count counts max_int32 in
      eqb (count_or_zero value counts) (if eqb least max_int32 then 0 else least)

abbrev unique_matches : String → List String → Bool
unique_matches value [] = true
unique_matches value (v ∷ vs) = if value == v then false else unique_matches value vs

abbrev cluster_matches : String → String → List String → Bool
cluster_matches wanted value [] = if not (wanted == "") then wanted == value else true
cluster_matches wanted value (v ∷ vs) = if not (wanted == "") then wanted == value else v == value

-- `Constraint.Matches(value, values)`
unfoldable pub matches : Regexps → Constraint → String → List String → Bool
unfolding group_by_matches
matches re (like regex) value values = re.match_string regex value
matches re (unlike regex) value values = not (re.match_string regex value)
matches re unique value values = unique_matches value values
matches re (cluster wanted) value values = cluster_matches wanted value values
matches re (group_by groups) value values = group_by_matches groups value values

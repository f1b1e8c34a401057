-- ===== src/Constraints/Tests.antt =====
-- Constraints at concrete values.
use stack_deploy.Prelude.{[], ◌∷◌, ◌++◌, refl, arith}
use stack_deploy.Prelude.Int.{pos}
use stack_deploy.Map.{lookup}
use stack_deploy.Constraints.{group_by, matches, group_by_matches, count_values, min_count}
use stack_deploy.Constraints.Placement.{IsPlaced, matches-IsPlaced, nil-IsPlaced}
use stack_deploy.Application.Samples.{literal_regexps}

matches-IsPlaced_example : IsPlaced literal_regexps (group_by (pos 2)) ([] ++ "rack1" ∷ [])
unfolding matches group_by_matches count_values min_count lookup
matches-IsPlaced_example =
    matches-IsPlaced literal_regexps (group_by (pos 2)) "rack1" [] (omega arith) refl
      (nil-IsPlaced literal_regexps (group_by (pos 2)))

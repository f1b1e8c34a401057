-- ===== src/Storage/Tests.antt =====
-- Stacks of which one extends the other.
use stack_deploy.Prelude.{
  false, ℕ, ◌<◌, String, ◌≡◌, some, [], ◌∷◌, ◌==◌, eq_iff, arith, if◌then◌else◌,
}
use stack_deploy.Map.{lookup, lookup_of_All}
use stack_deploy.Stack.{Stack}
use stack_deploy.Storage.{Stacks, remove_forced}
use stack_deploy.Storage.Removal.{IsKeyed, Removes}
use stack_deploy.Storage.Ending.{IsTree, remove_forced-Removes}

abbrev named : String → String → Stack
named name from = record {
  namespace = "";
  name = name;
  from = from;
  applications = [];
  nil_applications = false;
  layer = 0;
}

abbrev parent_and_child : Stacks
parent_and_child = ("a", named "a" "") ∷ ("b", named "b" "a") ∷ []

parent_and_child-IsKeyed : IsKeyed parent_and_child
unfolding lookup
parent_and_child-IsKeyed k s h = ground (arith, eq_iff "a" k, eq_iff "b" k)

-- The child lowest, and no stack above the empty name.
abbrev rank : String → ℕ
rank k = if k == "b" then 0 else if k == "a" then 1 else 2

parent_and_child-IsTree : IsTree rank parent_and_child
parent_and_child-IsTree k s h =
    lookup_of_All (λ j t. rank j < rank t.from) parent_and_child k s
      (omega arith, (omega arith, tt)) h

remove_forced-Removes_example :
    (left : Stacks) × (remove_forced 2 "a" parent_and_child ≡ some left)
    × Removes "a" parent_and_child left
remove_forced-Removes_example =
    remove_forced-Removes rank 2 "a" parent_and_child parent_and_child-IsKeyed
      parent_and_child-IsTree (omega arith)

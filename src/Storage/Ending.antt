-- ===== src/Storage/Ending.antt =====
-- RemoveStack where no stack is its own ancestor: the depth that it needs.
use stack_deploy.Prelude.{
  ℕ, zero, suc, ◌<◌, ◌≤◌, String, ◌≡◌, refl, inl, inr, true, Option, some, List, [], ◌∷◌, arith,
  ◌==◌, eq_iff, Bool-cases, Option-cases, subst,
}
use stack_deploy.Map.{lookup, remove}
use stack_deploy.Stack.{Stack}
use stack_deploy.Storage.{Stacks, children_of, still_there, remove_each, remove_forced}
use stack_deploy.Storage.Removal.{IsKeyed, OnSome, Removes, remove_forced-OnSome}

-- Every stack stands lower than the stack that it extends, so that there are no cycles.
abbrev pub IsTree : (String → ℕ) → Stacks → Type 0
IsTree rank stacks = (k : String) (s : Stack) → lookup k stacks ≡ some s → rank k < rank s.from

abbrev pub Ends : Option Stacks → Type 0
Ends o = (b : Stacks) × (o ≡ some b)

still_there_lem :
    (rank : String → ℕ) (c name : String) (a : Stacks)
    → IsTree rank a
    → still_there c name a ≡ true
    → rank c < rank name
still_there_lem rank c name a tree there = elim (Option-cases (lookup c a)) [
  | inl gone ↦ ground arith
  | inr (s, here) ↦
      let e : (s.from == name) ≡ true = ground arith in
      subst (λ n. rank c < rank n) ((eq_iff s.from name).0 e) (tree c s here)
]

module _ (rank : String → ℕ) (rm : String → Stacks → Option Stacks) (depth : ℕ)
    (removes : (k : String) (a : Stacks) → IsKeyed a → OnSome (Removes k a) (rm k a))
    (ends : (k : String) (a : Stacks)
      → IsKeyed a
      → IsTree rank a
      → rank k < depth
      → Ends (rm k a)) where
  remove_each-Ends :
      (name : String) (children : List String) (a : Stacks)
      → IsKeyed a
      → IsTree rank a
      → rank name ≤ depth
      → Ends (remove_each rm name children a)
  unfolding remove_each
  remove_each-Ends name [] a keyed tree low = (a, refl)
  remove_each-Ends name (c ∷ cs) a keyed tree low = elim (Bool-cases (still_there c name a)) [
    | inr away ↦ rw away (remove_each-Ends name cs a keyed tree low)
    | inl there ↦
        let lower = still_there_lem rank c name a tree there in
        let (left, e) = ends c a keyed tree (omega arith) in
        let w : Removes c a left = subst (OnSome (Removes c a)) e (removes c a keyed) in
        rw (there, e)
          (remove_each-Ends name cs left (λ k s h. keyed k s (w.prunes.kept k s h))
            (λ k s h. tree k s (w.prunes.kept k s h)) low)
  ]

remove_forced-Ends :
    (rank : String → ℕ) (depth : ℕ) (name : String) (a : Stacks)
    → IsKeyed a
    → IsTree rank a
    → rank name < depth
    → Ends (remove_forced depth name a)
unfolding remove_forced
remove_forced-Ends rank zero name a keyed tree low = absurd (omega arith)
remove_forced-Ends rank (suc depth) name a keyed tree low =
    let (left, e) =
      remove_each-Ends rank (remove_forced depth) depth (remove_forced-OnSome depth)
        (remove_forced-Ends rank depth) name (children_of name a) a keyed tree (omega arith) in
    (remove name left, rw e refl)

-- A forced removal to a depth above the rank of the stack ends, and has taken the stack away and
-- added or changed nothing, and no stack that is left names a removed one as its parent. Each stack
-- is stored under its name and has a lower rank than the stack that it extends.
pub remove_forced-Removes :
    (rank : String → ℕ) (depth : ℕ) (name : String) (a : Stacks)
    → IsKeyed a
    → IsTree rank a
    → rank name < depth
    → (b : Stacks) × (remove_forced depth name a ≡ some b) × Removes name a b
remove_forced-Removes rank depth name a keyed tree low =
    let (b, e) = remove_forced-Ends rank depth name a keyed tree low in
    (b, e, subst (OnSome (Removes name a)) e (remove_forced-OnSome depth name a keyed))

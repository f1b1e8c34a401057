-- ===== src/Application/Instances/Placed.antt =====
-- The instances of an application: GetInstances of a valid one, and the slaves that `all` counts.
use stack_deploy.Prelude.{
  ◌+◌, ◌≤◌, ◌<◌, String, ◌≡◌, ◌≢◌, ◌↔◌, refl, true, false, none, some, List, [], ◌∷◌, ◌++◌, arith,
  ◌==◌, length, length-append, All, Bool-cases, inl, inr, ◌⊎◌, subst, String-cases, Option-cases,
}
use stack_deploy.Prelude.Int.{ℤ, pos, ◌≤ℤ◌}
use stack_deploy.Prelude.Text.{atoi}
use stack_deploy.Map.{Map}
use stack_deploy.Constraints.{Regexps, Constraint, matches, max_int32}
use stack_deploy.Constraints.Parse.{ok, parse_constraints}
use stack_deploy.Constraints.Placement.{IsPlaced, matches-IsPlaced, nil-IsPlaced}
use stack_deploy.Application.{Application}
use stack_deploy.Application.Slaves.{Slave, MesosState, attribute}
use stack_deploy.Application.Validate.{validate, IsCount, validate-IsValid}
use stack_deploy.Application.Instances.{
  other_slaves_attributes, meets_all, slave_matches, matching_slaves, calculate_all,
  calculate_all_instances, get_constraints, get_instances,
}

-- Every constraint of the map is met by the attributes of the chosen slaves.
abbrev pub ArePlaced : Regexps → Map (List Constraint) → List Slave → Type 0
ArePlaced re constraints chosen =
    All (λ row. All (λ c. IsPlaced re c (other_slaves_attributes row.0 chosen)) row.1) constraints

other_slaves_attributes-append :
    (name : String) (chosen : List Slave) (s : Slave)
    → (attribute name s == "") ≡ false
    → other_slaves_attributes name (chosen ++ s ∷ [])
      ≡ other_slaves_attributes name chosen ++ attribute name s ∷ []
unfolding other_slaves_attributes
other_slaves_attributes-append name [] s h = ground arith
other_slaves_attributes-append name (c ∷ cs) s h =
    ground (arith, other_slaves_attributes-append name cs s h)

length-other_slaves_attributes-le :
    (name : String) (chosen : List Slave)
    → length (other_slaves_attributes name chosen) ≤ length chosen
unfolding other_slaves_attributes
length-other_slaves_attributes-le name [] = omega arith
length-other_slaves_attributes-le name (c ∷ cs) =
    ground (arith, length-other_slaves_attributes-le name cs)

meets_all-IsPlaced :
    (re : Regexps) (cs : List Constraint) (v : String) (vs : List String)
    → length vs < max_int32
    → meets_all re cs v vs ≡ true
    → All (λ c. IsPlaced re c vs) cs
    → All (λ c. IsPlaced re c (vs ++ v ∷ [])) cs
unfolding meets_all
meets_all-IsPlaced re [] v vs bound h placed = tt
meets_all-IsPlaced re (c ∷ cs) v vs bound h placed = (
  matches-IsPlaced re c v vs bound (ground arith) placed.0,
  meets_all-IsPlaced re cs v vs bound (ground arith) placed.1,
)

slave_matches-ArePlaced :
    (re : Regexps) (m : Map (List Constraint)) (s : Slave) (chosen : List Slave)
    → length chosen < max_int32
    → slave_matches re m s chosen ≡ true
    → ArePlaced re m chosen
    → ArePlaced re m (chosen ++ s ∷ [])
unfolding slave_matches
slave_matches-ArePlaced re [] s chosen bound h placed = tt
slave_matches-ArePlaced re ((name, cs) ∷ rest) s chosen bound h placed = (
  rw (other_slaves_attributes-append name chosen s (ground arith)) (
      meets_all-IsPlaced re cs (attribute name s) (other_slaves_attributes name chosen)
        (omega (arith, length-other_slaves_attributes-le name chosen)) (ground arith) placed.0),
  slave_matches-ArePlaced re rest s chosen bound (ground arith) placed.1,
)

matching_slaves-ArePlaced :
    (re : Regexps) (m : Map (List Constraint)) (slaves chosen : List Slave)
    → length chosen + length slaves ≤ max_int32
    → ArePlaced re m chosen
    → ArePlaced re m (matching_slaves re m slaves chosen)
unfolding matching_slaves
matching_slaves-ArePlaced re m [] chosen bound placed = placed
matching_slaves-ArePlaced re m (s ∷ ss) chosen bound placed =
    elim (Bool-cases (slave_matches re m s chosen)) [
      | inl fits ↦ rw fits (
          matching_slaves-ArePlaced re m ss (chosen ++ s ∷ [])
            (omega (arith, length-append chosen (s ∷ [])))
            (slave_matches-ArePlaced re m s chosen (omega arith) fits placed))
      | inr fails ↦ rw fails (matching_slaves-ArePlaced re m ss chosen (omega arith) placed)
    ]

nil-ArePlaced : (re : Regexps) (m : Map (List Constraint)) → ArePlaced re m []
unfolding other_slaves_attributes
nil-ArePlaced re [] = tt
nil-ArePlaced re ((name, cs) ∷ rest) = (nil-row cs, nil-ArePlaced re rest)
  where
    nil-row : (cs : List Constraint) → All (λ c. IsPlaced re c []) cs
    nil-row [] = tt
    nil-row (c ∷ cs) = (nil-IsPlaced re c, nil-row cs)

length-matching_slaves :
    (re : Regexps) (m : Map (List Constraint)) (slaves chosen : List Slave)
    → length (matching_slaves re m slaves chosen) ≤ length chosen + length slaves
unfolding matching_slaves
length-matching_slaves re m [] chosen = omega arith
length-matching_slaves re m (s ∷ ss) chosen = ground (
  arith,
  length-append chosen (s ∷ []),
  length-matching_slaves re m ss chosen,
  length-matching_slaves re m ss (chosen ++ s ∷ []),
)

-- A slave that may join those before it: it has every attribute of the map, and every constraint
-- lets its value in after theirs.
abbrev pub Fits : Regexps → Map (List Constraint) → Slave → List Slave → Type 0
Fits re constraints s before =
    All
      (λ row.
        (attribute row.0 s ≢ "")
        × All (λ c. matches re c (attribute row.0 s) (other_slaves_attributes row.0 before) ≡ true)
            row.1)
      constraints

-- The slaves in turn: those that may join the ones chosen before are chosen, and no others.
abbrev pub Selection :
    Regexps → Map (List Constraint) → List Slave → List Slave → List Slave → Type 0
Selection re constraints [] before chosen = chosen ≡ before
Selection re constraints (s ∷ ss) before chosen =
    (Fits re constraints s before × Selection re constraints ss (before ++ s ∷ []) chosen)
    ⊎ ((¬ Fits re constraints s before) × Selection re constraints ss before chosen)

meets_all-All :
    (re : Regexps) (cs : List Constraint) (v : String) (vs : List String)
    → (meets_all re cs v vs ≡ true) ↔ All (λ c. matches re c v vs ≡ true) cs
unfolding meets_all
meets_all-All re [] v vs = (λ h. tt, λ all. refl)
meets_all-All re (c ∷ cs) v vs =
    let (to, from) = meets_all-All re cs v vs in
    (
      λ h. (ground arith, to (ground arith)),
      λ all. let here = all.0 in let rest = from all.1 in ground arith,
    )

slave_matches-Fits :
    (re : Regexps) (m : Map (List Constraint)) (s : Slave) (before : List Slave)
    → (slave_matches re m s before ≡ true) ↔ Fits re m s before
unfolding slave_matches
slave_matches-Fits re [] s before = (λ h. tt, λ all. refl)
slave_matches-Fits re ((name, cs) ∷ rest) s before =
    let (to, from) = slave_matches-Fits re rest s before in
    let (met, meets) =
      meets_all-All re cs (attribute name s) (other_slaves_attributes name before) in
    elim (String-cases (attribute name s) "") [
      | inl (e, is_empty) ↦ (λ h. ground arith, λ all. absurd (all.0.0 e))
      | inr (ne, not_empty) ↦ (
        λ h. ((ne, met (ground arith)), to (ground arith)),
        λ all. let here = meets all.0.1 in let later = from all.1 in ground arith,
      )
    ]

matching_slaves-Selection :
    (re : Regexps) (m : Map (List Constraint)) (slaves before : List Slave)
    → Selection re m slaves before (matching_slaves re m slaves before)
unfolding matching_slaves
matching_slaves-Selection re m [] before = refl
matching_slaves-Selection re m (s ∷ ss) before =
    let (to, from) = slave_matches-Fits re m s before in
    elim (Bool-cases (slave_matches re m s before)) [
      | inl fits ↦ inl (to fits, rw fits (matching_slaves-Selection re m ss (before ++ s ∷ [])))
      | inr fails ↦
          inr
            (λ all. let fits = from all in cc, rw fails (matching_slaves-Selection re m ss before))
    ]

calculate_all_instances_lem :
    (re : Regexps) (a : Application) (m : Map (List Constraint)) (mesos : MesosState)
    → parse_constraints re a.constraints ≡ ok m
    → calculate_all_instances re a mesos ≡ some (calculate_all re m mesos)
unfolding calculate_all_instances get_constraints
calculate_all_instances_lem re a m mesos e = ground arith

-- With constraints that parse, and at least one, the number of instances of "all" is the length of
-- a selection of the cluster's slaves: each slave in turn is taken exactly if it has the attribute
-- of every constraint and every constraint lets its value in after those of the slaves taken before
-- it. The slaves taken meet every constraint together, and are no more than the cluster's, which
-- has at most 2^31 - 1.
pub calculate_all_instances-ArePlaced :
    (re : Regexps) (a : Application) (m : Map (List Constraint)) (mesos : MesosState)
    → parse_constraints re a.constraints ≡ ok m
    → m ≢ []
    → length mesos.slaves ≤ max_int32
    → (chosen : List Slave) × (calculate_all_instances re a mesos ≡ some (pos (length chosen)))
      × Selection re m mesos.slaves [] chosen
      × ArePlaced re m chosen
      × (length chosen ≤ length mesos.slaves)
calculate_all_instances-ArePlaced re a [] mesos e ne bound = absurd (ne refl)
calculate_all_instances-ArePlaced re a (row ∷ rows) mesos e ne bound = (
  matching_slaves re (row ∷ rows) mesos.slaves [],
  calculate_all_instances_lem re a (row ∷ rows) mesos e,
  matching_slaves-Selection re (row ∷ rows) mesos.slaves [],
  matching_slaves-ArePlaced re (row ∷ rows) mesos.slaves [] (omega arith)
      (nil-ArePlaced re (row ∷ rows)),
  omega (arith, length-matching_slaves re (row ∷ rows) mesos.slaves []),
)

count_of :
    (s : String)
    → s ≢ ""
    → s ≢ "all"
    → (s ≡ "") ⊎ (s ≡ "all") ⊎ IsCount (atoi s)
    → (n : ℤ) × (atoi s ≡ some n) × (pos 1 ≤ℤ n)
count_of s ne ne' (inl e) = absurd (ne e)
count_of s ne ne' (inr (inl e)) = absurd (ne' e)
count_of s ne ne' (inr (inr c)) = elim (Option-cases (atoi s)) [
  | inl e ↦ absurd (subst IsCount e c)
  | inr (n, e) ↦ (n, e, subst IsCount e c)
]

-- A valid application has a number of instances, without a panic, and it is at least one unless
-- "all" is wanted.
pub get_instances-IsValid :
    (re : Regexps) (runners : List String) (a : Application) (mesos : MesosState)
    → validate re runners a ≡ none
    → (n : ℤ) × (get_instances re a mesos ≡ some n) × (a.instances ≢ "all" → pos 1 ≤ℤ n)
unfolding get_instances
get_instances-IsValid re runners a mesos h =
    let v = (validate-IsValid re runners a).0 h in
    let (m, e) = v.placeable in
    elim (String-cases a.instances "") [
      | inl (_, is_empty) ↦ (pos 1, rw is_empty, λ _. omega arith)
      | inr (ne, not_empty) ↦ elim (String-cases a.instances "all") [
        | inl (all, is_all) ↦ (
          calculate_all re m mesos,
          rw (not_empty, is_all) (calculate_all_instances_lem re a m mesos e),
          λ other. absurd (other all),
        )
        | inr (ne', not_all) ↦
            let (n, found, positive) = count_of a.instances ne ne' v.counted in
            (n, rw (not_empty, not_all) found, λ _. positive)
      ]
    ]

-- ===== src/Constraints/Placement.antt =====
-- What the constraints guarantee of the values that they let in, one value after the other.
use stack_deploy.Prelude.{
  ℕ, suc, ◌-◌, ◌≤◌, ◌<◌, String, ◌≡◌, ◌≢◌, true, false, List, [], ◌∷◌, ◌++◌, arith, eq_iff, eq_refl,
  refl, length, count, All, All-append,
}
use stack_deploy.Prelude.Int.{ℤ, pos, pos_part, ltb_ℤ}
use stack_deploy.Map.{lookup}
use stack_deploy.Constraints.{
  Regexps, Constraint, like, unlike, unique, cluster, group_by, matches, count_values, min_count,
  max_int32, unique_matches, cluster_matches, group_by_matches,
}
use stack_deploy.Constraints.Counting.{
  distinct, elem-count, count-append, count-le-length, distinct_from-append,
  count_or_zero-count_values, contains-count_values, length-count_values, min_count-le_entry,
  min_count_pos,
}

-- A group is a value that is taken. Their sizes differ by one at most; until there are `groups` of
-- them each has one member, and there are never more than `groups`, or than one.
pub record IsBalanced (groups : ℤ) (values : List String) : Type 0 where
  pub spread :
      (a b : String)
      → 0 < count a values
      → 0 < count b values
      → count a values ≤ suc (count b values)
  pub filling : (a : String) → ltb_ℤ (pos (distinct values)) groups ≡ true → count a values ≤ 1
  pub few : distinct values ≤ suc (pos_part groups - 1)

pub record IsClustered (wanted : String) (values : List String) : Type 0 where
  pub as_wanted : wanted ≢ "" → (a : String) → 0 < count a values → a ≡ wanted
  pub together : (a b : String) → 0 < count a values → 0 < count b values → a ≡ b

abbrev pub IsPlaced : Regexps → Constraint → List String → Type 0
IsPlaced re (like regex) values = All (λ v. re.match_string regex v ≡ true) values
IsPlaced re (unlike regex) values = All (λ v. re.match_string regex v ≡ false) values
IsPlaced re unique values = (a : String) → count a values ≤ 1
IsPlaced re (cluster wanted) values = IsClustered wanted values
IsPlaced re (group_by groups) values = IsBalanced groups values

unique_matches-count : (v : String) (vs : List String) → unique_matches v vs ≡ true → count v vs ≡ 0
unique_matches-count v [] h = omega arith
unique_matches-count v (x ∷ xs) h =
    ground (arith, eq_iff v x, eq_iff x v, unique_matches-count v xs)

-- What GROUP_BY lets in: while there are too few groups a new value only, then a value that no other
-- exceeds, an old one if there is any.
pub record Admits (groups : ℤ) (v : String) (vs : List String) : Type 0 where
  pub opens : ltb_ℤ (pos (distinct vs)) groups ≡ true → count v vs ≡ 0
  pub known : ltb_ℤ (pos (distinct vs)) groups ≡ false → vs ≢ [] → 0 < count v vs
  pub least :
      (b : String)
      → ltb_ℤ (pos (distinct vs)) groups ≡ false
      → 0 < count b vs
      → count v vs ≤ count b vs

min_count-le_count :
    (b : String) (vs : List String) (start : ℕ)
    → 0 < count b vs
    → min_count (count_values vs []) start ≤ count b vs
unfolding lookup
min_count-le_count b vs start h = ground (
  arith,
  count_or_zero-count_values b vs [],
  min_count-le_entry b (count_values vs []) start (count b vs),
)

count_pos_head : (x : String) (xs : List String) → 0 < count x (x ∷ xs)
count_pos_head x xs = ground (arith, eq_refl x)

-- Once there are enough groups, the value has as many as the smallest of them.
full-count_pos :
    (g : ℤ) (v : String) (vs : List String)
    → length vs < max_int32
    → group_by_matches g v vs ≡ true
    → ltb_ℤ (pos (distinct vs)) g ≡ false
    → vs ≢ []
    → 0 < count v vs
unfolding group_by_matches lookup
full-count_pos g v [] bound h full ne = absurd (ne refl)
full-count_pos g v (x ∷ xs) bound h full ne = ground (
  arith,
  length-count_values (x ∷ xs),
  count_or_zero-count_values v (x ∷ xs) [],
  min_count-le_count x (x ∷ xs) max_int32 (count_pos_head x xs),
  count-le-length x (x ∷ xs),
  min_count_pos (x ∷ xs) max_int32 (omega arith),
)

group_by_matches-Admits :
    (g : ℤ) (v : String) (vs : List String)
    → length vs < max_int32
    → group_by_matches g v vs ≡ true
    → Admits g v vs
unfolding group_by_matches lookup
group_by_matches-Admits g v vs bound h = record {
  opens =
      λ few. ground (arith, length-count_values vs, elem-count v vs, contains-count_values v vs []);
  known = full-count_pos g v vs bound h;
  least = λ b full p. ground (
    arith,
    length-count_values vs,
    count_or_zero-count_values v vs [],
    min_count-le_count b vs max_int32 p,
    count-le-length b vs,
  );
}

ne_nil_of-count : (a : String) (vs : List String) → 0 < count a vs → vs ≢ []
ne_nil_of-count a [] h e = omega arith
ne_nil_of-count a (x ∷ xs) h e = cc

module _ (g : ℤ) (v : String) (vs : List String) (ad : Admits g v vs) (ok : IsBalanced g vs) where
  place-spread :
      (a b : String)
      → 0 < count a (vs ++ v ∷ [])
      → 0 < count b (vs ++ v ∷ [])
      → count a (vs ++ v ∷ []) ≤ suc (count b (vs ++ v ∷ []))
  place-spread a b p q = ground (
    arith,
    eq_iff v a,
    eq_iff v b,
    count-append a vs (v ∷ []),
    count-append b vs (v ∷ []),
    ok.spread a b,
    ok.filling a,
    ad.opens,
    ad.known,
    ne_nil_of-count a vs,
    ad.least b,
  )

  place-filling :
      (a : String) → ltb_ℤ (pos (distinct (vs ++ v ∷ []))) g ≡ true → count a (vs ++ v ∷ []) ≤ 1
  place-filling a f = ground (
    arith,
    eq_iff v a,
    count-append a vs (v ∷ []),
    distinct_from-append v [] vs,
    ok.filling a,
    ad.opens,
  )

  place-few : distinct (vs ++ v ∷ []) ≤ suc (pos_part g - 1)
  place-few = ground (arith, distinct_from-append v [] vs, elem-count v vs, ok.few, ad.known)

  place-IsBalanced : IsBalanced g (vs ++ v ∷ [])
  place-IsBalanced = record { spread = place-spread; filling = place-filling; few = place-few }

place-IsClustered :
    (w v : String) (vs : List String)
    → cluster_matches w v vs ≡ true
    → IsClustered w vs
    → IsClustered w (vs ++ v ∷ [])
place-IsClustered w v [] h ok = record {
  as_wanted = λ ne a p. ground (arith, eq_iff w "", eq_iff w v, eq_iff v a);
  together = λ a b p q. ground (arith, eq_iff v a, eq_iff v b);
}
place-IsClustered w v (x ∷ xs) h ok = record {
  as_wanted = λ ne a p. ground (
    arith,
    eq_iff w "",
    eq_iff w v,
    eq_iff v a,
    count-append a (x ∷ xs) (v ∷ []),
    ok.as_wanted ne a,
  );
  together = λ a b p q. ground (
    arith,
    eq_iff w "",
    eq_iff w v,
    eq_iff x v,
    eq_iff v a,
    eq_iff v b,
    count-append a (x ∷ xs) (v ∷ []),
    count-append b (x ∷ xs) (v ∷ []),
    count_pos_head x xs,
    ok.together a b,
    ok.together a x,
    ok.together x b,
    λ (ne : w ≢ ""). ok.as_wanted ne x,
  );
}

-- A value that matches a constraint, put behind the values taken, leaves them as the constraint
-- wants them, when they were so before and are fewer than 2^31 - 1.
pub matches-IsPlaced :
    (re : Regexps) (c : Constraint) (v : String) (vs : List String)
    → length vs < max_int32
    → matches re c v vs ≡ true
    → IsPlaced re c vs
    → IsPlaced re c (vs ++ v ∷ [])
unfolding matches
matches-IsPlaced re (like regex) v vs bound h ok = All-append _ vs (v ∷ []) ok (h, tt)
matches-IsPlaced re (unlike regex) v vs bound h ok = All-append _ vs (v ∷ []) ok (ground arith, tt)
matches-IsPlaced re unique v vs bound h ok =
    λ a. ground (arith, eq_iff v a, count-append a vs (v ∷ []), unique_matches-count v vs h, ok a)
matches-IsPlaced re (cluster w) v vs bound h ok = place-IsClustered w v vs h ok
matches-IsPlaced re (group_by g) v vs bound h ok =
    place-IsBalanced g v vs (group_by_matches-Admits g v vs bound h) ok

pub nil-IsPlaced : (re : Regexps) (c : Constraint) → IsPlaced re c []
nil-IsPlaced re (like regex) = tt
nil-IsPlaced re (unlike regex) = tt
nil-IsPlaced re unique = λ a. omega arith
nil-IsPlaced re (cluster w) = record {
  as_wanted = λ ne a p. absurd (omega arith);
  together = λ a b p q. absurd (omega arith);
}
nil-IsPlaced re (group_by g) = record {
  spread = λ a b p q. omega arith;
  filling = λ a h. omega arith;
  few = omega arith;
}

-- ===== src/Constraints/Counting.antt =====
-- The two loops of GroupBy.Matches, read as plain counts of the values that are taken.
use stack_deploy.Prelude.{
  ℕ, suc, ◌+◌, ◌≤◌, ◌<◌, String, ◌≡◌, refl, ◌||◌, some, List, [], ◌∷◌, ◌++◌, arith, ◌==◌, eq_iff,
  length, elem, count, All, ltb, if◌then◌else◌, inl, inr, Bool-cases,
}
use stack_deploy.Map.{Map, lookup, insert, contains, lookup-insert}
use stack_deploy.Constraints.{count_or_zero, count_values, min_count}

-- How many different texts a list holds, those in `seen` not counted.
abbrev pub distinct_from : List String → List String → ℕ
distinct_from seen [] = 0
distinct_from seen (v ∷ vs) =
    let old = distinct_from seen vs in
    let new = distinct_from (v ∷ seen) vs in if elem v seen then old else suc new

abbrev pub distinct : List String → ℕ
distinct = distinct_from []

pub elem-count : (k : String) (vs : List String) → elem k vs ≡ ltb 0 (count k vs)
elem-count k [] = refl
elem-count k (v ∷ vs) = ground (arith, elem-count k vs)

pub count-append : (k : String) (xs ys : List String) → count k (xs ++ ys) ≡ count k xs + count k ys
count-append k [] ys = omega arith
count-append k (x ∷ xs) ys = ground (arith, count-append k xs ys)

pub count-le-length : (k : String) (vs : List String) → count k vs ≤ length vs
count-le-length k [] = omega arith
count-le-length k (v ∷ vs) = ground (arith, count-le-length k vs)

pub distinct_from-append :
    (v : String) (seen vs : List String)
    → distinct_from seen (vs ++ v ∷ [])
      ≡ (if elem v seen || elem v vs then distinct_from seen vs else suc (distinct_from seen vs))
distinct_from-append v seen [] = ground arith
distinct_from-append v seen (x ∷ xs) =
    ground (arith, eq_iff x v, distinct_from-append v seen xs, distinct_from-append v (x ∷ seen) xs)

count_or_zero-insert :
    (k j : String) (n : ℕ) (m : Map ℕ)
    → count_or_zero j (insert k n m) ≡ (if k == j then n else count_or_zero j m)
unfolding lookup
count_or_zero-insert k j n m = ground (arith, lookup-insert k j n m)

-- After the first loop the map holds the counts.
pub count_or_zero-count_values :
    (k : String) (vs : List String) (m : Map ℕ)
    → count_or_zero k (count_values vs m) ≡ count_or_zero k m + count k vs
unfolding count_values
count_or_zero-count_values k [] m = omega arith
count_or_zero-count_values k (v ∷ vs) m = ground (
  arith,
  eq_iff v k,
  count_or_zero-count_values k vs (insert v (suc (count_or_zero v m)) m),
  count_or_zero-insert v k (suc (count_or_zero v m)) m,
)

length-insert :
    (k : String) (n : ℕ) (m : Map ℕ)
    → length (insert k n m) ≡ (if contains k m then length m else suc (length m))
unfolding lookup insert
length-insert k n [] = refl
length-insert k n ((j, w) ∷ m) = ground (arith, length-insert k n m)

contains-insert :
    (k j : String) (n : ℕ) (m : Map ℕ) → contains j (insert k n m) ≡ (k == j || contains j m)
contains-insert k j n m = ground (arith, lookup-insert k j n m)

pub contains-count_values :
    (k : String) (vs : List String) (m : Map ℕ)
    → contains k (count_values vs m) ≡ (contains k m || elem k vs)
unfolding count_values
contains-count_values k [] m = ground arith
contains-count_values k (v ∷ vs) m = ground (
  arith,
  eq_iff v k,
  contains-count_values k vs (insert v (suc (count_or_zero v m)) m),
  contains-insert v k (suc (count_or_zero v m)) m,
)

-- The map has one entry for each different value.
length-count_values_from :
    (vs seen : List String) (m : Map ℕ)
    → ((k : String) → contains k m ≡ elem k seen)
    → length (count_values vs m) ≡ length m + distinct_from seen vs
unfolding count_values
length-count_values_from [] seen m h = omega arith
length-count_values_from (v ∷ vs) seen m h = elim (Bool-cases (elem v seen)) [
  | inl old ↦ ground (
    arith,
    h v,
    length-insert v (suc (count_or_zero v m)) m,
    length-count_values_from vs seen (insert v (suc (count_or_zero v m)) m) (λ k.
        ground (arith, eq_iff v k, h k, h v, contains-insert v k (suc (count_or_zero v m)) m)),
  )
  | inr new ↦ ground (
    arith,
    h v,
    length-insert v (suc (count_or_zero v m)) m,
    length-count_values_from vs (v ∷ seen) (insert v (suc (count_or_zero v m)) m)
        (λ k. ground (arith, h k, contains-insert v k (suc (count_or_zero v m)) m)),
  )
]

pub length-count_values : (vs : List String) → length (count_values vs []) ≡ distinct vs
unfolding lookup
length-count_values vs = omega (arith, length-count_values_from vs [] [] (λ k. refl))

pub min_count-le : (m : Map ℕ) (least : ℕ) → min_count m least ≤ least
unfolding min_count
min_count-le [] least = omega arith
min_count-le ((k, n) ∷ m) least = ground (arith, min_count-le m (if ltb n least then n else least))

pub min_count-le_entry :
    (k : String) (m : Map ℕ) (least n : ℕ) → lookup k m ≡ some n → min_count m least ≤ n
unfolding min_count lookup
min_count-le_entry k [] least n h = cc
min_count-le_entry k ((j, w) ∷ m) least n h = ground (
  arith,
  min_count-le m (if ltb w least then w else least),
  min_count-le_entry k m (if ltb w least then w else least) n,
)

abbrev ArePositive : Map ℕ → Type 0
ArePositive = All (λ e. 0 < e.1)

insert-ArePositive :
    (k : String) (n : ℕ) (m : Map ℕ) → ArePositive m → ArePositive (insert k (suc n) m)
unfolding insert
insert-ArePositive k n [] h = omega arith
insert-ArePositive k n ((j, w) ∷ m) h = ground (arith, insert-ArePositive k n m h.1)

count_values-ArePositive :
    (vs : List String) (m : Map ℕ) → ArePositive m → ArePositive (count_values vs m)
unfolding count_values
count_values-ArePositive [] m h = h
count_values-ArePositive (v ∷ vs) m h =
    count_values-ArePositive vs _ (insert-ArePositive v (count_or_zero v m) m h)

min_count_pos_of : (m : Map ℕ) (least : ℕ) → 0 < least → ArePositive m → 0 < min_count m least
unfolding min_count
min_count_pos_of [] least p h = p
min_count_pos_of ((k, n) ∷ m) least p h =
    min_count_pos_of m (if ltb n least then n else least) (ground arith) h.1

pub min_count_pos :
    (vs : List String) (least : ℕ) → 0 < least → 0 < min_count (count_values vs []) least
min_count_pos vs least p = min_count_pos_of _ least p (count_values-ArePositive vs [] tt)

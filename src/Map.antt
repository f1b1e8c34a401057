-- ===== src/Map.antt =====
-- Go's `map[string]V`: an association list with one entry for a key. The order of the entries is
-- the order of a `range` loop, which Go leaves open; where a result does not depend on it, the
-- theorems say so by speaking of `lookup` only, or for every list.
use mathlib.Core.Path.{subst₂}
use mathlib.Core.List.{append-nil, append_assoc}
use stack_deploy.Prelude.{
  ◌++◌, sym, String, ◌≡◌, refl, Bool, true, false, inl, inr, String-cases, eq_refl, All, Option,
  none, some, List, [], ◌∷◌, arith, ◌==◌, eq_iff, if◌then◌else◌,
}

abbrev pub Map {ℓ} : Type ℓ → Type ℓ
Map V = List (String × V)

module _ {ℓ} {V : Type ℓ} where
  unfoldable pub lookup : String → Map V → Option V
  lookup k [] = none
  lookup k ((j, v) ∷ m) = if j == k then some v else lookup k m

  -- `m[k] = v`
  unfoldable pub insert : String → V → Map V → Map V
  insert k v [] = (k, v) ∷ []
  insert k v ((j, w) ∷ m) = if j == k then (k, v) ∷ m else (j, w) ∷ insert k v m

  -- `delete(m, k)`
  unfoldable pub remove : String → Map V → Map V
  remove k [] = []
  remove k ((j, w) ∷ m) = let rest = remove k m in if j == k then rest else (j, w) ∷ rest

  -- `for k, v := range m { n[k] = v }`
  unfoldable pub insert_all : Map V → Map V → Map V
  insert_all [] n = n
  insert_all ((k, v) ∷ m) n = insert_all m (insert k v n)

  abbrev pub contains : String → Map V → Bool
  contains k m = elim (lookup k m) [ none ↦ false | some v ↦ true ]

  abbrev pub or_else : Option V → Option V → Option V
  or_else none o = o
  or_else (some v) o = some v

  -- One entry for a key.
  abbrev pub IsMap : Map V → Type ℓ
  IsMap [] = Unit
  IsMap ((k, v) ∷ m) = (lookup k m ≡ none) × IsMap m

  pub lookup-insert :
      (key query : String) (value : V) (m : Map V)
      → lookup query (insert key value m) ≡ (if key == query then some value else lookup query m)
  unfolding insert lookup
  lookup-insert key query value [] = refl
  lookup-insert key query value ((first, old) ∷ rest) = ground (
    arith,
    lookup-insert key query value rest,
    eq_iff first key,
    eq_iff first query,
    eq_iff key query,
  )

  pub lookup-remove :
      (k j : String) (m : Map V) → lookup j (remove k m) ≡ (if k == j then none else lookup j m)
  unfolding lookup remove
  lookup-remove k j [] = ground arith
  lookup-remove k j ((i, w) ∷ m) =
      ground (arith, eq_iff k j, eq_iff i k, eq_iff i j, lookup-remove k j m)

  pub insert-IsMap : (k : String) (v : V) (m : Map V) → IsMap m → IsMap (insert k v m)
  unfolding insert lookup
  insert-IsMap k v [] h = (refl, tt)
  insert-IsMap k v ((i, w) ∷ m) h =
      ground (arith, eq_iff i k, eq_iff k i, insert-IsMap k v m h.1, lookup-insert k i v m)

  pub remove-IsMap : (k : String) (m : Map V) → IsMap m → IsMap (remove k m)
  unfolding remove
  remove-IsMap k [] h = tt
  remove-IsMap k ((i, w) ∷ m) h =
      ground (arith, eq_iff i k, remove-IsMap k m h.1, lookup-remove k i m)

  pub lookup-insert_all :
      (m n : Map V) (j : String)
      → IsMap m
      → lookup j (insert_all m n) ≡ or_else (lookup j m) (lookup j n)
  unfolding insert_all lookup
  lookup-insert_all [] n j h = refl
  lookup-insert_all ((k, v) ∷ m) n j h =
      ground (arith, eq_iff k j, lookup-insert_all m (insert k v n) j h.1, lookup-insert k j v n)

pub ruleset map_laws = (lookup-insert, lookup-remove)

module _ {ℓ κ} {V : Type ℓ} (P : String → V → Type κ) where
  -- What holds of every lookup holds of every entry.
  pub All_of_lookup :
      (m : Map V)
      → IsMap m
      → ((k : String) (v : V) → lookup k m ≡ some v → P k v)
      → All (λ e. P e.0 e.1) m
  unfolding lookup
  All_of_lookup [] h f = tt
  All_of_lookup ((k, v) ∷ m) h f =
      (f k v (rw eq_refl), All_of_lookup m h.1 λ j w e. f j w (ground (arith, eq_iff k j)))

  -- And what holds of every entry holds of every lookup.
  pub lookup_of_All :
      (m : Map V) (k : String) (v : V) → All (λ e. P e.0 e.1) m → lookup k m ≡ some v → P k v
  unfolding lookup
  lookup_of_All [] k v h e = cc
  lookup_of_All ((j, w) ∷ m) k v h e = elim (String-cases j k) [
    | inl (same, hit) ↦ subst₂ P same (ground arith) h.0
    | inr (other, miss) ↦ lookup_of_All m k v h.1 (ground arith)
  ]

module _ {ℓ} {V : Type ℓ} where
  -- Inserting entries with new keys appends them, so a copy into an empty map is the map itself.
  pub insert_fresh :
      (k : String) (v : V) (m : Map V) → lookup k m ≡ none → insert k v m ≡ m ++ (k, v) ∷ []
  unfolding lookup insert
  insert_fresh k v [] h = refl
  insert_fresh k v ((j, w) ∷ m) h = ground (arith, insert_fresh k v m)

  lookup-append : (k : String) (m n : Map V) → lookup k (m ++ n) ≡ or_else (lookup k m) (lookup k n)
  unfolding lookup
  lookup-append k [] n = refl
  lookup-append k ((j, w) ∷ m) n = ground (arith, lookup-append k m n)

  insert_all-append :
      (m n : Map V)
      → IsMap m
      → ((j : String) → contains j m ≡ true → lookup j n ≡ none)
      → insert_all m n ≡ n ++ m
  unfolding insert_all lookup
  insert_all-append [] n h d = sym (append-nil n)
  insert_all-append ((k, v) ∷ m) n h d = rw (insert_fresh k v n (d k (ground (arith, eq_refl k)))) (
      rw
        (insert_all-append m (n ++ (k, v) ∷ []) h.1
          (λ j c. ground (arith, d j, eq_iff k j, lookup-append j n ((k, v) ∷ []))))
        (append_assoc n ((k, v) ∷ []) m))

  pub insert_all-nil : (m : Map V) → IsMap m → insert_all m [] ≡ m
  unfolding lookup
  insert_all-nil m h = insert_all-append m [] h (λ j c. refl)

  pub insert_all-IsMap : (m n : Map V) → IsMap n → IsMap (insert_all m n)
  unfolding insert_all
  insert_all-IsMap [] n h = h
  insert_all-IsMap ((k, v) ∷ m) n h = insert_all-IsMap m (insert k v n) (insert-IsMap k v n h)

-- ===== src/Storage/Removal.antt =====
-- RemoveStack: what is gone, what stays, and that no stack is left without its parent.
use stack_deploy.Prelude.{
  ℕ, zero, suc, String, ◌≡◌, ◌≢◌, inl, inr, true, false, Option, some, none, List, [], ◌∷◌, arith,
  ◌==◌, eq_iff, eq_refl, elem, Option-cases, Bool-cases,
}
use stack_deploy.Map.{lookup, remove, lookup-remove}
use stack_deploy.Stack.{Stack}
use stack_deploy.Storage.{Stacks, children_of, still_there, and_then, remove_each, remove_forced}

-- `b` has the stacks of `a` but for some, and no child of those.
pub record Prunes (a b : Stacks) : Type 0 where
  pub kept : (k : String) (s : Stack) → lookup k b ≡ some s → lookup k a ≡ some s
  pub childless :
      (k j : String) (s t : Stack)
      → lookup k a ≡ some s
      → lookup k b ≡ none
      → lookup j b ≡ some t
      → t.from ≢ k

Prunes-refl : (a : Stacks) → Prunes a a
Prunes-refl a = record { kept = λ k s h. h; childless = λ k j s t h e f p. cc }

Prunes-trans : (a b c : Stacks) → Prunes a b → Prunes b c → Prunes a c
Prunes-trans a b c p q = record {
  kept = λ k s h. p.kept k s (q.kept k s h);
  childless = λ k j s t h e f. elim (Option-cases (lookup k b)) [
    | inl gone ↦ p.childless k j s t h gone (q.kept j t f)
    | inr (u, there) ↦ q.childless k j u t there e f
  ];
}

-- Each stack is stored under its name.
abbrev pub IsKeyed : Stacks → Type 0
IsKeyed stacks = (k : String) (s : Stack) → lookup k stacks ≡ some s → s.name ≡ k

-- What a removal of `name` is to give.
pub record Removes (name : String) (a b : Stacks) : Type 0 where
  pub prunes : Prunes a b
  pub gone : lookup name b ≡ none

abbrev pub OnSome {ℓ} : {A : Type 0} → (A → Type ℓ) → Option A → Type ℓ
OnSome P none = Unit
OnSome P (some a) = P a

elem-children_of :
    (name k : String) (stacks : Stacks) (s : Stack)
    → lookup k stacks ≡ some s
    → s.from ≡ name
    → s.name ≡ k
    → elem k (children_of name stacks) ≡ true
unfolding children_of lookup
elem-children_of name k [] s h e f = cc
elem-children_of name k ((j, t) ∷ stacks) s h e f =
    ground
      (arith, eq_iff j k, eq_iff t.from name, eq_iff t.name k, elem-children_of name k stacks s)

-- What the loop over the children gives: those it came to are gone, or were no children any more.
pub record Clears (name : String) (children : List String) (a b : Stacks) : Type 0 where
  pub prunes : Prunes a b
  pub cleared :
      (k : String) (s : Stack) → elem k children ≡ true → lookup k b ≡ some s → s.from ≢ name

skip-Clears :
    (name c : String) (cs : List String) (a : Stacks) (r : Option Stacks)
    → still_there c name a ≡ false
    → OnSome (Clears name cs a) r
    → OnSome (Clears name (c ∷ cs) a) r
skip-Clears name c cs a none away v = tt
skip-Clears name c cs a (some b) away v = record {
  prunes = v.prunes;
  cleared = λ k s m e f.
      ground (arith, eq_iff c k, eq_iff s.from name, v.cleared k s, v.prunes.kept k s e);
}

removed-Clears :
    (name c : String) (cs : List String) (a left : Stacks) (r : Option Stacks)
    → Removes c a left
    → OnSome (Clears name cs left) r
    → OnSome (Clears name (c ∷ cs) a) r
removed-Clears name c cs a left none w v = tt
removed-Clears name c cs a left (some b) w v = record {
  prunes = Prunes-trans a left b w.prunes v.prunes;
  cleared = λ k s m e f. ground (arith, eq_iff c k, v.cleared k s, v.prunes.kept k s e, w.gone);
}

and_then-OnSome :
    (P Q : Stacks → Type 0) (o : Option Stacks) (next : Stacks → Option Stacks)
    → OnSome P o
    → ((b : Stacks) → P b → OnSome Q (next b))
    → OnSome Q (and_then o next)
and_then-OnSome P Q none next p f = tt
and_then-OnSome P Q (some b) next p f = f b p

module _ (rm : String → Stacks → Option Stacks)
    (removes : (k : String) (a : Stacks) → IsKeyed a → OnSome (Removes k a) (rm k a)) where
  remove_each-Clears :
      (name : String) (children : List String) (a : Stacks)
      → IsKeyed a
      → OnSome (Clears name children a) (remove_each rm name children a)
  unfolding remove_each
  remove_each-Clears name [] a keyed = record { prunes = Prunes-refl a; cleared = λ k s h. cc }
  remove_each-Clears name (c ∷ cs) a keyed = elim (Bool-cases (still_there c name a)) [
    | inr away ↦ rw away (skip-Clears name c cs a _ away (remove_each-Clears name cs a keyed))
    | inl there ↦ rw there (
        and_then-OnSome (Removes c a) (Clears name (c ∷ cs) a) (rm c a) (remove_each rm name cs)
          (removes c a keyed)
          (λ left w.
            removed-Clears name c cs a left _ w
              (remove_each-Clears name cs left (λ k s h. keyed k s (w.prunes.kept k s h)))))
  ]

remove-childless :
    (name : String) (a left : Stacks)
    → IsKeyed a
    → Clears name (children_of name a) a left
    → (k j : String) (s t : Stack) → lookup k a ≡ some s
    → lookup k (remove name left) ≡ none
    → lookup j (remove name left) ≡ some t
    → t.from ≢ k
remove-childless name a left keyed v k j s t h e f p =
    let there : lookup j left ≡ some t = ground (arith, eq_iff name j, lookup-remove name j left) in
    let was = v.prunes.kept j t there in
    elim (Bool-cases (name == k)) [
      | inl same ↦
          let n : t.from ≡ name = ground (arith, eq_iff name k) in
          v.cleared j t (elem-children_of name j a t was n (keyed j t was)) there n
      | inr other ↦
          let miss : lookup k left ≡ none = ground (arith, lookup-remove name k left) in
          v.prunes.childless k j s t h miss there p
    ]

-- The stack itself goes last, when it has no children.
remove-Removes :
    (name : String) (a left : Stacks)
    → IsKeyed a
    → Clears name (children_of name a) a left
    → Removes name a (remove name left)
remove-Removes name a left keyed v = record {
  prunes = record {
    kept = λ k s h. ground (arith, eq_iff name k, lookup-remove name k left, v.prunes.kept k s);
    childless = λ k j s t h e f p. remove-childless name a left keyed v k j s t h e f p;
  };
  gone = rw (lookup-remove name name left, eq_refl name);
}

-- What holds of any removal that ends.
pub remove_forced-OnSome :
    (fuel : ℕ) (name : String) (a : Stacks)
    → IsKeyed a
    → OnSome (Removes name a) (remove_forced fuel name a)
unfolding remove_forced
remove_forced-OnSome zero name a keyed = tt
remove_forced-OnSome (suc fuel) name a keyed =
    and_then-OnSome (Clears name (children_of name a) a) (Removes name a)
      (remove_each (remove_forced fuel) name (children_of name a) a)
      (λ left. some (remove name left))
      (remove_each-Clears (remove_forced fuel) (remove_forced-OnSome fuel) name (children_of name a)
        a keyed)
      (λ left w. remove-Removes name a left keyed w)

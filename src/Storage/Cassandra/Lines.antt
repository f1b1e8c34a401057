-- ===== src/Storage/Cassandra/Lines.antt =====
-- GetStack gives the merge of a stack's line of ancestors, and nothing else.
use stack_deploy.Prelude.{
  ℕ, zero, suc, ◌+◌, ◌≤◌, arith, String, ◌≡◌, ◌≢◌, ◌↔◌, refl, sym, ap, ◌∙◌, inl, inr, ◌⊎◌, Option,
  none, some, List, [], ◌∷◌, length, String-cases, ==_of_ne,
}
use stack_deploy.Stack.{Stack}
use stack_deploy.Stack.Merge.{merge}
use stack_deploy.Storage.{Result, ok, err, Error, or_panics}
use stack_deploy.Storage.Cassandra.{Session, read, get_stack, onto_parent}

abbrev merge_onto : Option Stack → Stack → Option Stack
merge_onto none s = none
merge_onto (some parent) s = merge parent s

-- The merge of the line, the nearest ancestor first; `none` is a panic.
abbrev pub merged_line : Stack → List Stack → Option Stack
merged_line s [] = some s
merged_line s (parent ∷ rest) = merge_onto (merged_line parent rest) s

module _ {D : Type 0} (session : Session D) (db : D) where
  -- `s` is the stack of that name, and the list are its parent, the parent's parent, and so on.
  abbrev pub IsLine : String → Stack → List Stack → Type 0
  IsLine name s [] = read session name db ≡ ok ("", s)
  IsLine name s (t ∷ rest) =
      (parent : String) × (parent ≢ "")
      × (read session name db ≡ ok (parent, s))
      × IsLine parent t rest

  Result-cases : {A : Type 0} (r : Result A) → ((e : Error) × (r ≡ err e)) ⊎ ((a : A) × (r ≡ ok a))
  Result-cases (err e) = inl (e, refl)
  Result-cases (ok a) = inr (a, refl)

  or_panics-ok : (o : Option Stack) (t : Stack) → or_panics o ≡ ok t → o ≡ some t
  or_panics-ok none t h = cc
  or_panics-ok (some s) t h = cc

  onto_parent-or_panics :
      (o : Option Stack) (s : Stack)
      → onto_parent session (some (or_panics o)) s ≡ some (or_panics (merge_onto o s))
  onto_parent-or_panics none s = refl
  onto_parent-or_panics (some parent) s = refl

  onto_parent-ok :
      (o : Option (Result Stack)) (s t : Stack)
      → onto_parent session o s ≡ some (ok t)
      → (parent : Stack) × (o ≡ some (ok parent)) × (merge parent s ≡ some t)
  onto_parent-ok none s t h = cc
  onto_parent-ok (some (err e)) s t h = cc
  onto_parent-ok (some (ok parent)) s t h = (parent, refl, or_panics-ok (merge parent s) t cc)

  abbrev pub HasLine : ℕ → String → Stack → Type 0
  HasLine fuel name merged =
      (s : Stack) × (rest : List Stack) × IsLine name s rest
      × (length rest + 1 ≤ fuel)
      × (merged_line s rest ≡ some merged)

  -- A round of GetStack, by what the row is.
  get_stack-missing :
      (fuel : ℕ) (name : String) (e : Error)
      → read session name db ≡ err e
      → get_stack session (suc fuel) name db ≡ some (err e)
  unfolding get_stack
  get_stack-missing fuel name e h = rw (h, get_stack) refl

  get_stack-root :
      (fuel : ℕ) (name : String) (s : Stack)
      → read session name db ≡ ok ("", s)
      → get_stack session (suc fuel) name db ≡ some (ok s)
  unfolding get_stack
  get_stack-root fuel name s h = rw (h, get_stack) refl

  get_stack-child :
      (fuel : ℕ) (name parent : String) (s : Stack)
      → read session name db ≡ ok (parent, s)
      → parent ≢ ""
      → get_stack session (suc fuel) name db
        ≡ onto_parent session (get_stack session fuel parent db) s
  unfolding get_stack
  get_stack-child fuel name parent s h ne = rw (h, ==_of_ne parent "" ne, get_stack) refl

  get_stack-HasLine :
      (fuel : ℕ) (name : String) (merged : Stack)
      → get_stack session fuel name db ≡ some (ok merged)
      → HasLine fuel name merged
  unfolding get_stack
  get_stack-HasLine zero name merged h = cc
  get_stack-HasLine (suc fuel) name merged h = elim (Result-cases (read session name db)) [
    | inl (e, missing) ↦ let gone = get_stack-missing fuel name e missing in cc
    | inr ((parent, s), here) ↦ elim (String-cases parent "") [
      | inl (same, hit) ↦
          let root : read session name db ≡ ok ("", s) = here ∙ ap (λ p. ok (p, s)) same in
          let got = get_stack-root fuel name s root in (s, [], root, omega arith, cc)
      | inr (other, miss) ↦
          let above =
            onto_parent-ok (get_stack session fuel parent db) s merged
              (sym (get_stack-child fuel name parent s here other) ∙ h) in
          let line = get_stack-HasLine fuel parent above.0 above.1 in
          (
            s,
            line.0 ∷ line.1,
            (parent, other, here, line.2),
            omega (arith, line.3),
            ap (λ o. merge_onto o s) line.4 ∙ above.2,
          )
    ]
  ]

  line-get_stack :
      (fuel : ℕ) (name : String) (s : Stack) (rest : List Stack)
      → IsLine name s rest
      → length rest + 1 ≤ fuel
      → get_stack session fuel name db ≡ some (or_panics (merged_line s rest))
  line-get_stack zero name s rest line h = absurd (omega arith)
  line-get_stack (suc fuel) name s [] line h = get_stack-root fuel name s line
  line-get_stack (suc fuel) name s (t ∷ rest) (parent, ne, e, line) h =
      get_stack-child fuel name parent s e ne
      ∙ ap (λ o. onto_parent session o s) (line-get_stack fuel parent t rest line (omega arith))
      ∙ onto_parent-or_panics (merged_line t rest) s

  -- To a depth of at least its length, GetStack of CassandraStorage gives a stack exactly if the
  -- name begins a line of ancestors that are all there and readable, the last one without a
  -- parent, and the stack is the merge of that line, each stack onto the merge of those it
  -- extends, where none of these merges panics.
  pub get_stack-line :
      (fuel : ℕ) (name : String) (merged : Stack)
      → (get_stack session fuel name db ≡ some (ok merged)) ↔ HasLine fuel name merged
  get_stack-line fuel name merged = (
    get_stack-HasLine fuel name merged,
    λ h. line-get_stack fuel name h.0 h.1 h.2 h.3 ∙ ap (λ o. some (or_panics o)) h.4,
  )

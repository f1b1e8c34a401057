-- ===== src/Application/Resolve/Unresolved.antt =====
-- What variableRegexp finds, described without it.
use Prim.Native.Char.{Char, code}
use Prim.Native.String.{String}
use stack_deploy.Prelude.{
  ◌≡◌, ◌≢◌, refl, ap, ◌∙◌, subst, ◌↔◌, ◌⊎◌, inl, inr, none, some, arith, eqb, Bool-cases,
  Option-cases,
}
use stack_deploy.Application.Resolve.{
  up_to_last_brace, match_here, or_later, find_variable, ensure_string,
}

-- A newline somewhere.
abbrev pub HasNewline : String → Type 0
HasNewline String.[] = ⊥
HasNewline (String.◌∷◌ c cs) = (code c ≡ 10) ⊎ HasNewline cs

-- A brace on the first line.
abbrev pub HasBrace : String → Type 0
HasBrace String.[] = ⊥
HasBrace (String.◌∷◌ c cs) = (code c ≢ 10) × ((code c ≡ b'}') ⊎ HasBrace cs)

-- `${` somewhere, with a brace behind it on the same line.
abbrev pub HasVariable : String → Type 0
HasVariable String.[] = ⊥
HasVariable (String.◌∷◌ c String.[]) = ⊥
HasVariable (String.◌∷◌ c (String.◌∷◌ d cs)) =
    ((code c ≡ b'$') × (code d ≡ b'{') × HasBrace cs) ⊎ HasVariable (String.◌∷◌ d cs)

brace-of-match : (s matched : String) → up_to_last_brace s ≡ some matched → HasBrace s
unfolding up_to_last_brace
brace-of-match String.[] m h = cc
brace-of-match (String.◌∷◌ c cs) m h = elim (Bool-cases (eqb (code c) 10)) [
  | inl line ↦ ground arith
  | inr same ↦ elim (Option-cases (up_to_last_brace cs)) [
    | inl e ↦ (ground arith, inl (ground arith))
    | inr (t, e) ↦ (ground arith, inr (brace-of-match cs t e))
  ]
]

match-of-brace : (s : String) → HasBrace s → up_to_last_brace s ≢ none
unfolding up_to_last_brace
match-of-brace String.[] h e = h
match-of-brace (String.◌∷◌ c cs) (line, inl brace) e = ground arith
match-of-brace (String.◌∷◌ c cs) (line, inr later) e = ground (arith, match-of-brace cs later)

-- The match at one place.
match_here-none :
    (c d : Char) (cs : String)
    → match_here (String.◌∷◌ c (String.◌∷◌ d cs)) ≡ none
    → ¬ ((code c ≡ b'$') × (code d ≡ b'{') × HasBrace cs)
unfolding match_here
match_here-none c d cs h (dollar, open', brace) = elim (Option-cases (up_to_last_brace cs)) [
  | inl e ↦ match-of-brace cs brace e
  | inr (t, e) ↦ ground arith
]

match_here-some :
    (c d : Char) (cs matched : String)
    → match_here (String.◌∷◌ c (String.◌∷◌ d cs)) ≡ some matched
    → (code c ≡ b'$') × (code d ≡ b'{') × HasBrace cs
unfolding match_here
match_here-some c d cs matched h = elim (Option-cases (up_to_last_brace cs)) [
  | inl e ↦ ground arith
  | inr (t, e) ↦ (ground arith, ground arith, brace-of-match cs t e)
]

none_found : (s : String) → find_variable s ≡ none → ¬ HasVariable s
unfolding find_variable
none_found String.[] h v = v
none_found (String.◌∷◌ c String.[]) h v = v
none_found (String.◌∷◌ c (String.◌∷◌ d cs)) h v =
    elim (Option-cases (match_here (String.◌∷◌ c (String.◌∷◌ d cs)))) [
      | inr (t, e) ↦ cc (subst (λ m. or_later m (find_variable (String.◌∷◌ d cs)) ≡ none) e h)
      | inl e ↦ elim v [
        | inl here ↦ match_here-none c d cs e here
        | inr later ↦
            none_found (String.◌∷◌ d cs)
              (subst (λ m. or_later m (find_variable (String.◌∷◌ d cs)) ≡ none) e h) later
      ]
    ]

none_there : (s : String) → ¬ HasVariable s → find_variable s ≡ none
unfolding find_variable match_here
none_there String.[] h = refl
none_there (String.◌∷◌ c String.[]) h = refl
none_there (String.◌∷◌ c (String.◌∷◌ d cs)) h =
    elim (Option-cases (match_here (String.◌∷◌ c (String.◌∷◌ d cs)))) [
      | inr (t, e) ↦ absurd (h (inl (match_here-some c d cs t e)))
      | inl e ↦
          ap (λ m. or_later m (find_variable (String.◌∷◌ d cs))) e
          ∙ none_there (String.◌∷◌ d cs) (λ v. h (inr v))
    ]

-- A text passes the test for unresolved variables exactly if there is no `${` in it with a `}`
-- behind it on the same line.
pub ensure_string-HasVariable : (s : String) → (ensure_string s ≡ none) ↔ (¬ HasVariable s)
unfolding ensure_string
ensure_string-HasVariable s =
    (λ h. none_found s (ground arith), λ h. rw (none_there s h, ensure_string) refl)

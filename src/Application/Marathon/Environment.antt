-- ===== src/Application/Marathon/Environment.antt =====
-- What the tasks of an application find in their environment, and which labels it carries.
use Prim.Native.String.{◌++◌}
use text.Mathlib.TextLemmas.{append-eq-nil_iff}
use stack_deploy.Prelude.{
  String, ◌≡◌, ◌≢◌, refl, ap, String-cases, Bool, true, false, Bool-cases, inl, inr, ◌∷◌, none,
  some, not, ◌&&◌, ◌||◌, [], arith, ◌==◌, eq_iff, if◌then◌else◌,
}
use stack_deploy.Map.{IsMap, lookup, insert, or_else, lookup-insert, lookup-insert_all}
use stack_deploy.Prelude.Text.{join, concat}
use stack_deploy.Variables.{Variables}
use stack_deploy.Application.{Application}
use stack_deploy.Application.Marathon.{
  value_or_empty, get_labels_from_context, add_labels, ranged, get_env, label_strings,
}

-- The labels are the variables `zone` and `stack`, each where it is set and not empty, and no
-- other.
pub lookup-get_labels_from_context :
    (context : Variables) (key : String)
    → lookup key (get_labels_from_context context) ≡ (
        if (key == "zone" || key == "stack") && not (value_or_empty key context == "")
        then some (value_or_empty key context)
        else none)
unfolding get_labels_from_context add_labels lookup
lookup-get_labels_from_context context key = ground (
  arith,
  eq_iff key "zone",
  eq_iff key "stack",
  eq_iff "zone" key,
  eq_iff "stack" key,
  eq_iff "zone" "stack",
  lookup-insert "stack" key (value_or_empty "stack" context) [],
  lookup-insert "zone" key (value_or_empty "zone" context) [],
  lookup-insert "stack" key (value_or_empty "stack" context)
      (insert "zone" (value_or_empty "zone" context) []),
)

abbrev labelled : String → String → String
labelled name value = concat (name ∷ "=" ∷ value ∷ [])

-- STACK_LABELS of a zone and a stack: `zone=...` and `stack=...`, each where it is not empty, with a
-- semicolon between them, the stack in front where the order is turned.
abbrev pub stack_labels : Bool → String → String → String
stack_labels turned zone stack =
    if zone == ""
    then if stack == "" then "" else labelled "stack" stack
    else if stack == ""
    then labelled "zone" zone
    else if turned
    then concat (labelled "stack" stack ∷ ";" ∷ labelled "zone" zone ∷ [])
    else concat (labelled "zone" zone ∷ ";" ∷ labelled "stack" stack ∷ [])

join-label_strings :
    (turned : Bool) (context : Variables)
    → join (label_strings (ranged turned (get_labels_from_context context))) ";"
      ≡ stack_labels turned (value_or_empty "zone" context) (value_or_empty "stack" context)
unfolding get_labels_from_context add_labels label_strings join insert
join-label_strings true context = elim (Bool-cases (value_or_empty "zone" context == "")) [
  | inl no_zone ↦ elim (Bool-cases (value_or_empty "stack" context == "")) [
    | inl no_stack ↦ rw (no_zone, no_stack) refl
    | inr a_stack ↦ rw (no_zone, a_stack) refl
  ]
  | inr a_zone ↦ elim (Bool-cases (value_or_empty "stack" context == "")) [
    | inl no_stack ↦ rw (a_zone, no_stack) refl
    | inr a_stack ↦ rw (a_zone, a_stack) refl
  ]
]
join-label_strings false context = elim (Bool-cases (value_or_empty "zone" context == "")) [
  | inl no_zone ↦ elim (Bool-cases (value_or_empty "stack" context == "")) [
    | inl no_stack ↦ rw (no_zone, no_stack) refl
    | inr a_stack ↦ rw (no_zone, a_stack) refl
  ]
  | inr a_zone ↦ elim (Bool-cases (value_or_empty "stack" context == "")) [
    | inl no_stack ↦ rw (a_zone, no_stack) refl
    | inr a_stack ↦ rw (a_zone, a_stack) refl
  ]
]

-- A text that starts with one that is not empty.
append-eq-false : (s t : String) → s ≢ "" → (s ++ t == "") ≡ false
append-eq-false s t ne = elim (String-cases (s ++ t) "") [
  | inl (e, _) ↦ absurd (ne (append-eq-nil_iff.0 e).0)
  | inr (_, miss) ↦ miss
]

labelled-eq-false : (name value : String) → name ≢ "" → (labelled name value == "") ≡ false
labelled-eq-false name value ne = append-eq-false name ("=" ++ value) ne

labelled-ne-nil : (name value : String) → name ≢ "" → labelled name value ≢ ""
labelled-ne-nil name value ne e = ne (append-eq-nil_iff.0 e).0

no_name : (s : String) → (s == "") ≡ false → s ≢ ""
no_name s h e = let empty = ap (λ t. t == "") e in cc

named_zone : ◌≢◌ {A = String} "zone" ""
named_zone = no_name "zone" refl

named_stack : ◌≢◌ {A = String} "stack" ""
named_stack = no_name "stack" refl

stack_labels-empty :
    (turned : Bool) (zone stack : String)
    → (stack_labels turned zone stack == "") ≡ (zone == "" && stack == "")
stack_labels-empty turned zone stack = elim (Bool-cases (zone == "")) [
  | inl z ↦ elim (Bool-cases (stack == "")) [
    | inl s ↦ rw (z, s) refl
    | inr s ↦ rw (z, s) (labelled-eq-false "stack" stack named_stack)
  ]
  | inr z ↦ elim (Bool-cases (stack == "")) [
    | inl s ↦ rw (z, s) (labelled-eq-false "zone" zone named_zone)
    | inr s ↦ rw (z, s) (two_labels turned)
  ]
]
  where
    two_labels :
        (b : Bool)
        → ((if b
              then concat (labelled "stack" stack ∷ ";" ∷ labelled "zone" zone ∷ [])
              else concat (labelled "zone" zone ∷ ";" ∷ labelled "stack" stack ∷ []))
            == "")
          ≡ false
    two_labels true =
        append-eq-false (labelled "stack" stack) (";" ++ labelled "zone" zone)
          (labelled-ne-nil "stack" stack named_stack)
    two_labels false =
        append-eq-false (labelled "zone" zone) (";" ++ labelled "stack" stack)
          (labelled-ne-nil "zone" zone named_zone)

-- A variable of the environment is the application's own; STACK_LABELS, where the application does
-- not set it, is `zone=` with the zone and `stack=` with the stack, each where it is not empty, a
-- semicolon between them, the one or the other in front as Go visits the labels; and there is no
-- other. The application's environment has one entry for a key.
pub lookup-get_env :
    (turned : Bool) (a : Application) (context : Variables) (key : String)
    → IsMap a.env
    → let zone = value_or_empty "zone" context in
      let stack = value_or_empty "stack" context in
      lookup key (get_env turned a context)
      ≡ or_else (lookup key a.env) (
          if key == "STACK_LABELS" && not (zone == "" && stack == "")
          then some (stack_labels turned zone stack)
          else none)
unfolding get_env lookup
lookup-get_env turned a context key h = ground (
  arith,
  join-label_strings turned context,
  stack_labels-empty turned (value_or_empty "zone" context) (value_or_empty "stack" context),
  eq_iff key "STACK_LABELS",
  eq_iff "STACK_LABELS" key,
  lookup-insert_all a.env
      (if stack_labels turned (value_or_empty "zone" context) (value_or_empty "stack" context) == ""
        then []
        else insert "STACK_LABELS"
            (stack_labels turned (value_or_empty "zone" context) (value_or_empty "stack" context))
            [])
      key h,
)

-- ===== src/Variables/Json.antt =====
-- MarshalJSON and UnmarshalJSON. json.Marshal and json.Unmarshal of a map of maps are parameters,
-- with `none` for their error, on which UnmarshalJSON leaves the variables as they are.
use stack_deploy.Prelude.{String, ◌≡◌, ◌∙◌, refl, Option, none, some, List, [], ◌∷◌, All}
use stack_deploy.Map.{Map, IsMap, lookup, or_else, insert_all, lookup-insert_all}
use stack_deploy.Variables.{
  Variables, new_variables, set_stack_variable, set_arbitrary_variable, set_global_variable,
}

-- The object of objects that is written.
abbrev pub document : Variables → Map (Map String)
document v =
    ("StackVariables", v.stack_variables)
    ∷ ("ArbitraryVariables", v.arbitrary_variables)
    ∷ ("GlobalVariables", v.global_variables)
    ∷ []

pub marshal_json : (Map (Map String) → Option String) → Variables → Option String
marshal_json marshal v = marshal (document v)

-- `ctx[name]`, empty where there is none
unfoldable pub layer_of : String → Map (Map String) → Map String
unfolding lookup
layer_of name ctx = elim (lookup name ctx) [ none ↦ [] | some m ↦ m ]

-- One of the three loops.
abbrev set_each : (String → String → Variables → Variables) → Map String → Variables → Variables
set_each set [] v = v
set_each set ((key, value) ∷ m) v = set_each set m (set key value v)

-- The three loops.
abbrev set_layers : Map (Map String) → Variables → Variables
set_layers ctx v = set_each set_global_variable (layer_of "GlobalVariables" ctx) (
    set_each set_arbitrary_variable (layer_of "ArbitraryVariables" ctx)
      (set_each set_stack_variable (layer_of "StackVariables" ctx) v))

pub unmarshal_json : (String → Option (Map (Map String))) → String → Variables → Option Variables
unmarshal_json unmarshal text v = elim (unmarshal text) [
  | none ↦ none
  | some ctx ↦ some (set_layers ctx v)
]

set_each-stack :
    (m : Map String) (v : Variables)
    → set_each set_stack_variable m v
      ≡ record v { stack_variables = insert_all m v.stack_variables }
unfolding insert_all
set_each-stack [] v = refl
set_each-stack ((k, w) ∷ m) v = set_each-stack m (set_stack_variable k w v)

set_each-arbitrary :
    (m : Map String) (v : Variables)
    → set_each set_arbitrary_variable m v
      ≡ record v { arbitrary_variables = insert_all m v.arbitrary_variables }
unfolding insert_all
set_each-arbitrary [] v = refl
set_each-arbitrary ((k, w) ∷ m) v = set_each-arbitrary m (set_arbitrary_variable k w v)

set_each-global :
    (m : Map String) (v : Variables)
    → set_each set_global_variable m v
      ≡ record v { global_variables = insert_all m v.global_variables }
unfolding insert_all
set_each-global [] v = refl
set_each-global ((k, w) ∷ m) v = set_each-global m (set_global_variable k w v)

abbrev layer_names : List String
layer_names = "StackVariables" ∷ "ArbitraryVariables" ∷ "GlobalVariables" ∷ []

-- What is read has the entries of what was written, in any order, and one entry for a key.
pub record IsRead (written read : Map (Map String)) : Type 0 where
  pub entries :
      All
        (λ name.
          (key : String) → lookup key (layer_of name read) ≡ lookup key (layer_of name written))
        layer_names
  pub maps : All (λ name. IsMap (layer_of name read)) layer_names

-- The layers of two variables agree.
abbrev pub SameLayers : Variables → Variables → Type 0
SameLayers v w =
    (key : String)
    → (lookup key w.stack_variables ≡ lookup key v.stack_variables)
      × (lookup key w.arbitrary_variables ≡ lookup key v.arbitrary_variables)
      × (lookup key w.global_variables ≡ lookup key v.global_variables)

or_else-none : (o : Option String) → or_else o none ≡ o
or_else-none none = refl
or_else-none (some v) = refl

lookup-insert_all-nil :
    (m : Map String) (key : String) → IsMap m → lookup key (insert_all m []) ≡ lookup key m
unfolding lookup
lookup-insert_all-nil m key h = lookup-insert_all m [] key h ∙ or_else-none (lookup key m)

set_layers-new_variables :
    (ctx : Map (Map String))
    → set_layers ctx new_variables ≡ record {
      stack_variables = insert_all (layer_of "StackVariables" ctx) [];
      arbitrary_variables = insert_all (layer_of "ArbitraryVariables" ctx) [];
      global_variables = insert_all (layer_of "GlobalVariables" ctx) [];
    }
set_layers-new_variables ctx =
    rw
      (
        set_each-stack (layer_of "StackVariables" ctx) new_variables,
        set_each-arbitrary (layer_of "ArbitraryVariables" ctx),
        set_each-global (layer_of "GlobalVariables" ctx),
      )
      refl

-- Where json.Marshal writes the document of some variables as a text, and json.Unmarshal reads a
-- document with the same entries from it, in any order, MarshalJSON gives that text and
-- UnmarshalJSON of it into fresh variables succeeds and gives variables with the same entries in
-- each of the three layers.
pub unmarshal_json-marshal_json :
    (marshal : Map (Map String) → Option String) (unmarshal : String → Option (Map (Map String)))
    (v : Variables) (text : String) (read : Map (Map String))
    → marshal (document v) ≡ some text
    → unmarshal text ≡ some read
    → IsRead (document v) read
    → (marshal_json marshal v ≡ some text)
      × (w : Variables) × (unmarshal_json unmarshal text new_variables ≡ some w)
      × SameLayers v w
unfolding unmarshal_json marshal_json layer_of lookup
unmarshal_json-marshal_json marshal unmarshal v text read written found h = (
  written,
  set_layers read new_variables,
  rw (found, unmarshal_json) refl,
  λ key. rw (set_layers-new_variables read) (
    lookup-insert_all-nil (layer_of "StackVariables" read) key h.maps.0 ∙ h.entries.0 key,
    lookup-insert_all-nil (layer_of "ArbitraryVariables" read) key h.maps.1.0 ∙ h.entries.1.0 key,
    lookup-insert_all-nil (layer_of "GlobalVariables" read) key h.maps.1.1.0 ∙ h.entries.1.1.0 key,
  ),
)

-- ===== src/Variables/Tests.antt =====
-- Variables that hide one another.
use stack_deploy.Prelude.{
  String, ◌≡◌, refl, Option, none, some, not, ◌&&◌, [], ◌∷◌, ◌==◌, if◌then◌else◌,
}
use stack_deploy.Map.{Map, lookup, contains}
use stack_deploy.Variables.{
  Variables, new_variables, get, all_variables, set_stack_variable, set_arbitrary_variable,
  set_global_variable,
}
use stack_deploy.Variables.Precedence.{IsValid, lookup-all_variables, get-set}
use stack_deploy.Variables.Json.{
  document, layer_of, IsRead, SameLayers, marshal_json, unmarshal_json, unmarshal_json-marshal_json,
}

abbrev layered : Variables
layered = record {
  stack_variables = ("zone", "a") ∷ [];
  arbitrary_variables = ("zone", "b") ∷ [];
  global_variables = ("host", "c") ∷ [];
}

layered-IsValid : IsValid layered
unfolding lookup
layered-IsValid = record {
  stack_valid = (refl, tt);
  arbitrary_valid = (refl, tt);
  global_valid = (refl, tt);
}

lookup-all_variables_example : lookup "zone" (all_variables layered) ≡ get "zone" layered
lookup-all_variables_example = lookup-all_variables layered "zone" layered-IsValid

-- A writer and a reader of JSON that know one text; the reader gives the layers in another order.
abbrev layered_text : String
layered_text =
    "{\"ArbitraryVariables\":{\"zone\":\"b\"},\"GlobalVariables\":{\"host\":\"c\"},\"StackVariables\":{\"zone\":\"a\"}}"

abbrev as_read : Map (Map String)
as_read =
    ("ArbitraryVariables", ("zone", "b") ∷ [])
    ∷ ("GlobalVariables", ("host", "c") ∷ [])
    ∷ ("StackVariables", ("zone", "a") ∷ [])
    ∷ []

abbrev write : Map (Map String) → Option String
write ctx = some layered_text

abbrev read_text : String → Option (Map (Map String))
read_text t = if t == layered_text then some as_read else none

layered-IsRead : IsRead (document layered) as_read
unfolding layer_of lookup
layered-IsRead = record {
  entries = (λ key. refl, (λ key. refl, (λ key. refl, tt)));
  maps = ((refl, tt), ((refl, tt), ((refl, tt), tt)));
}

unmarshal_json-marshal_json_example :
    (marshal_json write layered ≡ some layered_text)
    × (w : Variables) × (unmarshal_json read_text layered_text new_variables ≡ some w)
    × SameLayers layered w
unmarshal_json-marshal_json_example =
    unmarshal_json-marshal_json write read_text layered layered_text as_read refl refl
      layered-IsRead

get-set_example :
    (get "zone" (set_stack_variable "zone" "d" layered)
      ≡ (if "zone" == "zone" then some "d" else get "zone" layered))
    × (get "zone" (set_arbitrary_variable "zone" "d" layered) ≡ (
        if "zone" == "zone" && not (contains "zone" layered.stack_variables)
        then some "d"
        else get "zone" layered))
    × (get "zone" (set_global_variable "zone" "d" layered) ≡ (
        if "zone" == "zone"
          && not (contains "zone" layered.stack_variables)
          && not (contains "zone" layered.arbitrary_variables)
        then some "d"
        else get "zone" layered))
get-set_example = get-set layered "zone" "zone" "d"

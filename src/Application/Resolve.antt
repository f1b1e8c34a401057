-- ===== src/Application/Resolve.antt =====
-- resolveVariables and ensureVariablesResolved: the variables of a run are put into the texts of an
-- application, and a text with an unresolved variable is an error.
pub mod Unresolved
use Prim.Native.Char.{code}
use Prim.Native.String
use Prim.Native.String.{String}
use stack_deploy.Prelude.{
  Bool, true, false, ◌&&◌, Option, none, some, List, [], ◌∷◌, map, ◌==◌, eqb, if◌then◌else◌,
}
use stack_deploy.Prelude.Text.{concat, replace_all}
use stack_deploy.Map.{Map}
use stack_deploy.Variables.{Variables, all_variables}
use stack_deploy.Application.{Application, Fields, Failure, unresolved_variable}

-- fmt.Sprintf("${%s}", k)
abbrev pub token : String → String
token key = concat ("${" ∷ key ∷ "}" ∷ [])

-- The replacement of one variable in a text, and in the values of a map.
unfoldable pub resolve_text : String × String → String → String
unfolding replace_all
resolve_text (key, value) s = replace_all s (token key) value

abbrev pub map_values : (String → String) → Map String → Map String
map_values f [] = []
map_values f ((k, v) ∷ m) = (k, f v) ∷ map_values f m

abbrev pub map_tasks :
    (String → String) → List (String × Option Fields) → List (String × Option Fields)
map_tasks f [] = []
map_tasks f ((key, none) ∷ tasks) = (key, none) ∷ map_tasks f tasks
map_tasks f ((key, some fields) ∷ tasks) = (key, some (map_values f fields)) ∷ map_tasks f tasks

-- resolveCmdVariables, over the list of all variables.
unfoldable pub resolve_cmd_variables : Map String → List String → List String
unfolding resolve_text
resolve_cmd_variables [] commands = commands
resolve_cmd_variables (v ∷ variables) commands =
    resolve_cmd_variables variables (map (resolve_text v) commands)

-- The body of resolveVariables' loop, for one of `all`.
unfoldable pub resolve_one : Map String → String × String → Application → Application
unfolding resolve_text resolve_cmd_variables
resolve_one all v a = record a {
  launch_command = resolve_text v a.launch_command;
  env = map_values (resolve_text v) a.env;
  scheduler = map_values (resolve_text v) a.scheduler;
  args = map (resolve_text v) a.args;
  tasks = map_tasks (resolve_text v) a.tasks;
  before_scheduler = resolve_cmd_variables all a.before_scheduler;
  after_scheduler = resolve_cmd_variables all a.after_scheduler;
  before_task = resolve_cmd_variables all a.before_task;
  after_task = resolve_cmd_variables all a.after_task;
  after_tasks = resolve_cmd_variables all a.after_tasks;
}

unfoldable pub resolve_each : Map String → Map String → Application → Application
unfolding resolve_one
resolve_each all [] a = a
resolve_each all (v ∷ variables) a = resolve_each all variables (resolve_one all v a)

unfoldable pub resolve_variables : Variables → Application → Application
unfolding resolve_each all_variables
resolve_variables context a = resolve_each (all_variables context) (all_variables context) a

-- What the greedy `.*\}` of variableRegexp matches at the start of a text: up to the last brace of
-- the line.
unfoldable pub up_to_last_brace : String → Option String
up_to_last_brace String.[] = none
up_to_last_brace (String.◌∷◌ c cs) =
    let rest = up_to_last_brace cs in
    if eqb (code c) 10 then none else elim rest [
      | some matched ↦ some (String.◌∷◌ c matched)
      | none ↦ if eqb (code c) b'}' then some (String.◌∷◌ c String.[]) else none
    ]

-- The match of `\$\{.*\}` at the start of a text, given its first character and the others.
unfoldable pub match_here : String → Option String
unfolding up_to_last_brace
match_here String.[] = none
match_here (String.◌∷◌ c String.[]) = none
match_here (String.◌∷◌ c (String.◌∷◌ d cs)) =
    if eqb (code c) b'$' && eqb (code d) b'{'
    then elim (up_to_last_brace cs) [
      | none ↦ none
      | some matched ↦ some (String.◌∷◌ c (String.◌∷◌ d matched))
    ]
    else none

abbrev pub or_later : Option String → Option String → Option String
or_later (some matched) later = some matched
or_later none later = later

-- variableRegexp.FindString: the leftmost match. `none` is the empty text, which the expression
-- does not match.
unfoldable pub find_variable : String → Option String
unfolding match_here
find_variable String.[] = none
find_variable (String.◌∷◌ c cs) = or_later (match_here (String.◌∷◌ c cs)) (find_variable cs)

unfoldable pub ensure_string : String → Failure
unfolding find_variable
ensure_string value = elim (find_variable value) [
  | none ↦ none
  | some text ↦ some (unresolved_variable text)
]

abbrev pub first_failure : Failure → Failure → Failure
first_failure none later = later
first_failure (some e) later = some e

-- ensureVariablesResolved for the types of value that it looks at: texts, lists and maps of texts.
unfoldable pub ensure_strings : List String → Failure
unfolding ensure_string
ensure_strings [] = none
ensure_strings (value ∷ values) = first_failure (ensure_string value) (ensure_strings values)

unfoldable pub ensure_map : Map String → Failure
unfolding ensure_string
ensure_map [] = none
ensure_map ((key, value) ∷ m) = first_failure (ensure_string value) (ensure_map m)

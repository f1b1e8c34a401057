-- ===== src/Stack/Validate.antt =====
-- Stack.Validate.
use stack_deploy.Prelude.{String, Option, none, some, List, [], ◌∷◌}
use stack_deploy.Map.{Map}
use stack_deploy.Constraints.{Regexps}
use stack_deploy.Application.{Application, Error}
use stack_deploy.Application.Validate.{validate}
use stack_deploy.Stack.{Stack}

-- The first invalid application in the order of the loop, with its error.
pub first_invalid : Regexps → List String → Map Application → Option (String × Error)
first_invalid re runners [] = none
first_invalid re runners ((name, app) ∷ apps) =
    let rest = first_invalid re runners apps in
    elim (validate re runners app) [ none ↦ rest | some e ↦ some (name, e) ]

unfoldable pub validate_stack : Regexps → List String → Stack → Option (String × Error)
unfolding first_invalid
validate_stack re runners s = first_invalid re runners s.applications

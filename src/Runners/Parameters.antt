-- ===== src/Runners/Parameters.antt =====
-- What the runners make of a task's fields: the values of a request. A range over the fields sets
-- each value once, as the fields have one entry for a key.
use stack_deploy.Prelude.{String, Bool, not, List, [], ◌∷◌, elem, if◌then◌else◌}
use stack_deploy.Map.{Map, insert}

-- `values.Set(k, v)` for the fields whose key the switch lets through.
unfoldable pub set_values : (String → Bool) → Map String → Map String → Map String
unfolding insert
set_values wanted [] values = values
set_values wanted ((k, v) ∷ fields) values =
    set_values wanted fields (if wanted k then insert k v values else values)

unfoldable pub only : List String → Map String → Map String
unfolding set_values
only keys fields = set_values (λ k. elem k keys) fields []

unfoldable pub all_but : List String → Map String → Map String
unfolding set_values
all_but keys fields = set_values (λ k. not (elem k keys)) fields []

-- ===== src/StateStorage/Cassandra.antt =====
-- CassandraStateStorage of framework/state_storage.go over a parameter for the session.
use stack_deploy.Prelude.{String, Option, none, some, List, [], ◌∷◌, ◌==◌, if◌then◌else◌}
use stack_deploy.Map.{Map, insert}
use stack_deploy.Application.{ApplicationStatus}
use stack_deploy.Stack.{StackStatus}
use stack_deploy.Variables.{
  Variables, new_variables, set_stack_variable, set_arbitrary_variable, set_global_variable,
}
use stack_deploy.StateStorage.{StackState, new_stack_state}

-- `failed` is an error of the session, and `panicked` the panic on an unknown type of variable.
pub data Outcome {ℓ} (A : Type ℓ) : Type ℓ where
  ok : A → Outcome A
  failed panicked : Outcome A

infixl 5 ◌>>=◌
abbrev pub ◌>>=◌ {ℓ κ} : {A : Type ℓ} {B : Type κ} → Outcome A → (A → Outcome B) → Outcome B
ok a >>= f = f a
failed >>= f = failed
panicked >>= f = panicked

-- The INSERTs and SELECTs on the three tables, on a state `D` of the database; each has the stack and
-- the zone first. A row is `none` where RowData has an error for it.
pub record Session (D : Type 0) : Type 0 where
  pub insert_stack : String → String → StackStatus → D → Outcome D
  pub insert_application : String → String → String → ApplicationStatus → D → Outcome D
  pub insert_variable : String → String → String → String → String → D → Outcome D
  pub select_stack : String → String → D → Outcome StackStatus
  pub select_applications : String → String → D → List (Option (String × ApplicationStatus))
  pub select_variables : String → String → D → List (Option (String × String × String))

-- Each row of a SELECT in turn, until one has an error.
unfoldable pub read_applications :
    List (Option (String × ApplicationStatus))
    → Map ApplicationStatus
    → Outcome (Map ApplicationStatus)
unfolding insert
read_applications [] applications = ok applications
read_applications (none ∷ rows) applications = failed
read_applications (some (name, status) ∷ rows) applications =
    read_applications rows (insert name status applications)

unfoldable pub set_typed : String → String → String → Variables → Outcome Variables
set_typed key text type variables =
    if type == "global"
    then ok (set_global_variable key text variables)
    else if type == "arbitrary"
    then ok (set_arbitrary_variable key text variables)
    else if type == "stack"
    then ok (set_stack_variable key text variables)
    else panicked

unfoldable pub read_variables :
    List (Option (String × String × String)) → Variables → Outcome Variables
unfolding set_typed
read_variables [] variables = ok variables
read_variables (none ∷ rows) variables = failed
read_variables (some (key, text, type) ∷ rows) variables =
    set_typed key text type variables >>= read_variables rows

module _ {D : Type 0} (session : Session D) where
  unfoldable pub save_stack_status : String → String → StackStatus → D → Outcome D
  save_stack_status name zone status db = session.insert_stack name zone status db

  unfoldable pub save_application_status :
      String → String → String → ApplicationStatus → D → Outcome D
  save_application_status stack zone name status db =
      session.insert_application stack zone name status db

  -- The loop over one layer, whose type is `type`.
  unfoldable pub save_layer : String → String → String → Map String → D → Outcome D
  save_layer stack zone type [] db = ok db
  save_layer stack zone type ((key, text) ∷ variables) db =
      session.insert_variable stack zone key text type db >>= save_layer stack zone type variables

  unfoldable pub save_stack_variables : String → String → Variables → D → Outcome D
  unfolding save_layer
  save_stack_variables stack zone v db =
      save_layer stack zone "global" v.global_variables db
      >>= save_layer stack zone "arbitrary" v.arbitrary_variables
      >>= save_layer stack zone "stack" v.stack_variables

  unfoldable pub get_stack_state : String → String → D → Outcome StackState
  unfolding read_applications read_variables
  get_stack_state name zone db = session.select_stack name zone db >>= λ status.
      read_applications (session.select_applications name zone db) [] >>= λ applications.
      read_variables (session.select_variables name zone db) new_variables >>= λ variables.
      ok (record (new_stack_state name zone status) {
        applications = applications;
        variables = some variables;
      })

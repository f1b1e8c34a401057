-- ===== src/Runners/Results.antt =====
-- What the answers of a scheduler hold, and what reading them gives. A value of Go's interface{}
-- that JSON gives is a `Json`.
use stack_deploy.Prelude.{ℕ, String, Bool, Option, none, some, ◌==◌, if◌then◌else◌}
use stack_deploy.Prelude.Float.{Float64}

mutual
  pub data Json : Type 0 where
    null : Json
    boolean : Bool → Json
    number : Float64 → Json
    text : String → Json
    array : Values → Json
    object : Entries → Json

  pub data Values : Type 0 where
    no_values : Values
    value : Json → Values → Values

  pub data Entries : Type 0 where
    no_entries : Entries
    entry : String → Json → Entries → Entries

-- The errors of the runners. `malformed` is an error of a library that reads a text.
pub data Error : Type 0 where
  no_answer unreadable malformed : Error
  bad_status : ℕ → Error
  reported : String → Error
  unknown_reason invalid_response invalid_success : Error
  wrong_field : String → Error
  missing_id : Error
  missing_type : String → Error
  timed_out not_supported not_running : Error

pub data Result (A : Type 0) : Type 0 where
  ok : A → Result A
  err : Error → Result A
  panic : Result A

infixl 5 ◌>>=◌ ◌>>◌
abbrev pub ◌>>=◌ : {A B : Type 0} → Result A → (A → Result B) → Result B
ok a >>= f = f a
err e >>= f = err e
panic >>= f = panic

abbrev pub ◌>>◌ : {A B : Type 0} → Result A → Result B → Result B
m >> k = m >>= λ _. k

-- `entries[key]`; a Go map has one entry for a key.
unfoldable pub field : String → Entries → Option Json
field key no_entries = none
field key (entry k j entries) = if k == key then some j else field key entries

-- The type assertions `.(string)`, `.([]interface{})` and `.(map[string]interface{})` with their
-- `ok`.
abbrev pub as_text : Option Json → Option String
as_text (some (text s)) = some s
as_text _ = none

abbrev pub as_array : Option Json → Option Values
as_array (some (array values)) = some values
as_array _ = none

abbrev pub as_object : Option Json → Option Entries
as_object (some (object entries)) = some entries
as_object _ = none

abbrev pub or_error : {A : Type 0} → Error → Option A → Result A
or_error e none = err e
or_error e (some a) = ok a

abbrev pub or_panic : {A : Type 0} → Option A → Result A
or_panic none = panic
or_panic (some a) = ok a

-- `value, ok := entries[key].(…)`, with the error of a field that is not so.
unfoldable pub text_field : String → Entries → Result String
unfolding field
text_field key entries = or_error (wrong_field key) (as_text (field key entries))

unfoldable pub array_field : String → Entries → Result Values
unfolding field
array_field key entries = or_error (wrong_field key) (as_array (field key entries))

unfoldable pub object_field : String → Entries → Result Entries
unfolding field
object_field key entries = or_error (wrong_field key) (as_object (field key entries))

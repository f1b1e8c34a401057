-- ===== src/StateStorage/Ledger.antt =====
-- A ledger is what a state storage promises: at most one state for a stack in a zone, which the
-- calls about that stack and zone alone decide. InMemoryStateStorage implements it.
use stack_deploy.Prelude.{
  String, ◌≡◌, refl, sym, ap, ◌∙◌, ◌&&◌, Option, none, some, List, [], ◌∷◌, ◌==◌, if◌then◌else◌,
  String-cases, inl, inr,
}
use stack_deploy.Map.{lookup, insert}
use stack_deploy.Application.{ApplicationStatus}
use stack_deploy.Stack.{StackStatus}
use stack_deploy.Variables.{Variables}
use stack_deploy.StateStorage.{
  StackState, States, Error, Result, ok, err, stack_state_exists, stack_state_does_not_exist,
  new_stack_state, zones_of, found, set_application, set_variables, save_stack_status,
  save_application_status, save_stack_variables, get_stack_state, update,
}
use stack_deploy.StateStorage.Kept.{find, found_in-found, get_stack_state-found, find-insert}

-- What a call changes, and where.
pub data Change : Type 0 where
  stack_status : StackStatus → Change
  application_status : String → ApplicationStatus → Change
  stack_variables : Variables → Change

pub record Call : Type 0 where
  pub stack : String
  pub zone : String
  pub change : Change

abbrev call_with : String → String → Change → States → Result States
call_with stack zone (stack_status status) states = save_stack_status stack zone status states
call_with stack zone (application_status name status) states =
    save_application_status stack zone name status states
call_with stack zone (stack_variables variables) states =
    save_stack_variables stack zone variables states

-- A call that fails leaves the storage as it was.
abbrev kept : States → Result States → States
kept states (ok next) = next
kept states (err e) = states

abbrev failure : Result States → Option Error
failure (ok next) = none
failure (err e) = some e

abbrev pub after_call : Call → States → States
after_call call states = kept states (call_with call.stack call.zone call.change states)

pub after_calls : List Call → States → States
after_calls [] states = states
after_calls (call ∷ calls) states = after_calls calls (after_call call states)

pub failures : List Call → States → List (Option Error)
failures [] states = []
failures (call ∷ calls) states =
    failure (call_with call.stack call.zone call.change states)
    ∷ failures calls (after_call call states)

abbrev pub Ledger : Type 0
Ledger = String → String → Option StackState

-- The first status makes the state, later calls change it, and no call before the first status
-- does anything.
abbrev written : String → String → Change → Option StackState → Option StackState
written stack zone (stack_status status) none = some (new_stack_state stack zone status)
written stack zone (application_status name status) none = none
written stack zone (stack_variables variables) none = none
written stack zone (stack_status status) (some state) = some state
written stack zone (application_status name status) (some state) =
    some (set_application name status state)
written stack zone (stack_variables variables) (some state) = some (set_variables variables state)

abbrev refusal : Change → Option StackState → Option Error
refusal (stack_status status) none = none
refusal (application_status name status) none = some stack_state_does_not_exist
refusal (stack_variables variables) none = some stack_state_does_not_exist
refusal (stack_status status) (some state) = some stack_state_exists
refusal (application_status name status) (some state) = none
refusal (stack_variables variables) (some state) = none

abbrev pub write : Call → Ledger → Ledger
write call ledger j z =
    if (call.stack == j) && (call.zone == z)
    then written call.stack call.zone call.change (ledger call.stack call.zone)
    else ledger j z

pub write_all : List Call → Ledger → Ledger
write_all [] ledger = ledger
write_all (call ∷ calls) ledger = write_all calls (write call ledger)

pub refusals : List Call → Ledger → List (Option Error)
refusals [] ledger = []
refusals (call ∷ calls) ledger =
    refusal call.change (ledger call.stack call.zone) ∷ refusals calls (write call ledger)

-- A reader cannot tell the storage from the ledger.
abbrev pub Implements : States → Ledger → Type 0
Implements states ledger = (j z : String) → get_stack_state j z states ≡ found (ledger j z)

found-injective : (o p : Option StackState) → found o ≡ found p → o ≡ p
found-injective none none h = refl
found-injective (some a) (some b) h = cc
found-injective none (some b) h = cc
found-injective (some a) none h = cc

Implements-find :
    (states : States) (ledger : Ledger)
    → Implements states ledger
    → (j z : String) → find j z states ≡ ledger j z
Implements-find states ledger h j z =
    found-injective (find j z states) (ledger j z) (sym (get_stack_state-found j z states) ∙ h j z)

-- The place of a call, and the others.
find-here :
    (stack zone : String) (states : States) (o : Option StackState)
    → find stack zone states ≡ o
    → (j z : String)
    → find j z states ≡ (if (stack == j) && (zone == z) then o else find j z states)
find-here stack zone states o h j z = elim (String-cases stack j) [
  | inr (other, miss) ↦ rw miss refl
  | inl (same, hit) ↦ elim (String-cases zone z) [
    | inr (different, none_here) ↦ rw (hit, none_here) refl
    | inl (zones, here) ↦
        rw (hit, here)
          (ap (λ x. find x z states) (sym same) ∙ ap (λ x. find stack x states) (sym zones) ∙ h)
  ]
]

-- What a call makes of the storage, by what stands in its place.
abbrev Writes : String → String → Change → States → Option StackState → Result States → Type 0
Writes stack zone change states o result =
    (failure result ≡ refusal change o)
    × ((j z : String)
        → find j z (kept states result)
          ≡ (if (stack == j) && (zone == z) then written stack zone change o else find j z states))

update-Writes :
    (stack zone : String) (change : StackState → StackState) (states : States) (state : StackState)
    → find stack zone states ≡ some state
    → update stack zone change states
      ≡ ok (insert stack (insert zone (change state) (zones_of stack states)) states)
unfolding update
update-Writes stack zone change states state h =
    rw (found_in-found zone (lookup stack states), h) refl

update-missing :
    (stack zone : String) (change : StackState → StackState) (states : States)
    → find stack zone states ≡ none
    → update stack zone change states ≡ err stack_state_does_not_exist
unfolding update
update-missing stack zone change states h = rw (found_in-found zone (lookup stack states), h) refl

call_with-Writes :
    (stack zone : String) (change : Change) (states : States) (o : Option StackState)
    → find stack zone states ≡ o
    → Writes stack zone change states o (call_with stack zone change states)
unfolding save_stack_status save_application_status save_stack_variables
call_with-Writes stack zone (stack_status status) states none h =
    rw h (refl, λ j z. find-insert stack zone j z (new_stack_state stack zone status) states)
call_with-Writes stack zone (stack_status status) states (some state) h =
    rw h (refl, find-here stack zone states (some state) h)
call_with-Writes stack zone (application_status name status) states none h =
    rw (update-missing stack zone (set_application name status) states h)
      (refl, find-here stack zone states none h)
call_with-Writes stack zone (stack_variables variables) states none h =
    rw (update-missing stack zone (set_variables variables) states h)
      (refl, find-here stack zone states none h)
call_with-Writes stack zone (application_status name status) states (some state) h =
    rw (update-Writes stack zone (set_application name status) states state h)
      (refl, λ j z. find-insert stack zone j z (set_application name status state) states)
call_with-Writes stack zone (stack_variables variables) states (some state) h =
    rw (update-Writes stack zone (set_variables variables) states state h)
      (refl, λ j z. find-insert stack zone j z (set_variables variables state) states)

after_call-Implements :
    (call : Call) (states : States) (ledger : Ledger)
    → Implements states ledger
    → Implements (after_call call states) (write call ledger)
after_call-Implements call states ledger h j z =
    let here = Implements-find states ledger h in
    let writes =
      call_with-Writes call.stack call.zone call.change states (ledger call.stack call.zone)
        (here call.stack call.zone) in
    get_stack_state-found j z (after_call call states)
    ∙ ap found (writes.1 j z ∙ rw (here j z) refl)

-- Calls of a state storage, in any order, fail and leave states as the same calls of a ledger,
-- which has at most one state for a stack in a zone: the first status makes it, later statuses are
-- refused, and every other call changes it where it is there and is refused where it is not. The
-- storage implemented the ledger before.
pub after_calls-Implements :
    (calls : List Call) (states : States) (ledger : Ledger)
    → Implements states ledger
    → Implements (after_calls calls states) (write_all calls ledger)
      × (failures calls states ≡ refusals calls ledger)
unfolding after_calls write_all refusals failures
after_calls-Implements [] states ledger h = (h, refl)
after_calls-Implements (call ∷ calls) states ledger h =
    let rest =
      after_calls-Implements calls (after_call call states) (write call ledger)
        (after_call-Implements call states ledger h) in
    let writes =
      call_with-Writes call.stack call.zone call.change states (ledger call.stack call.zone)
        (Implements-find states ledger h call.stack call.zone) in
    (rest.0, cc)

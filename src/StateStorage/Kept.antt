-- ===== src/StateStorage/Kept.antt =====
-- What a state storage keeps: each operation changes the state of one stack in one zone, and no
-- other.
use stack_deploy.Prelude.{
  String, ◌≡◌, refl, Bool, true, false, ◌&&◌, Option, none, some, ◌==◌, if◌then◌else◌, Bool-cases,
  String-cases, inl, inr, sym, ap, ◌∙◌,
}
use stack_deploy.Map.{Map, lookup, insert, lookup-insert}
use stack_deploy.Stack.{StackStatus}
use stack_deploy.StateStorage.{
  StackState, States, Result, ok, err, stack_state_does_not_exist, new_stack_state, zones_of,
  or_no_zones, found, found_in, then_put, unless_there, save_stack_status, get_stack_state,
}

-- The lookup that get_stack_state reports.
abbrev pub find : String → String → States → Option StackState
find stack zone states = lookup zone (zones_of stack states)

pub found_in-found :
    (zone : String) (o : Option (Map StackState))
    → found_in zone o ≡ found (lookup zone (or_no_zones o))
unfolding lookup
found_in-found zone none = refl
found_in-found zone (some zones) = refl

pub get_stack_state-found :
    (stack zone : String) (states : States)
    → get_stack_state stack zone states ≡ found (find stack zone states)
unfolding get_stack_state
get_stack_state-found stack zone states = found_in-found zone (lookup stack states)

found_if :
    (b : Bool) (state : StackState) (o : Option StackState)
    → found (if b then some state else o) ≡ (if b then ok state else found o)
found_if true state o = refl
found_if false state o = refl

zones_of-insert :
    (stack j : String) (zones : Map StackState) (states : States)
    → zones_of j (insert stack zones states) ≡ (if stack == j then zones else zones_of j states)
zones_of-insert stack j zones states = elim (Bool-cases (stack == j)) [
  | inl same ↦ rw (lookup-insert stack j zones states, same)
  | inr other ↦ rw (lookup-insert stack j zones states, other)
]

-- A state set at one place.
pub find-insert :
    (stack zone j z : String) (state : StackState) (states : States)
    → find j z (insert stack (insert zone state (zones_of stack states)) states)
      ≡ (if (stack == j) && (zone == z) then some state else find j z states)
find-insert stack zone j z state states =
    let zones = zones_of stack states in
    elim (String-cases stack j) [
      | inl (same, hit) ↦
          rw (zones_of-insert stack j (insert zone state zones) states, hit)
            (rw (lookup-insert zone z state zones, same))
      | inr (other, miss) ↦ rw (zones_of-insert stack j (insert zone state zones) states, miss)
    ]

-- What get_stack_state gives after a state is set.
get_stack_state-insert :
    (stack zone j z : String) (state : StackState) (states : States)
    → get_stack_state j z (insert stack (insert zone state (zones_of stack states)) states)
      ≡ (if (stack == j) && (zone == z) then ok state else get_stack_state j z states)
get_stack_state-insert stack zone j z state states =
    rw
      (
        get_stack_state-found j z (insert stack (insert zone state (zones_of stack states)) states),
        find-insert stack zone j z state states,
        get_stack_state-found j z states,
      )
      (found_if ((stack == j) && (zone == z)) state (find j z states))

unless_there-ok :
    (o : Option StackState) (next after : States)
    → unless_there o next ≡ ok after
    → (o ≡ none) × (next ≡ after)
unless_there-ok none next after h = (refl, cc)
unless_there-ok (some state) next after h = cc

then_put-ok :
    (r : Result StackState) (put : StackState → States) (after : States)
    → then_put r put ≡ ok after
    → (state : StackState) × ((r ≡ ok state) × (put state ≡ after))
then_put-ok (ok state) put after h = (state, (refl, cc))
then_put-ok (err e) put after h = cc

-- A status that is saved found no state of the stack in the zone, where there is now a new state
-- with that status; every other stack and zone has what it had.
pub save_stack_status_lem :
    (name zone : String) (status : StackStatus) (states next : States)
    → save_stack_status name zone status states ≡ ok next
    → (get_stack_state name zone states ≡ err stack_state_does_not_exist)
      × ((j z : String)
          → get_stack_state j z next ≡ (
              if (name == j) && (zone == z)
              then ok (new_stack_state name zone status)
              else get_stack_state j z states))
unfolding save_stack_status
save_stack_status_lem name zone status states next h =
    let parts = unless_there-ok (find name zone states) _ next h in
    (
      get_stack_state-found name zone states ∙ ap found parts.0,
      λ j z.
          ap (get_stack_state j z) (sym parts.1)
          ∙ (get_stack_state-insert name zone j z (new_stack_state name zone status) states),
    )

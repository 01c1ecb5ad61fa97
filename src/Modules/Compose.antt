-- ===== src/Modules/Compose.antt =====
-- The states of a composition in `BuiltInModuleRegistry.compose`: the selected modules are enabled
-- unless the caller disabled or degraded them, and a module whose dependency is not enabled is
-- degraded. `selected` is `sorted(selected)`, and `requires` the identifiers that a module requires;
-- the texts of reasons are left out.
use memoriesql.Prelude.{
  ℕ, zero, suc, String, string_eq, ◌==◌, Bool, true, false, not, ◌&&◌, ◌||◌, Option, none, some,
  List, [], ◌∷◌, if◌then◌else◌, length,
}

pub data ModuleState : Type 0 where
  enabled disabled degraded incompatible : ModuleState

-- The dictionary of states: `states.get(module_id)`.
abbrev pub States : Type 0
States = String → Option ModuleState

abbrev pub is_enabled : Option ModuleState → Bool
is_enabled (some enabled) = true
is_enabled _ = false

-- module_id in identifiers
unfoldable pub contains : List String → String → Bool
contains [] module_id = false
contains (candidate ∷ identifiers) module_id =
    candidate == module_id || contains identifiers module_id

unfoldable pub initial_state : List String → List String → String → ModuleState
initial_state disabled_ids degraded_ids module_id =
    if contains disabled_ids module_id
    then disabled
    else if contains degraded_ids module_id
    then degraded
    else enabled

unfoldable pub initial_states : List String → List String → List String → States
unfolding contains initial_state
initial_states selected disabled_ids degraded_ids module_id =
    if contains selected module_id
    then some (initial_state disabled_ids degraded_ids module_id)
    else none

-- No dependency is unavailable: each one's state is enabled.
unfoldable pub all_enabled : States → List String → Bool
all_enabled states [] = true
all_enabled states (dependency ∷ dependencies) =
    is_enabled (states dependency) && all_enabled states dependencies

-- states[module_id] = state
unfoldable pub assign : States → String → ModuleState → States
assign states module_id state candidate =
    if candidate == module_id then some state else states candidate

module _ (requires : String → List String) where
  -- The body of the `for` loop, on the states and the flag `changed`.
  unfoldable pub visit : String → States × Bool → States × Bool
  unfolding all_enabled assign
  visit module_id (states, changed) =
      if is_enabled (states module_id) && not (all_enabled states (requires module_id))
      then (assign states module_id degraded, true)
      else (states, changed)

  unfoldable pub visit_each : List String → States × Bool → States × Bool
  unfolding visit
  visit_each [] now = now
  visit_each (module_id ∷ rest) now = visit_each rest (visit module_id now)

  -- The `while` loop on fuel; none if the fuel does not suffice.
  unfoldable pub settle : ℕ → List String → States → Option States
  unfolding visit_each
  settle zero selected states = none
  settle (suc fuel) selected states =
      let now = visit_each selected (states, false) in
      let again = settle fuel selected now.0 in if now.1 then again else some now.0

-- A round that changes a state degrades an enabled module, so one round more than there are selected
-- modules is enough.
unfoldable pub compose_states :
    (String → List String) → List String → List String → List String → Option States
unfolding initial_states settle
compose_states requires selected disabled_ids degraded_ids =
    settle requires (suc (length selected)) selected
      (initial_states selected disabled_ids degraded_ids)

-- `overall_state`, over the selected modules.
unfoldable pub overall_state : List String → States → ModuleState
unfolding all_enabled
overall_state selected states = if all_enabled states selected then enabled else degraded

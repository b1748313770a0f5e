-- ===== src/Detector/Detection.antt =====
-- custom_components/unifi_network_rules/unified_change_detector.py: `_detect_changes` and
-- `detect_and_fire_changes`, over snapshots from rule types to the states of their entities.
use unifi_network_rules.Prelude.{
  ℕ, ◌+◌, String, Bool, true, false, not, Option, none, some, List, [], ◌∷◌, ◌++◌, if◌then◌else◌,
}
use unifi_network_rules.Dict.{Dict, has, get}
use unifi_network_rules.Value.{Value}
use unifi_network_rules.Detector.{
  EntityState, ChangeAction, created, deleted, enabled, disabled, modified, determine_change_action,
}
use unifi_network_rules.Detector.Creation.{ChangeEvent, create_change_event}

abbrev pub Entities : Type 0
Entities = Dict EntityState

abbrev pub Snapshot : Type 0
Snapshot = Dict Entities

-- `checked` are the rules for which `check_and_consume_ha_initiated_operation` is called.
pub record Detected : Type 0 where
  pub changes : List ChangeEvent
  pub suppressed : ℕ
  pub checked : List Value

abbrev pub nothing : Detected
nothing = record { changes = []; suppressed = 0; checked = [] }

abbrev pub both : Detected → Detected → Detected
both a b = record {
  changes = a.changes ++ b.changes;
  suppressed = a.suppressed + b.suppressed;
  checked = a.checked ++ b.checked;
}

abbrev is_toggle : ChangeAction → Bool
is_toggle enabled = true
is_toggle disabled = true
is_toggle created = false
is_toggle deleted = false
is_toggle modified = false

-- `if change: changes.append(change)`, and the check that follows an `enabled` or a `disabled`.
abbrev pub found : Option ChangeEvent → Detected
found none = nothing
found (some change) = record {
  changes = change ∷ [];
  suppressed = 0;
  checked = if is_toggle change.change_action then change.rule_id ∷ [] else [];
}

-- A change that an action was determined for.
abbrev pub found_action :
    String → String → EntityState → EntityState → Option ChangeAction → Detected
found_action rule_type entity_id previous current none = nothing
found_action rule_type entity_id previous current (some action) =
    found (create_change_event entity_id rule_type (some previous) (some current) action)

-- One entity of the current snapshot, by the state that it had before.
abbrev pub detect_entity : Bool → String → String → EntityState → Option EntityState → Detected
detect_entity initial_update_done rule_type entity_id current none =
    if not initial_update_done
    then record { changes = []; suppressed = 1; checked = [] }
    else found (create_change_event entity_id rule_type none (some current) created)
detect_entity initial_update_done rule_type entity_id current (some previous) =
    found_action rule_type entity_id previous current (determine_change_action previous current)

unfoldable pub detect_entities : Bool → String → Entities → Entities → Detected
detect_entities initial_update_done rule_type previous [] = nothing
detect_entities initial_update_done rule_type previous ((entity_id, current) ∷ rest) =
    both (detect_entity initial_update_done rule_type entity_id current (get entity_id previous))
      (detect_entities initial_update_done rule_type previous rest)

abbrev pub entities_of : Option Entities → Entities
entities_of none = []
entities_of (some entities) = entities

unfoldable pub detect_types : Bool → Snapshot → Snapshot → Detected
detect_types initial_update_done previous [] = nothing
detect_types initial_update_done previous ((rule_type, entities) ∷ rest) =
    both
      (detect_entities initial_update_done rule_type (entities_of (get rule_type previous))
        entities)
      (detect_types initial_update_done previous rest)

-- The second loop, over what was there before.
unfoldable pub deleted_entities : String → Entities → Entities → Detected
deleted_entities rule_type current [] = nothing
deleted_entities rule_type current ((entity_id, previous) ∷ rest) =
    both
      (if not (has entity_id current)
        then found (create_change_event entity_id rule_type (some previous) none deleted)
        else nothing)
      (deleted_entities rule_type current rest)

unfoldable pub deleted_types : Snapshot → Snapshot → Detected
deleted_types current [] = nothing
deleted_types current ((rule_type, entities) ∷ rest) =
    both (deleted_entities rule_type (entities_of (get rule_type current)) entities)
      (deleted_types current rest)

unfoldable pub detect_changes : Bool → Snapshot → Snapshot → Detected
unfolding detect_types detect_entities deleted_types deleted_entities
detect_changes initial_update_done previous current =
    both (detect_types initial_update_done previous current) (deleted_types current previous)

-- The detector remembers the last snapshot; `fired` are the events of all triggers up to now.
pub record Detector : Type 0 where
  pub previous_state : Snapshot
  pub fired : List ChangeEvent

unfoldable pub detect_and_fire_changes : Bool → Snapshot → Detector → Detector × Detected
detect_and_fire_changes initial_update_done current_state d =
    let r = detect_changes initial_update_done d.previous_state current_state in
    (record { previous_state = current_state; fired = d.fired ++ r.changes }, r)

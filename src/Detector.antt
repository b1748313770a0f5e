-- ===== src/Detector.antt =====
-- custom_components/unifi_network_rules/unified_change_detector.py: what a difference between two
-- states of an entity means. The states are dictionaries, as
-- `_build_state_snapshot` returns them.
pub mod Creation
pub mod Detection
pub mod Snapshot
pub mod Keys
pub mod Endings
pub mod KillSwitch
pub mod Actions
pub mod Events
pub mod Members
pub mod Ids
mod Tests
use text.Mathlib.Text.{◌==◌}
use unifi_network_rules.Prelude.{
  ℕ, String, Bool, true, false, not, ◌&&◌, ◌||◌, Option, none, some, List, [], ◌∷◌, any,
  if◌then◌else◌,
}
use unifi_network_rules.Text.{Text, codes, starts_with}
use unifi_network_rules.Dict.{Dict, has, get}
use unifi_network_rules.Value.{Value, null, bool, num, negative, str, arr, obj, py_eq, truthy}

abbrev pub EntityState : Type 0
EntityState = Dict Value

pub data ChangeAction : Type 0 where
  created deleted enabled disabled modified : ChangeAction

abbrev or_value : Value → Option Value → Value
or_value default none = default
or_value default (some v) = v

-- `state.get(key, default)`; `get_null` is `state.get(key)`.
unfoldable pub get_or : String → Value → EntityState → Value
get_or key default state = or_value default (get key state)

unfoldable pub get_null : String → EntityState → Value
unfolding get_or
get_null key state = get_or key null state

-- `a or b`
abbrev pub or_else : Value → Value → Value
or_else a b = if truthy a then a else b

-- `s.endswith(p)`
unfoldable pub ends_with : Text → Text → Bool
unfolding starts_with
ends_with p [] = starts_with p []
ends_with p (c ∷ s) = (starts_with p (c ∷ s) && starts_with (c ∷ s) p) || ends_with p s

-- `isinstance(v, str) and v.endswith("_kill_switch")`
unfoldable pub is_kill_switch : Value → Bool
is_kill_switch (str s) = ends_with (codes "_kill_switch") (codes s)
is_kill_switch v = false

unfoldable pub determine_led_change_action : EntityState → EntityState → Option ChangeAction
determine_led_change_action old_state new_state =
    let old_led = get_null "led_override" old_state in
    let new_led = get_null "led_override" new_state in
    if py_eq old_led new_led
    then none
    else if py_eq new_led (str "on")
    then some enabled
    else if py_eq new_led (str "off")
    then some disabled
    else some modified

unfoldable pub determine_kill_switch_change_action : EntityState → EntityState → Option ChangeAction
determine_kill_switch_change_action old_state new_state =
    let old_kill_switch = get_null "kill_switch_enabled" old_state in
    let new_kill_switch = get_null "kill_switch_enabled" new_state in
    if py_eq old_kill_switch new_kill_switch
    then none
    else if truthy new_kill_switch
    then some enabled
    else some disabled

abbrev pub significant_fields : List String
significant_fields =
    "name" ∷ "description" ∷ "action" ∷ "protocol" ∷ "port" ∷ "dst_port" ∷ "fwd_port" ∷ "gateway"
    ∷ "next_hop" ∷ "ssid" ∷ "bandwidth_limit" ∷ "rate_limit" ∷ []

unfoldable pub field_differs : EntityState → EntityState → String → Bool
field_differs old_state new_state key =
    not (py_eq (get_null key old_state) (get_null key new_state))

abbrev or_action : Option ChangeAction → Option ChangeAction → Option ChangeAction
or_action none b = b
or_action (some a) b = some a

unfoldable pub is_kill_switch_child : EntityState → EntityState → Bool
is_kill_switch_child old_state new_state =
    is_kill_switch (or_else (get_null "_id" new_state) (get_or "_id" (str "") old_state))

unfoldable pub determine_change_action : EntityState → EntityState → Option ChangeAction
determine_change_action old_state new_state =
    let old_enabled = get_or "enabled" (bool false) old_state in
    let new_enabled = get_or "enabled" (bool false) new_state in
    if not (py_eq old_enabled new_enabled)
    then some (if truthy new_enabled then enabled else disabled)
    else or_action (determine_led_change_action old_state new_state) (
        or_action
          (if is_kill_switch_child old_state new_state
            then determine_kill_switch_change_action old_state new_state
            else none)
          (if any (field_differs old_state new_state) significant_fields
            then some modified
            else none))

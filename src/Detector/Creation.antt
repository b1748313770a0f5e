-- ===== src/Detector/Creation.antt =====
-- custom_components/unifi_network_rules/unified_change_detector.py: `_create_change_event` and
-- `_get_entity_name`, the event that is made of a change.
use text.Mathlib.Text.{◌==◌}
use unifi_network_rules.Prelude.{
  String, Bool, true, false, ◌&&◌, ◌||◌, Option, none, some, List, [], ◌∷◌, if◌then◌else◌,
}
use unifi_network_rules.Dict.{Dict, get}
use unifi_network_rules.Value.{Value, str, arr, truthy}
use unifi_network_rules.Detector.{
  EntityState, ChangeAction, get_or, get_null, or_else, is_kill_switch,
}

-- `self._rule_type_mapping`
abbrev pub rule_type_mapping : Dict String
rule_type_mapping =
    ("port_forwards", "port_forward")
    ∷ ("traffic_routes", "traffic_route")
    ∷ ("firewall_policies", "firewall_policy")
    ∷ ("traffic_rules", "traffic_rule")
    ∷ ("legacy_firewall_rules", "firewall_policy")
    ∷ ("firewall_zones", "firewall_zone")
    ∷ ("wlans", "wlan")
    ∷ ("qos_rules", "qos_rule")
    ∷ ("vpn_clients", "vpn_client")
    ∷ ("vpn_servers", "vpn_server")
    ∷ ("devices", "device")
    ∷ ("port_profiles", "port_profile")
    ∷ ("networks", "network")
    ∷ ("static_routes", "route")
    ∷ ("nat_rules", "nat")
    ∷ ("oon_policies", "oon_policy")
    ∷ []

abbrev or_key : String → Option String → String
or_key key none = key
or_key key (some v) = v

unfoldable pub change_type_of : String → String
unfolding get
change_type_of rule_type = or_key rule_type (get rule_type rule_type_mapping)

-- The text of the unique id is `unr_device_<id>_led`, the id itself, or `unr_<type>_<id>`.
pub data UniqueId : Type 0 where
  device_led : Value → UniqueId
  verbatim : Value → UniqueId
  prefixed : String → Value → UniqueId

-- The form of an entity's name, with what is put into it: a field of the state, a template of the
-- rule type, or the generic name.
pub data EntityName : Type 0 where
  unknown : String → Value → EntityName
  given : Value → EntityName
  port_forward_to : Value → Value → EntityName
  port_forward : Value → EntityName
  firewall : String → Value → EntityName
  qos_bandwidth qos_rate : Value → Value → EntityName
  wlan : Value → EntityName
  kill_switch_of : Option Value → Value → EntityName
  generic : String → Value → EntityName

-- `rule_id[:8]` and `rule_id.endswith(…)`, which raise on other values.
abbrev can_slice : Value → Bool
can_slice (str s) = true
can_slice (arr xs) = true
can_slice v = false

abbrev is_text : Value → Bool
is_text (str s) = true
is_text v = false

abbrev named : Bool → EntityName → Option EntityName
named true n = some n
named false n = none

unfoldable pub generic_name : String → Value → Option EntityName
generic_name rule_type rule_id = named (can_slice rule_id) (generic rule_type rule_id)

-- `state.get("action", "").upper()`, and the name if the action is not empty.
abbrev action_name : String → Value → Value → Option EntityName
action_name rule_type rule_id (str action) =
    if action == ""
    then generic_name rule_type rule_id
    else named (can_slice rule_id) (firewall action rule_id)
action_name rule_type rule_id v = none

abbrev qos_name : String → Value → Option Value → Option Value → Option EntityName
qos_name rule_type rule_id (some limit) r = named (can_slice rule_id) (qos_bandwidth rule_id limit)
qos_name rule_type rule_id none (some limit) = named (can_slice rule_id) (qos_rate rule_id limit)
qos_name rule_type rule_id none none = generic_name rule_type rule_id

-- The part of `_get_entity_name` that follows the common name fields, which are all empty; so the
-- names of devices and of traffic routes are empty there too. `none` is an exception.
unfoldable pub name_by_type : String → EntityState → Value → Option EntityName
unfolding generic_name
name_by_type rule_type state rule_id =
    if rule_type == "port_forwards"
    then (let dst_port = get_or "dst_port" (str "") state in
        let fwd_port = get_or "fwd_port" (str "") state in
        if truthy dst_port && truthy fwd_port
        then some (port_forward_to dst_port fwd_port)
        else if truthy dst_port
        then some (port_forward dst_port)
        else generic_name rule_type rule_id)
    else if rule_type == "firewall_policies"
    then action_name rule_type rule_id (get_or "action" (str "") state)
    else if rule_type == "qos_rules"
    then qos_name rule_type rule_id (get "bandwidth_limit" state) (get "rate_limit" state)
    else if rule_type == "wlans"
    then (let ssid = get_or "ssid" (str "") state in
        if truthy ssid then some (wlan ssid) else generic_name rule_type rule_id)
    else if rule_type == "traffic_routes"
    then (if is_kill_switch rule_id
        then some (kill_switch_of (get "parent_name" state) rule_id)
        else if is_text rule_id
        then generic_name rule_type rule_id
        else none)
    else generic_name rule_type rule_id

unfoldable pub first_name : List String → EntityState → Option EntityName
first_name [] state = none
first_name (key ∷ keys) state =
    let v = get_null key state in
    let rest = first_name keys state in if truthy v then some (given v) else rest

abbrev or_name : Option EntityName → Option EntityName → Option EntityName
or_name none n = n
or_name (some n) m = some n

-- `new_state or old_state`, where `None` and the empty dictionary are alike.
abbrev pub state_of : Option EntityState → Option EntityState → EntityState
state_of (some (e ∷ state)) old_state = e ∷ state
state_of (some []) (some state) = state
state_of (some []) none = []
state_of none (some state) = state
state_of none none = []

abbrev pub name_fields : List String
name_fields = "name" ∷ "description" ∷ "label" ∷ "title" ∷ []

abbrev name_of : String → EntityState → Value → Option EntityName
name_of rule_type [] rule_id = named (can_slice rule_id) (unknown rule_type rule_id)
name_of rule_type (e ∷ state) rule_id =
    or_name (first_name name_fields (e ∷ state)) (name_by_type rule_type (e ∷ state) rule_id)

unfoldable pub get_entity_name :
    String → Option EntityState → Option EntityState → Value → Option EntityName
get_entity_name rule_type old_state new_state rule_id =
    name_of rule_type (state_of new_state old_state) rule_id

pub record ChangeEvent : Type 0 where
  pub unique_id : UniqueId
  pub rule_id : Value
  pub change_type : String
  pub change_action : ChangeAction
  pub entity_name : EntityName
  pub old_state : Option EntityState
  pub new_state : Option EntityState

-- The id in the state, or the key that the snapshot has for it.
unfoldable pub rule_id_of : String → EntityState → Value
rule_id_of entity_id state =
    or_else (get_null "_id" state) (or_else (get_null "id" state) (str entity_id))

unfoldable pub unique_id_of : String → Value → Option UniqueId
unique_id_of rule_type rule_id =
    if rule_type == "devices"
    then some (device_led rule_id)
    else if rule_type == "traffic_routes" || rule_type == "oon_policies"
    then (if is_kill_switch rule_id
        then some (verbatim rule_id)
        else if is_text rule_id
        then some (prefixed (change_type_of rule_type) rule_id)
        else none)
    else some (prefixed (change_type_of rule_type) rule_id)

-- `none` where an exception is caught and logged.
unfoldable pub create_change_event :
    String → String → Option EntityState → Option EntityState → ChangeAction → Option ChangeEvent
create_change_event entity_id rule_type old_state new_state change_action =
    let rule_id = rule_id_of entity_id (state_of new_state old_state) in
    elim (get_entity_name rule_type old_state new_state rule_id) [
      | none ↦ none
      | some name ↦ elim (unique_id_of rule_type rule_id) [
        | none ↦ none
        | some unique_id ↦ some (record {
          unique_id = unique_id;
          rule_id = rule_id;
          change_type = change_type_of rule_type;
          change_action = change_action;
          entity_name = name;
          old_state = old_state;
          new_state = new_state;
        })
      ]
    ]

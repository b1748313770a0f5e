-- ===== src/KillSwitch.antt =====
-- custom_components/unifi_network_rules/switches/traffic_route.py: `UnifiTrafficRouteKillSwitch`,
-- the switch for a setting of a traffic route, which is a `UnifiRuleSwitch` with its own toggle.
-- Names and entity ids are left out.
pub mod Lookup
pub mod Toggle
pub mod Created
mod Tests
use unifi_network_rules.Prelude.{
  ℕ, ◌+◌, Bool, true, false, not, ◌&&◌, ◌||◌, Option, none, some, List, [], ◌∷◌, ◌++◌, ◌>>=◌,
  if◌then◌else◌,
}
use unifi_network_rules.Text.{Text, codes, text_eq}
use unifi_network_rules.Sanitize.{get_child_unique_id, is_nil}
use unifi_network_rules.RuleId.{RuleObject, get_rule_id}
use unifi_network_rules.Detector.{ends_with}
use unifi_network_rules.Services.{QueuedCall, toggle}
use unifi_network_rules.Switch
use unifi_network_rules.Switch.{Switch, CurrentRule, Completion, succeeded, refused, raised}

-- A traffic route of the coordinator's data: the object, by a number; what `get_rule_id` reads;
-- whether it is enabled; if it has a dictionary `raw`, the Boolean for `kill_switch_enabled` there,
-- with `none` for a missing key; its attribute `kill_switch_enabled`.
pub record Route : Type 0 where
  pub object : ℕ
  pub rule : RuleObject
  pub enabled : Bool
  pub raw : Option (Option Bool)
  pub attribute : Option Bool

-- The fields of the base class; `_rule_id` and `_linked_parent_id`; `_pending_operations` of the
-- coordinator, if it has that; the calls that were queued.
pub record KillSwitch : Type 0 where
  pub base : Switch
  pub rule_id : Text
  pub linked_parent_id : Text
  pub pending_operations : Option (Text → Option Bool)
  pub calls : List QueuedCall

abbrev pub raw_state : Route → Option Bool
raw_state route = route.raw >>= λ state. state

abbrev pub kill_switch_id : Text → Text
kill_switch_id parent = get_child_unique_id parent (codes "kill_switch")

abbrev initial_timestamp : ℕ → Option Bool → ℕ
initial_timestamp now none = 0
initial_timestamp now (some state) = now

abbrev init_with_id : ℕ → Option (Text → Option Bool) → Route → Text → Option KillSwitch
init_with_id now pending route [] = none
init_with_id now pending route (c ∷ id) = some (record {
  base = record (Switch.init false) {
    optimistic_state = raw_state route;
    optimistic_timestamp = initial_timestamp now (raw_state route);
  };
  rule_id = kill_switch_id (c ∷ id);
  linked_parent_id = c ∷ id;
  pending_operations = pending;
  calls = [];
})

-- `none` is the `ValueError`.
unfoldable pub init : ℕ → Option (Text → Option Bool) → Route → Option KillSwitch
init now pending route = get_rule_id route.rule >>= init_with_id now pending route

abbrev or_attribute : Option Bool → Option Bool → Option Bool
or_attribute none attribute = attribute
or_attribute (some state) attribute = some state

unfoldable pub get_actual_state_from_rule : Option Route → Option Bool
get_actual_state_from_rule none = none
get_actual_state_from_rule (some route) = or_attribute (raw_state route) route.attribute

abbrev pub has_id : Text → Route → Bool
has_id id route = elim (get_rule_id route.rule) [ none ↦ false | some other ↦ text_eq other id ]

unfoldable pub find_parent : Text → List Route → Option Route
find_parent id [] = none
find_parent id (route ∷ routes) =
    let rest = find_parent id routes in if has_id id route then some route else rest

-- `routes` is `none` if the coordinator has no data or no traffic routes in it.
unfoldable pub get_current_rule : Option (List Route) → KillSwitch → Option Route
unfolding find_parent
get_current_rule routes k =
    if is_nil k.rule_id || not (ends_with (codes "_kill_switch") k.rule_id)
    then none
    else if is_nil k.linked_parent_id
    then none
    else routes >>= find_parent k.linked_parent_id

abbrev raw_or_attribute : Option (Option Bool) → Option Bool → Bool
raw_or_attribute (some none) attribute = false
raw_or_attribute (some (some state)) attribute = state
raw_or_attribute none none = false
raw_or_attribute none (some state) = state

abbrev parent_state : Option Route → Bool
parent_state none = false
parent_state (some route) = raw_or_attribute route.raw route.attribute

abbrev pub or_parent_state : Option Bool → Option Route → Bool
or_parent_state none route = parent_state route
or_parent_state (some state) route = state

unfoldable pub is_on : Option (List Route) → KillSwitch → Bool
unfolding get_current_rule
is_on routes k = or_parent_state k.base.optimistic_state (get_current_rule routes k)

abbrev is_found : Option Route → Bool
is_found none = false
is_found (some route) = true

-- `coord_ok` is `last_update_success` of the coordinator.
unfoldable pub available : Bool → Option (List Route) → KillSwitch → Bool
unfolding get_current_rule
available coord_ok routes k = coord_ok && is_found (get_current_rule routes k)

-- What the base class reads of the parent.
abbrev read_rule : Option Route → Option CurrentRule
read_rule none = none
read_rule (some route) =
    some
      (record { actual_state = get_actual_state_from_rule (some route); enabled = route.enabled })

unfoldable pub handle_coordinator_update : ℕ → Bool → Option (List Route) → KillSwitch → KillSwitch
unfolding get_current_rule get_actual_state_from_rule
handle_coordinator_update now has_data routes k = record k {
  base =
      Switch.handle_coordinator_update now has_data (read_rule (get_current_rule routes k)) k.base;
}

-- `self._optimistic_state = state` with the time.
abbrev pub show : ℕ → Bool → KillSwitch → KillSwitch
show now state k = record k {
  base = record k.base { optimistic_state = some state; optimistic_timestamp = now };
}

-- The key in `_pending_operations`.
abbrev pub kill_switch_operation_id : KillSwitch → Text
kill_switch_operation_id k = k.rule_id ++ codes "_kill_switch"

abbrev pub set_pending :
    Text → Option Bool → Option (Text → Option Bool) → Option (Text → Option Bool)
set_pending id state none = none
set_pending id state (some pending) = some (λ j. if text_eq j id then state else pending j)

abbrev drop_pending : KillSwitch → KillSwitch
drop_pending k = record k {
  pending_operations = set_pending (kill_switch_operation_id k) none k.pending_operations;
}

-- What is done before the call is queued.
abbrev begin_toggle : ℕ → Bool → KillSwitch → KillSwitch
begin_toggle now enable k = record k {
  base = record k.base {
    optimistic_state = some enable;
    optimistic_timestamp = now;
    registered = k.base.registered + 1;
  };
  pending_operations = set_pending (kill_switch_operation_id k) (some enable) k.pending_operations;
}

-- `queue_api_operation(toggle_func, rule)`
abbrev pub kill_switch_call : Route → QueuedCall
kill_switch_call route = record {
  method = toggle "toggle_traffic_route_kill_switch";
  rule = route.object;
  state = none;
}

abbrev toggle_found : ℕ → Option ℕ → Bool → Option Route → KillSwitch → KillSwitch × Bool
toggle_found now failed_at enable none k = (k, false)
toggle_found now none enable (some route) k =
    let begun = begin_toggle now enable k in
    (record begun { calls = begun.calls ++ kill_switch_call route ∷ [] }, true)
toggle_found now (some later) enable (some route) k =
    (show later (not enable) (drop_pending (begin_toggle now enable k)), false)

-- The method `_async_toggle_rule`; `failed_at` is the time at which the queuing fails, if it does.
-- The answer is whether it returns; else it raises `HomeAssistantError`.
unfoldable pub async_toggle_rule :
    ℕ → Option ℕ → Bool → Option (List Route) → KillSwitch → KillSwitch × Bool
unfolding get_current_rule
async_toggle_rule now failed_at enable routes k =
    toggle_found now failed_at enable (get_current_rule routes k) k

unfoldable pub handle_operation_complete : ℕ → Bool → Completion → KillSwitch → KillSwitch
handle_operation_complete now enable succeeded k =
    drop_pending (record k { base = record k.base { verifications = k.base.verifications + 1 } })
handle_operation_complete now enable refused k = drop_pending (show now (not enable) k)
handle_operation_complete now enable (raised message) k = show now (not enable) k

unfoldable pub delayed_verification : Bool → KillSwitch → KillSwitch
delayed_verification flagged k = record k { base = Switch.delayed_verification flagged k.base }

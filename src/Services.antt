-- ===== src/Services.antt =====
-- custom_components/unifi_network_rules/services/rule_services.py: `async_toggle_rule` from the
-- normalized rule id on, with the signatures of the methods of custom_components/
-- unifi_network_rules/udm that it queues.
pub mod Bulk
pub mod Deletion
pub mod Toggle
mod Tests
use text.Mathlib.Text.{◌==◌}
use unifi_network_rules.Prelude.{
  ℕ, String, Bool, true, false, ◌||◌, Option, none, some, List, [], ◌∷◌, any, length, if◌then◌else◌,
}
use unifi_network_rules.Text.{Text, codes}
use unifi_network_rules.Api.Wrapper.{CallEnd, raised}

-- A method that sets the state of a rule, by its name, or one of the others.
pub data Method : Type 0 where
  toggle : String → Method
  network_toggle_wrapper set_device_led : Method

-- A call that `queue_api_operation` is given; `state` is what follows the rule in its arguments.
pub record QueuedCall : Type 0 where
  pub method : Method
  pub rule : ℕ
  pub state : Option Bool

abbrev pub is_toggle : Method → Bool
is_toggle (toggle name) = true
is_toggle network_toggle_wrapper = false
is_toggle set_device_led = false

-- What `get_rule_by_id` gives for a rule type: an exception, no rule or one.
pub data Lookup : Type 0 where
  raises absent : Lookup
  found : ℕ → Lookup

abbrev pub toggle_methods : List (String × String)
toggle_methods =
    ("firewall_policies", "toggle_firewall_policy")
    ∷ ("traffic_rules", "toggle_traffic_rule")
    ∷ ("port_forwards", "toggle_port_forward")
    ∷ ("traffic_routes", "toggle_traffic_route")
    ∷ ("legacy_firewall_rules", "toggle_legacy_firewall_rule")
    ∷ ("qos_rules", "toggle_qos_rule")
    ∷ ("wlans", "toggle_wlan")
    ∷ ("vpn_clients", "toggle_vpn_config")
    ∷ ("vpn_servers", "toggle_vpn_config")
    ∷ ("port_profiles", "toggle_port_profile")
    ∷ ("nat_rules", "toggle_nat_rule")
    ∷ ("oon_policies", "toggle_oon_policy")
    ∷ []

unfoldable pub method_of : String → List (String × String) → Option Method
method_of t [] = none
method_of t ((u, name) ∷ m) =
    let rest = method_of t m in if t == u then some (toggle name) else rest

abbrev pub plain_call : ℕ → Option Method → Option QueuedCall
plain_call rule none = none
plain_call rule (some method) = some (record { method = method; rule = rule; state = none })

-- The future that `queue_api_operation` returns is true; `none` is the answer `False`. The network's
-- wrapper has the state in its closure.
unfoldable pub toggle_rule : Bool → String → ℕ → Option QueuedCall
unfolding method_of
toggle_rule enabled rule_type rule =
    if rule_type == "networks"
    then some (record { method = network_toggle_wrapper; rule = rule; state = none })
    else if rule_type == "devices"
    then some (record { method = set_device_led; rule = rule; state = some enabled })
    else plain_call rule (method_of rule_type toggle_methods)

abbrev pub toggle_found : Bool → String → Lookup → Option QueuedCall
toggle_found enabled rule_type raises = none
toggle_found enabled rule_type absent = none
toggle_found enabled rule_type (found rule) = toggle_rule enabled rule_type rule

-- The first that is there.
abbrev pub or_call : Option QueuedCall → Option QueuedCall → Option QueuedCall
or_call none b = b
or_call (some a) b = some a

-- The loop over the types, where an exception goes on with the next.
unfoldable pub toggle_any : Bool → List String → (String → Lookup) → Option QueuedCall
unfolding toggle_rule
toggle_any enabled [] look = none
toggle_any enabled (t ∷ ts) look =
    or_call (toggle_found enabled t (look t)) (toggle_any enabled ts look)

abbrev pub all_types : List String
all_types =
    "firewall_policies" ∷ "traffic_rules" ∷ "port_forwards" ∷ "traffic_routes"
    ∷ "legacy_firewall_rules" ∷ "qos_rules" ∷ "wlans" ∷ "vpn_clients" ∷ "vpn_servers"
    ∷ "port_profiles" ∷ "networks" ∷ "devices" ∷ "nat_rules" ∷ "oon_policies" ∷ []

abbrev pub types_for : Option String → List String
types_for none = all_types
types_for (some t) = t ∷ []

-- The loop over the coordinators: the call that is queued, if there is one.
unfoldable pub toggle_first : Bool → Option String → List (String → Lookup) → Option QueuedCall
unfolding toggle_any
toggle_first enabled rule_type [] = none
toggle_first enabled rule_type (look ∷ coordinators) =
    or_call (toggle_any enabled (types_for rule_type) look)
      (toggle_first enabled rule_type coordinators)

-- The answer that there are no coordinators; the error `Failed to toggle rule`; the answer `success`,
-- with the call that was queued and the number of coordinators that were refreshed before it.
pub data ToggleEnd : Type 0 where
  no_coordinators toggle_failed : ToggleEnd
  toggled : QueuedCall → ℕ → ToggleEnd

abbrev pub toggle_end : ℕ → Option QueuedCall → ToggleEnd
toggle_end coordinators none = toggle_failed
toggle_end coordinators (some call) = toggled call coordinators

-- `async_refresh`, which every coordinator is asked for in turn, does not raise.
unfoldable pub async_toggle_rule : Bool → Option String → List (String → Lookup) → ToggleEnd
unfolding toggle_first
async_toggle_rule enabled rule_type [] = no_coordinators
async_toggle_rule enabled rule_type (look ∷ coordinators) =
    toggle_end (length (look ∷ coordinators)) (toggle_first enabled rule_type (look ∷ coordinators))

-- The methods of the API with a rule and `target_state` as arguments, each by its definition.
abbrev pub toggle_firewall_policy : String
toggle_firewall_policy = "toggle_firewall_policy"

abbrev pub toggle_legacy_firewall_rule : String
toggle_legacy_firewall_rule = "toggle_legacy_firewall_rule"

abbrev pub toggle_traffic_rule : String
toggle_traffic_rule = "toggle_traffic_rule"

abbrev pub toggle_port_forward : String
toggle_port_forward = "toggle_port_forward"

abbrev pub toggle_traffic_route : String
toggle_traffic_route = "toggle_traffic_route"

abbrev pub toggle_traffic_route_kill_switch : String
toggle_traffic_route_kill_switch = "toggle_traffic_route_kill_switch"

abbrev pub toggle_qos_rule : String
toggle_qos_rule = "toggle_qos_rule"

abbrev pub toggle_wlan : String
toggle_wlan = "toggle_wlan"

abbrev pub toggle_vpn_config : String
toggle_vpn_config = "toggle_vpn_config"

abbrev pub toggle_nat_rule : String
toggle_nat_rule = "toggle_nat_rule"

abbrev pub toggle_oon_policy : String
toggle_oon_policy = "toggle_oon_policy"

abbrev pub state_methods : List String
state_methods =
    toggle_firewall_policy ∷ toggle_legacy_firewall_rule ∷ toggle_traffic_rule ∷ toggle_port_forward
    ∷ toggle_traffic_route ∷ toggle_traffic_route_kill_switch ∷ toggle_qos_rule ∷ toggle_wlan
    ∷ toggle_vpn_config ∷ toggle_nat_rule ∷ toggle_oon_policy ∷ []

-- The error of a call of one of these methods without the state; the method's name stands before it.
abbrev pub missing_target_state : Text
missing_target_state = codes "missing 1 required positional argument: 'target_state'"

-- The error by the method, for the methods that set a state: the one for port profiles has one argument
-- more.
abbrev pub missing_arguments : String → Text
missing_arguments name =
    if name == "toggle_port_profile"
    then codes "missing 2 required positional arguments: 'native_networkconf_id' and 'target_state'"
    else missing_target_state

-- How a call ends: the others end as given.
abbrev pub call_end : QueuedCall → CallEnd → CallEnd
call_end call end = elim call.method [
  | toggle name ↦ (elim call.state [ none ↦ raised (missing_arguments name) | some state ↦ end ])
  | network_toggle_wrapper ↦ end
  | set_device_led ↦ end
]

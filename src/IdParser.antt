-- ===== src/IdParser.antt =====
-- custom_components/unifi_network_rules/helpers/id_parser.py: identifiers of rules, in the form of
-- UniFi and in that of Home Assistant's entities.
pub mod RoundTrip
mod Tests
use unifi_network_rules.Prelude.{
  ℕ, ◌+◌, Bool, true, false, not, ◌&&◌, ◌||◌, Option, none, some, List, [], ◌∷◌, ◌++◌, length, any,
  leb, ◌==◌, if◌then◌else◌,
}
use unifi_network_rules.Text.{Text, codes, text_eq, starts_with, contains}

-- `s.split("_")` and `"_".join(parts)`
abbrev pub cons_first : ℕ → List Text → List Text
cons_first c [] = (c ∷ []) ∷ []
cons_first c (part ∷ parts) = (c ∷ part) ∷ parts

unfoldable pub split : Text → List Text
split [] = [] ∷ []
split (c ∷ s) = let rest = split s in if c == b'_' then [] ∷ rest else cons_first c rest

unfoldable pub join : List Text → Text
join [] = []
join (part ∷ []) = part
join (part ∷ next ∷ parts) = part ++ b'_' ∷ join (next ∷ parts)

-- `parts[-1]` and `parts[:-1]`, of parts that are not empty.
unfoldable pub last : List Text → Text
last [] = []
last (part ∷ []) = part
last (part ∷ next ∷ parts) = last (next ∷ parts)

unfoldable pub but_last : List Text → List Text
but_last [] = []
but_last (part ∷ []) = []
but_last (part ∷ next ∷ parts) = part ∷ but_last (next ∷ parts)

unfoldable pub first : List Text → Text
first [] = []
first (part ∷ parts) = part

unfoldable pub tail : List Text → List Text
tail [] = []
tail (part ∷ parts) = parts

-- `mapping.get(key, key)`
unfoldable pub mapped : List (Text × Text) → Text → Text
mapped [] key = key
mapped ((k, v) ∷ m) key = if text_eq k key then v else mapped m key

abbrev pub type_mapping : List (Text × Text)
type_mapping =
    (codes "vpn_client", codes "vpn_clients")
    ∷ (codes "vpn_server", codes "vpn_servers")
    ∷ (codes "firewall_policy", codes "firewall_policies")
    ∷ (codes "traffic_route", codes "traffic_routes")
    ∷ (codes "port_forward", codes "port_forwards")
    ∷ (codes "traffic_rule", codes "traffic_rules")
    ∷ (codes "legacy_firewall_rule", codes "legacy_firewall_rules")
    ∷ (codes "firewall_zone", codes "firewall_zones")
    ∷ (codes "qos_rule", codes "qos_rules")
    ∷ (codes "wlan", codes "wlans")
    ∷ (codes "device", codes "devices")
    ∷ (codes "port_profile", codes "port_profiles")
    ∷ (codes "network", codes "networks")
    ∷ (codes "nat", codes "nat_rules")
    ∷ (codes "oon_policy", codes "oon_policies")
    ∷ (codes "vpn", codes "vpn_clients")
    ∷ (codes "zone", codes "firewall_zones")
    ∷ []

unfoldable pub get_rule_type_from_hint : Text → Text
get_rule_type_from_hint type_hint = mapped type_mapping type_hint

abbrev pub supported_types : List Text
supported_types =
    codes "firewall_policies"
    ∷ codes "traffic_rules"
    ∷ codes "port_forwards"
    ∷ codes "traffic_routes"
    ∷ codes "legacy_firewall_rules"
    ∷ codes "qos_rules"
    ∷ codes "wlans"
    ∷ codes "vpn_clients"
    ∷ codes "vpn_servers"
    ∷ codes "port_profiles"
    ∷ codes "networks"
    ∷ codes "devices"
    ∷ codes "nat_rules"
    ∷ codes "oon_policies"
    ∷ []

unfoldable pub validate_rule_type : Text → Bool
validate_rule_type rule_type = any (λ t. text_eq rule_type t) supported_types

abbrev pub hint_mapping : List (Text × Text)
hint_mapping =
    (codes "vpn_clients", codes "vpn_client")
    ∷ (codes "vpn_servers", codes "vpn_server")
    ∷ (codes "firewall_policies", codes "firewall_policy")
    ∷ (codes "traffic_routes", codes "traffic_route")
    ∷ (codes "port_forwards", codes "port_forward")
    ∷ (codes "traffic_rules", codes "traffic_rule")
    ∷ (codes "legacy_firewall_rules", codes "legacy_firewall_rule")
    ∷ (codes "firewall_zones", codes "firewall_zone")
    ∷ (codes "qos_rules", codes "qos_rule")
    ∷ (codes "wlans", codes "wlan")
    ∷ (codes "devices", codes "device")
    ∷ (codes "port_profiles", codes "port_profile")
    ∷ (codes "networks", codes "network")
    ∷ (codes "nat_rules", codes "nat")
    ∷ (codes "oon_policies", codes "oon_policy")
    ∷ []

unfoldable pub generate_entity_id_from_rule : Text → Text → Text
generate_entity_id_from_rule rule_id rule_type =
    codes "switch.unr_" ++ (mapped hint_mapping rule_type ++ b'_' ∷ rule_id)

-- `rule_id[7:]`, where the id begins with `switch.`
abbrev strip_switch : Text → Text
strip_switch (s ∷ w ∷ i ∷ t ∷ c ∷ h ∷ dot ∷ rest) = rest
strip_switch id = id

unfoldable pub without_domain : Text → Text
without_domain rule_id =
    if starts_with (codes "switch.") rule_id then strip_switch rule_id else rule_id

-- `if not detected_rule_type`
abbrev or_detected : Option Text → Text → Option Text
or_detected none hint = some (get_rule_type_from_hint hint)
or_detected (some []) hint = some (get_rule_type_from_hint hint)
or_detected (some (c ∷ s)) hint = some (c ∷ s)

-- The second step, on the parts of an id in our format.
unfoldable pub from_parts : List Text → Text → Option Text → Text × Option Text
from_parts parts rule_id rule_type =
    if leb 3 (length parts) && text_eq (first parts) (codes "unr")
    then (last parts, or_detected rule_type (join (but_last (tail parts))))
    else (rule_id, rule_type)

unfoldable pub from_prefixed : Text → Option Text → Text × Option Text
from_prefixed rule_id rule_type =
    if contains (codes "_") rule_id && starts_with (codes "unr_") rule_id
    then from_parts (split rule_id) rule_id rule_type
    else (rule_id, rule_type)

unfoldable pub parse_rule_id : Text → Option Text → Text × Option Text
parse_rule_id [] rule_type = ([], none)
parse_rule_id (c ∷ s) rule_type =
    if not (contains (codes ".") (c ∷ s) || starts_with (codes "unr_") (c ∷ s))
    then (c ∷ s, rule_type)
    else from_prefixed (without_domain (c ∷ s)) rule_type

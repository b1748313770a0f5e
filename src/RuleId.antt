-- ===== src/RuleId.antt =====
-- custom_components/unifi_network_rules/helpers/rule.py: `get_rule_id`, which gives the unique ids
-- of the switches. An id is a text; a missing attribute or key and `None` are both `none`.
pub mod Agreement
mod Tests
use unifi_network_rules.Prelude.{String, Option, none, some, List, [], ◌∷◌, ◌++◌}
use unifi_network_rules.Text.{Text, codes}

pub data VpnType : Type 0 where
  client server unclear : VpnType

-- The classes that are told apart, but for devices and dictionaries.
pub data RuleClass : Type 0 where
  port_forward traffic_route firewall_policy traffic_rule firewall_rule qos_rule firewall_zone :
      RuleClass
  wlan network_conf port_profile static_route nat_rule oon_policy : RuleClass
  vpn_config : VpnType → RuleClass

-- `raw` is a dictionary with its keys `_id`, `id` and `type`.
pub data RuleObject : Type 0 where
  typed : RuleClass → Option Text → RuleObject
  device : Option Text → RuleObject
  raw : Option Text → Option Text → Option Text → RuleObject
  unrecognized : RuleObject

unfoldable pub rule_prefix : RuleClass → String
rule_prefix port_forward = "pf"
rule_prefix traffic_route = "route"
rule_prefix firewall_policy = "policy"
rule_prefix traffic_rule = "rule"
rule_prefix firewall_rule = "firewallrule"
rule_prefix qos_rule = "qos"
rule_prefix firewall_zone = "zone"
rule_prefix wlan = "wlan"
rule_prefix (vpn_config client) = "vpn_client"
rule_prefix (vpn_config server) = "vpn_server"
rule_prefix (vpn_config unclear) = "vpn_client"
rule_prefix network_conf = "network"
rule_prefix port_profile = "port_profile"
rule_prefix static_route = "static_route"
rule_prefix nat_rule = "nat"
rule_prefix oon_policy = "oon"

abbrev pub unr : Text → Text → Text
unr prefix id = codes "unr_" ++ (prefix ++ b'_' ∷ id)

-- `if rule.id:`
abbrev with_id : (Text → Text) → Option Text → Option Text
with_id format none = none
with_id format (some []) = none
with_id format (some (c ∷ s)) = some (format (c ∷ s))

-- `a or b`
abbrev or_id : Option Text → Option Text → Option Text
or_id none b = b
or_id (some []) b = b
or_id (some (c ∷ s)) b = some (c ∷ s)

-- `rule.get("type", "unknown")`
abbrev type_or_unknown : Option Text → Text
type_or_unknown none = codes "unknown"
type_or_unknown (some t) = t

abbrev raw_id : Text → Option Text → Option Text
raw_id prefix none = none
raw_id prefix (some id) = some (unr prefix id)

unfoldable pub get_rule_id : RuleObject → Option Text
get_rule_id (typed c id) = with_id (unr (codes (rule_prefix c))) id
get_rule_id (device mac) = with_id (λ m. unr (codes "device") (m ++ codes "_led")) mac
get_rule_id (raw key other type) = raw_id (type_or_unknown type) (or_id key other)
get_rule_id unrecognized = none

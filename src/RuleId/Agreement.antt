-- ===== src/RuleId/Agreement.antt =====
-- The unique ids of the switches against those that the change detector puts into its events.
use unifi_network_rules.Prelude.{
  ℕ, String, ◌≡◌, ◌≢◌, ◌↔◌, refl, ap, Bool, true, false, not, Option, none, some, [], ◌∷◌, ◌++◌,
  arith, length, length-append,
}
use text.Mathlib.Text.{◌==◌}
use unifi_network_rules.Text.{Text, codes}
use unifi_network_rules.Value.{str}
use unifi_network_rules.Dict.{get}
use unifi_network_rules.Detector.Creation.{
  UniqueId, device_led, verbatim, prefixed, change_type_of, unique_id_of,
}
use unifi_network_rules.Detector.Ids.{unique_id-prefixed}
use unifi_network_rules.IdParser.RoundTrip.{is_plain}
use unifi_network_rules.RuleId.{
  RuleClass, client, server, unclear, port_forward, traffic_route, firewall_policy, traffic_rule,
  firewall_rule, qos_rule, firewall_zone, wlan, network_conf, port_profile, static_route, nat_rule,
  oon_policy, vpn_config, typed, rule_prefix, unr, get_rule_id,
}

-- The text of a unique id whose rule id is a text.
abbrev pub unique_text : Option UniqueId → Option Text
unique_text (some (prefixed t (str s))) = some (unr (codes t) (codes s))
unique_text (some (device_led (str s))) = some (unr (codes "device") (codes s ++ codes "_led"))
unique_text (some (verbatim (str s))) = some (codes s)
unique_text _ = none

-- The rule type under which the coordinator keeps the rules of a class.
abbrev pub kept_under : RuleClass → String
kept_under port_forward = "port_forwards"
kept_under traffic_route = "traffic_routes"
kept_under firewall_policy = "firewall_policies"
kept_under traffic_rule = "traffic_rules"
kept_under firewall_rule = "legacy_firewall_rules"
kept_under qos_rule = "qos_rules"
kept_under firewall_zone = "firewall_zones"
kept_under wlan = "wlans"
kept_under (vpn_config client) = "vpn_clients"
kept_under (vpn_config server) = "vpn_servers"
kept_under (vpn_config unclear) = "vpn_clients"
kept_under network_conf = "networks"
kept_under port_profile = "port_profiles"
kept_under static_route = "static_routes"
kept_under nat_rule = "nat_rules"
kept_under oon_policy = "oon_policies"

-- The classes for which both agree.
abbrev pub agrees : RuleClass → Bool
agrees wlan = true
agrees (vpn_config t) = true
agrees network_conf = true
agrees port_profile = true
agrees nat_rule = true
agrees _ = false

abbrev size_of : Option Text → ℕ
size_of none = 0
size_of (some t) = length t

-- Equal ids have prefixes of the same length.
length-unr :
    (p q id : Text)
    → ◌≡◌ {A = Option Text} (some (unr p id)) (some (unr q id))
    → length p ≡ length q
length-unr p q id e =
    let h : length (unr p id) ≡ length (unr q id) = ap size_of e in
    omega (arith, h, length-append p (b'_' ∷ id), length-append q (b'_' ∷ id))

apart :
    (p q id : Text)
    → length p ≢ length q
    → (◌≡◌ {A = Option Text} (some (unr p id)) (some (unr q id))) ↔ (◌≡◌ {A = Bool} false true)
apart p q id n = ((λ e. absurd (n (length-unr p q id e))), (λ h. cc))

together :
    (p id : Text)
    → (◌≡◌ {A = Option Text} (some (unr p id)) (some (unr p id))) ↔ (◌≡◌ {A = Bool} true true)
together p id = ((λ e. refl), (λ h. refl))

unr_iff :
    (c : RuleClass) (id : Text)
    → (◌≡◌ {A = Option Text}
        (some (unr (codes (change_type_of (kept_under c))) id))
        (some (unr (codes (rule_prefix c)) id)))
      ↔ (agrees c ≡ true)
unfolding change_type_of rule_prefix get
unr_iff port_forward id = apart (codes "port_forward") (codes "pf") id (λ h. omega (arith, h))
unr_iff traffic_route id = apart (codes "traffic_route") (codes "route") id (λ h. omega (arith, h))
unr_iff firewall_policy id =
    apart (codes "firewall_policy") (codes "policy") id (λ h. omega (arith, h))
unr_iff traffic_rule id = apart (codes "traffic_rule") (codes "rule") id (λ h. omega (arith, h))
unr_iff firewall_rule id =
    apart (codes "firewall_policy") (codes "firewallrule") id (λ h. omega (arith, h))
unr_iff qos_rule id = apart (codes "qos_rule") (codes "qos") id (λ h. omega (arith, h))
unr_iff firewall_zone id = apart (codes "firewall_zone") (codes "zone") id (λ h. omega (arith, h))
unr_iff static_route id = apart (codes "route") (codes "static_route") id (λ h. omega (arith, h))
unr_iff oon_policy id = apart (codes "oon_policy") (codes "oon") id (λ h. omega (arith, h))
unr_iff wlan id = together (codes "wlan") id
unr_iff (vpn_config client) id = together (codes "vpn_client") id
unr_iff (vpn_config server) id = together (codes "vpn_server") id
unr_iff (vpn_config unclear) id = together (codes "vpn_client") id
unr_iff network_conf id = together (codes "network") id
unr_iff port_profile id = together (codes "port_profile") id
unr_iff nat_rule id = together (codes "nat") id

kept_under-not_device : (c : RuleClass) → not (kept_under c == "devices") ≡ true
kept_under-not_device port_forward = refl
kept_under-not_device traffic_route = refl
kept_under-not_device firewall_policy = refl
kept_under-not_device traffic_rule = refl
kept_under-not_device firewall_rule = refl
kept_under-not_device qos_rule = refl
kept_under-not_device firewall_zone = refl
kept_under-not_device static_route = refl
kept_under-not_device oon_policy = refl
kept_under-not_device wlan = refl
kept_under-not_device (vpn_config client) = refl
kept_under-not_device (vpn_config server) = refl
kept_under-not_device (vpn_config unclear) = refl
kept_under-not_device network_conf = refl
kept_under-not_device port_profile = refl
kept_under-not_device nat_rule = refl

get_rule_id-typed :
    (c : RuleClass) (t : Text)
    → t ≢ []
    → get_rule_id (typed c (some t)) ≡ some (unr (codes (rule_prefix c)) t)
unfolding get_rule_id
get_rule_id-typed c [] n = absurd (n refl)
get_rule_id-typed c (x ∷ t) n = refl

-- For a rule of any of these classes, whose id is not empty and has no underscore: the unique id
-- that an event of the change detector has for it is the one that its switch was given exactly if
-- it is a WLAN, a VPN configuration, a network, a port profile or a NAT rule.
pub unique_id-get_rule_id :
    (c : RuleClass) (s : String)
    → is_plain (codes s) ≡ true
    → codes s ≢ []
    → (unique_text (unique_id_of (kept_under c) (str s)) ≡ get_rule_id (typed c (some (codes s))))
      ↔ (agrees c ≡ true)
unique_id-get_rule_id c s p n =
    rw
      (
        unique_id-prefixed (kept_under c) s (kept_under-not_device c) p,
        get_rule_id-typed c (codes s) n,
      )
      (unr_iff c (codes s))

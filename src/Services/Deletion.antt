-- ===== src/Services/Deletion.antt =====
-- custom_components/unifi_network_rules/services/rule_services.py: `async_delete_rule`, with the id
-- parser, and the names of the methods of custom_components/unifi_network_rules/udm that remove.
pub mod Targets
mod Tests
use unifi_network_rules.Prelude.{
  ◌≡◌, refl, sym, ap, ◌∙◌, ◌≢◌, Bool, true, false, not, ◌&&◌, ◌||◌, Option, none, some, List, [],
  ◌∷◌, ◌>>=◌, any, arith, Bool-cases, Option-cases, inl, inr, if◌then◌else◌,
}
use unifi_network_rules.Text.{Text, codes, text_eq, contains, starts_with}
use unifi_network_rules.IdParser.{parse_rule_id, validate_rule_type, generate_entity_id_from_rule}
use unifi_network_rules.IdParser.RoundTrip.{is_plain, parse-generate, parse-raw}

-- A call that `queue_api_operation` is given.
pub record DeleteCall : Type 0 where
  pub method : Text
  pub rule_id : Text

abbrev pub remove_methods : List (Text × Text)
remove_methods =
    (codes "firewall_policies", codes "remove_firewall_policy")
    ∷ (codes "traffic_rules", codes "remove_traffic_rule")
    ∷ (codes "port_forwards", codes "remove_port_forward")
    ∷ (codes "traffic_routes", codes "remove_traffic_route")
    ∷ (codes "legacy_firewall_rules", codes "remove_legacy_firewall_rule")
    ∷ (codes "qos_rules", codes "remove_qos_rule")
    ∷ (codes "vpn_clients", codes "remove_vpn_config")
    ∷ (codes "vpn_servers", codes "remove_vpn_config")
    ∷ (codes "port_profiles", codes "remove_port_profile")
    ∷ (codes "oon_policies", codes "remove_oon_policy")
    ∷ []

-- Those of them that the API has.
abbrev pub api_methods : List Text
api_methods =
    codes "remove_firewall_policy"
    ∷ codes "remove_traffic_rule"
    ∷ codes "remove_port_forward"
    ∷ codes "remove_traffic_route"
    ∷ codes "remove_qos_rule"
    ∷ codes "remove_vpn_config"
    ∷ codes "remove_port_profile"
    ∷ codes "remove_oon_policy"
    ∷ []

unfoldable pub remove_method : Text → List (Text × Text) → Option Text
remove_method t [] = none
remove_method t ((u, name) ∷ m) =
    let rest = remove_method t m in if text_eq t u then some name else rest

-- A method that the API does not have raises, as does an API that is not there.
abbrev call_method : Bool → Text → Text → Option DeleteCall
call_method has_api rule_id name =
    if has_api && any (text_eq name) api_methods
    then some (record { method = name; rule_id = rule_id })
    else none

-- The future that `queue_api_operation` returns is true; `none` is `False` or an exception.
unfoldable pub delete_rule : Bool → Text → Text → Option DeleteCall
unfolding remove_method any text_eq
delete_rule has_api rule_type rule_id =
    remove_method rule_type remove_methods >>= call_method has_api rule_id

abbrev pub or_delete : Option DeleteCall → Option DeleteCall → Option DeleteCall
or_delete none b = b
or_delete (some a) b = some a

unfoldable pub delete_any : Bool → List Text → Text → Option DeleteCall
unfolding delete_rule
delete_any has_api [] rule_id = none
delete_any has_api (t ∷ ts) rule_id =
    or_delete (delete_rule has_api t rule_id) (delete_any has_api ts rule_id)

abbrev pub deletable_types : List Text
deletable_types =
    codes "firewall_policies"
    ∷ codes "traffic_rules"
    ∷ codes "port_forwards"
    ∷ codes "traffic_routes"
    ∷ codes "legacy_firewall_rules"
    ∷ codes "qos_rules"
    ∷ codes "vpn_clients"
    ∷ codes "vpn_servers"
    ∷ codes "port_profiles"
    ∷ codes "oon_policies"
    ∷ []

-- A type that is empty counts as none.
abbrev pub types_tried : Option Text → List Text
types_tried none = deletable_types
types_tried (some []) = deletable_types
types_tried (some (c ∷ t)) = (c ∷ t) ∷ []

-- The loop over the coordinators, each by whether it has an API.
unfoldable pub delete_first : List Bool → Option Text → Text → Option DeleteCall
unfolding delete_any
delete_first [] rule_type rule_id = none
delete_first (has_api ∷ coordinators) rule_type rule_id =
    or_delete (delete_any has_api (types_tried rule_type) rule_id)
      (delete_first coordinators rule_type rule_id)

-- The answer that there are no coordinators, the four errors, and success with the call.
pub data ServiceEnd : Type 0 where
  no_coordinators rule_id_required invalid_rule_id unsupported_type delete_failed : ServiceEnd
  success : DeleteCall → ServiceEnd

abbrev pub delete_end : Option DeleteCall → ServiceEnd
delete_end none = delete_failed
delete_end (some call) = success call

-- `if not rule_type and detected_rule_type`
abbrev or_detected_type : Option Text → Option Text → Option Text
or_detected_type none detected = detected
or_detected_type (some []) none = some []
or_detected_type (some []) (some t) = some t
or_detected_type (some (c ∷ t)) detected = some (c ∷ t)

abbrev is_supported : Option Text → Bool
is_supported none = true
is_supported (some []) = true
is_supported (some (c ∷ t)) = validate_rule_type (c ∷ t)

abbrev delete_parsed : List Bool → Option Text → Text × Option Text → ServiceEnd
delete_parsed coordinators rule_type ([], detected) = invalid_rule_id
delete_parsed coordinators rule_type (c ∷ id, detected) =
    let used = or_detected_type rule_type detected in
    if is_supported used
    then delete_end (delete_first coordinators used (c ∷ id))
    else unsupported_type

unfoldable pub async_delete_rule : List Bool → Text → Option Text → ServiceEnd
unfolding parse_rule_id delete_first
async_delete_rule [] rule_id rule_type = no_coordinators
async_delete_rule (a ∷ coordinators) [] rule_type = rule_id_required
async_delete_rule (a ∷ coordinators) (c ∷ id) rule_type =
    delete_parsed (a ∷ coordinators) rule_type (parse_rule_id (c ∷ id) rule_type)

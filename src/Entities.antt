-- ===== src/Entities.antt =====
-- custom_components/unifi_network_rules/coordination/entity_manager.py: `CoordinatorEntityManager`.
-- The registry of Home Assistant is asked through `in_registry`, whether it has a switch of the
-- integration with a unique id. Sets are in no particular order.
pub mod Creation
pub mod Deletion
pub mod Loops
pub mod Tracking
pub mod Present
pub mod Removals
pub mod Policies
mod Tests
use unifi_network_rules.Prelude.{
  String, Bool, true, false, not, ◌&&◌, ◌||◌, Option, none, some, List, [], ◌∷◌, ◌++◌,
  if◌then◌else◌,
}
use text.Mathlib.Text.{◌==◌}
use unifi_network_rules.Text.{Text, codes, text_eq}
use unifi_network_rules.Dict.{Dict, get}
use unifi_network_rules.RuleId.{RuleObject, get_rule_id}
use unifi_network_rules.Sanitize.{get_child_unique_id}
use unifi_network_rules.IdSet.{IdSet, member, add}

-- A fetched rule, and whether it has raw data with the key `kill_switch_enabled`.
pub record FoundRule : Type 0 where
  pub object : RuleObject
  pub has_kill_switch : Bool

-- The fetched rules by their type; the devices by their MAC, `none` where there is none.
pub record EntityData : Type 0 where
  pub rules : Dict (List FoundRule)
  pub devices : List (Option Text)

abbrev or_none : Option (List FoundRule) → List FoundRule
or_none none = []
or_none (some rules) = rules

abbrev pub rules_in : String → EntityData → List FoundRule
rules_in key d = or_none (get key d.rules)

pub data EntityClass : Type 0 where
  rule_switch kill_switch_switch led_switch : EntityClass

-- An entry of `potential_entities_data`.
pub record Candidate : Type 0 where
  pub rule_type : String
  pub entity_class : EntityClass

abbrev pub Candidates : Type 0
Candidates = List (Text × Candidate)

unfoldable pub put_candidate : Text → Candidate → Candidates → Candidates
put_candidate id c [] = (id, c) ∷ []
put_candidate id c ((j, d) ∷ m) = if text_eq j id then (j, c) ∷ m else (j, d) ∷ put_candidate id c m

-- What the loops of the discovery change.
pub record Discovery : Type 0 where
  pub known : IdSet
  pub potential : Candidates
  pub current : IdSet

abbrev pub kill_switch_of : Text → Text
kill_switch_of id = get_child_unique_id id (codes "kill_switch")

abbrev pub led_unique_id : Text → Text
led_unique_id mac = codes "unr_device_" ++ (mac ++ codes "_led")

module _ (in_registry : Text → Bool) where
  -- An id that was found: it is known, it is in the registry, or it is a candidate.
  unfoldable pub consider : Text → Candidate → Discovery → Discovery
  unfolding add
  consider id c d =
      let found = record d { current = add id d.current } in
      if member id d.known
      then found
      else if in_registry id
      then record found { known = add id d.known }
      else record found { potential = put_candidate id c d.potential }

  abbrev pub consider_rule : String → Bool → Option Text → Discovery → Discovery
  consider_rule key has_kill_switch none d = d
  consider_rule key has_kill_switch (some []) d = d
  consider_rule key has_kill_switch (some (x ∷ id)) d =
      let one = consider (x ∷ id) (record { rule_type = key; entity_class = rule_switch }) d in
      if (key == "traffic_routes") && has_kill_switch
      then consider (kill_switch_of (x ∷ id))
          (record { rule_type = key; entity_class = kill_switch_switch }) one
      else one

  unfoldable pub process_entity_type_for_discovery : String → List FoundRule → Discovery → Discovery
  process_entity_type_for_discovery key [] d = d
  process_entity_type_for_discovery key (r ∷ rules) d =
      process_entity_type_for_discovery key rules
        (consider_rule key r.has_kill_switch (get_rule_id r.object) d)

  abbrev pub consider_device : Option Text → Discovery → Discovery
  consider_device none d = d
  consider_device (some mac) d =
      consider (led_unique_id mac) (record { rule_type = "devices"; entity_class = led_switch }) d

  unfoldable pub process_devices_for_discovery : List (Option Text) → Discovery → Discovery
  process_devices_for_discovery [] d = d
  process_devices_for_discovery (mac ∷ devices) d =
      process_devices_for_discovery devices (consider_device mac d)

  -- The loop over `_rule_type_entity_map`.
  unfoldable pub process_entity_types : List String → EntityData → Discovery → Discovery
  process_entity_types [] fetched d = d
  process_entity_types (key ∷ keys) fetched d =
      process_entity_types keys fetched
        (process_entity_type_for_discovery key (rules_in key fetched) d)

abbrev pub rule_type_entity_map : List String
rule_type_entity_map =
    "port_forwards" ∷ "traffic_rules" ∷ "firewall_policies" ∷ "traffic_routes" ∷ "static_routes"
    ∷ "nat_rules" ∷ "legacy_firewall_rules" ∷ "qos_rules" ∷ "wlans" ∷ "port_profiles" ∷ "networks"
    ∷ "vpn_clients" ∷ "vpn_servers" ∷ "oon_policies" ∷ []

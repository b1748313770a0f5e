-- ===== src/Entities/Deletion.antt =====
-- custom_components/unifi_network_rules/coordination/entity_manager.py: `check_for_deleted_rules` and
-- the removal of an entity.
use unifi_network_rules.Prelude.{
  ℕ, zero, suc, ◌*◌, String, Bool, true, false, not, ◌&&◌, ◌||◌, Option, none, some, List, [], ◌∷◌,
  ◌++◌, length, ltb, if◌then◌else◌,
}
use text.Mathlib.Text.{◌==◌}
use unifi_network_rules.Text.{Text}
use unifi_network_rules.RuleId.{get_rule_id}
use unifi_network_rules.IdSet.{IdSet, member, add, minus, discard}
use unifi_network_rules.Entities.{FoundRule, EntityData, rules_in, kill_switch_of, led_unique_id}
use unifi_network_rules.Entities.Creation.{Manager}

abbrev pub all_rule_sources_types : List String
all_rule_sources_types =
    "port_forwards" ∷ "traffic_routes" ∷ "static_routes" ∷ "nat_rules" ∷ "firewall_policies"
    ∷ "traffic_rules" ∷ "legacy_firewall_rules" ∷ "qos_rules" ∷ "wlans" ∷ "vpn_clients"
    ∷ "vpn_servers" ∷ "port_profiles" ∷ "networks" ∷ []

-- The ids of one rule.
abbrev pub add_rule_ids : String → Bool → Option Text → IdSet → IdSet
add_rule_ids key has_kill_switch none ids = ids
add_rule_ids key has_kill_switch (some []) ids = ids
add_rule_ids key has_kill_switch (some (x ∷ id)) ids =
    if (key == "traffic_routes") && has_kill_switch
    then add (kill_switch_of (x ∷ id)) (add (x ∷ id) ids)
    else add (x ∷ id) ids

unfoldable pub add_ids : String → List FoundRule → IdSet → IdSet
add_ids key [] ids = ids
add_ids key (r ∷ rules) ids =
    add_ids key rules (add_rule_ids key r.has_kill_switch (get_rule_id r.object) ids)

unfoldable pub add_type_ids : List String → EntityData → IdSet → IdSet
add_type_ids [] fetched ids = ids
add_type_ids (key ∷ keys) fetched ids =
    add_type_ids keys fetched (add_ids key (rules_in key fetched) ids)

abbrev pub add_device_id : Option Text → IdSet → IdSet
add_device_id none ids = ids
add_device_id (some mac) ids = add (led_unique_id mac) ids

unfoldable pub add_device_ids : List (Option Text) → IdSet → IdSet
add_device_ids [] ids = ids
add_device_ids (mac ∷ devices) ids = add_device_ids devices (add_device_id mac ids)

-- `ids[:n]`
unfoldable pub first_of : ℕ → List Text → List Text
first_of zero ids = []
first_of (suc n) [] = []
first_of (suc n) (id ∷ ids) = id ∷ first_of n ids

-- `len(deleted_ids) > total_previous_count * 0.25`, times four.
unfoldable pub process_deleted_rules : IdSet → ℕ → List Text
process_deleted_rules deleted total =
    if ltb 5 (length deleted) && (ltb total (length deleted * 4) && ltb 10 (length deleted))
    then first_of 5 deleted
    else deleted

abbrev pub is_empty : IdSet → Bool
is_empty [] = true
is_empty (id ∷ ids) = false

-- The ids that the check takes for present.
unfoldable pub present_ids : EntityData → IdSet
unfolding add_type_ids add_ids add_device_ids
present_ids fetched =
    add_device_ids fetched.devices (add_type_ids all_rule_sources_types fetched [])

-- What the registry has after the tasks for the ids, whose calls of `async_remove` do not raise.
unfoldable pub registry_after : (Text → Bool) → IdSet → Text → Bool
registry_after in_registry removed id = in_registry id && not (member id removed)

-- A removal task, but for the registry: the id is forgotten.
unfoldable pub remove_entity : Text → Manager → Manager
unfolding discard
remove_entity id s = record s { known = discard id s.known; removals = s.removals ++ id ∷ [] }

-- The loop that creates the tasks; each has ended before the next.
unfoldable pub remove_entities : List Text → Manager → Manager
unfolding remove_entity
remove_entities [] s = s
remove_entities (id ∷ ids) s = remove_entities ids (remove_entity id s)

unfoldable pub check_for_deleted_rules : Bool → EntityData → Manager → Manager
unfolding present_ids process_deleted_rules remove_entities
check_for_deleted_rules initial_update_done fetched s =
    if not initial_update_done || is_empty s.known
    then s
    else remove_entities
        (process_deleted_rules (minus s.known (present_ids fetched)) (length s.known)) s

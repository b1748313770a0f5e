-- ===== src/Entities/Tests.antt =====
-- The entity manager at concrete inputs.
use unifi_network_rules.Prelude.{
  ◌≡◌, refl, true, false, not, ◌&&◌, ◌||◌, none, some, List, [], ◌∷◌, length,
}
use unifi_network_rules.Text.{Text, codes}
use unifi_network_rules.RuleId.{typed, traffic_route, oon_policy, get_rule_id}
use unifi_network_rules.IdSet.{member, minus}
use unifi_network_rules.Entities.{FoundRule, EntityData}
use unifi_network_rules.Entities.Creation.{Answers, Manager, discover_and_add_new_entities}
use unifi_network_rules.Entities.Deletion.{all_rule_sources_types, check_for_deleted_rules}
use unifi_network_rules.Entities.Loops.{is_rule_in, is_device_in, is_current}
use unifi_network_rules.Entities.Tracking.{discover_lem}
use unifi_network_rules.Entities.Removals.{check-scheduled}
use unifi_network_rules.Prelude.{keep, any}
use unifi_network_rules.Text.{lower, text_eq}
use unifi_network_rules.Dict.{get}
use unifi_network_rules.RuleId.{rule_prefix}
use unifi_network_rules.IdSet.{add, update}
use unifi_network_rules.Sanitize.{
  get_child_unique_id, sanitize_entity_id, rstrip, lstrip, collapse, replace_others,
  replace_hyphens,
}
use unifi_network_rules.Entities.{
  process_devices_for_discovery, consider, process_entity_types, process_entity_type_for_discovery,
  put_candidate,
}
use unifi_network_rules.Entities.Creation.{
  cleanup_stale_known_ids, create_and_add_entities, create_entities, establish_parent_child_links,
  find_made, add_entities_to_home_assistant,
}
use unifi_network_rules.Entities.Deletion.{first_of, process_deleted_rules}

program : Unit {0}
unfolding discover_and_add_new_entities check_for_deleted_rules get_rule_id rule_prefix member minus
    add update keep any get text_eq lower process_devices_for_discovery consider
    process_entity_types process_entity_type_for_discovery put_candidate cleanup_stale_known_ids
    create_and_add_entities create_entities establish_parent_child_links find_made
    add_entities_to_home_assistant first_of process_deleted_rules get_child_unique_id
    sanitize_entity_id rstrip lstrip collapse replace_others replace_hyphens
program = tt

abbrev a_route : FoundRule
a_route = record { object = typed traffic_route (some (codes "7")); has_kill_switch = true }

abbrev a_policy : FoundRule
a_policy = record { object = typed oon_policy (some (codes "3")); has_kill_switch = false }

abbrev some_data : EntityData
some_data = record {
  rules = ("traffic_routes", a_route ∷ []) ∷ [];
  devices = some (codes "aa") ∷ [];
}

abbrev no_data : EntityData
no_data = record { rules = []; devices = [] }

abbrev fresh : Answers
fresh = record {
  in_registry = λ id. false;
  build = λ id c. some id;
  parent_of = λ id. none;
  has_state = λ id. false;
  accepts = true;
}

abbrev tracking : List Text → Manager
tracking ids = record { known = ids; callback_set = true; removals = []; added = []; links = [] }

abbrev kill_switch : Text
kill_switch = codes "unr_route_7_kill_switch"

abbrev policy : Text
policy = codes "unr_oon_3"

the_new_entities :
    (discover_and_add_new_entities fresh some_data (tracking (codes "old" ∷ []))).added
    ≡ codes "unr_route_7" ∷ kill_switch ∷ codes "unr_device_aa_led" ∷ []
unfolding program
the_new_entities = refl

discover_example :
    let t = discover_and_add_new_entities fresh some_data (tracking (codes "old" ∷ [])) in
    (member kill_switch t.known ≡ is_current kill_switch some_data)
    × (member kill_switch t.added ≡ (
        member kill_switch []
        || (is_current kill_switch some_data
            && not (member kill_switch (codes "old" ∷ []) || false))))
    × (member kill_switch t.removals ≡ (
        member kill_switch []
        || (member kill_switch (codes "old" ∷ []) && not (is_current kill_switch some_data))))
discover_example =
    discover_lem kill_switch fresh some_data (tracking (codes "old" ∷ [])) refl refl (λ id c. refl)

check-scheduled_example :
    (member (codes "old") (codes "old" ∷ []) ≡ true)
    × (is_rule_in (codes "old") all_rule_sources_types some_data ≡ false)
    × (is_device_in (codes "old") some_data ≡ false)
unfolding program
check-scheduled_example =
    check-scheduled (codes "old") true some_data (tracking (codes "old" ∷ [])) refl refl

abbrev twelve : List Text
twelve =
    (0 ∷ [])
    ∷ (1 ∷ [])
    ∷ (2 ∷ [])
    ∷ (3 ∷ [])
    ∷ (4 ∷ [])
    ∷ (5 ∷ [])
    ∷ (6 ∷ [])
    ∷ (7 ∷ [])
    ∷ (8 ∷ [])
    ∷ (9 ∷ [])
    ∷ (10 ∷ [])
    ∷ (11 ∷ [])
    ∷ []

five_of_twelve : length (check_for_deleted_rules true no_data (tracking twelve)).removals ≡ 5
unfolding program
five_of_twelve = refl

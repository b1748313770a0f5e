-- ===== src/Detector/Tests.antt =====
-- Comparisons of two snapshots, and the theorems of the detector at concrete inputs.
use unifi_network_rules.Prelude.{
  String, List, if◌then◌else◌, ◌≡◌, refl, Bool, true, false, Option, none, some, [], ◌∷◌, ◌++◌, any,
}
use unifi_network_rules.Text.{codes, starts_with}
use unifi_network_rules.Dict.{Dict, has, get, put}
use unifi_network_rules.Value.{
  Value, find, null, num, negative, arr, obj, field, no_fields, bool, str, py_eq, truthy,
}
use unifi_network_rules.Detector.{
  EntityState, ChangeAction, deleted, enabled, get_or, get_null, ends_with, is_kill_switch,
  determine_led_change_action, determine_kill_switch_change_action, field_differs,
  is_kill_switch_child, determine_change_action,
}
use unifi_network_rules.Detector.Creation.{
  ChangeEvent, prefixed, given, change_type_of, generic_name, name_by_type, first_name,
  get_entity_name, rule_id_of, unique_id_of, create_change_event,
}
use unifi_network_rules.Detector.Detection.{
  Snapshot, detect_entities, detect_types, deleted_entities, deleted_types, detect_changes,
}
use unifi_network_rules.Detector.Events.{count_entities}
use unifi_network_rules.Detector.Snapshot.{
  Entity, raw, attributes, attributes_of, entity_data_of, take, child_of, add_entity, add_entities,
  add_types, build_state_snapshot,
}
use unifi_network_rules.Detector.Ids.{parse-unique_id}
use unifi_network_rules.IdParser.{parse_rule_id}
use unifi_network_rules.IdParser.RoundTrip.{is_plain}

program : Unit {0}
unfolding any starts_with has get py_eq truthy get_or get_null ends_with is_kill_switch
    determine_led_change_action determine_kill_switch_change_action field_differs
    is_kill_switch_child determine_change_action change_type_of generic_name name_by_type first_name
    get_entity_name rule_id_of unique_id_of create_change_event detect_entities detect_types
    deleted_entities deleted_types detect_changes count_entities is_plain put find attributes_of
    entity_data_of take child_of add_entity add_entities add_types build_state_snapshot
program = tt

abbrev nat_rule : Bool → EntityState
nat_rule b = ("_id", str "6786d55a") ∷ ("name", str "Printer") ∷ ("enabled", bool b) ∷ []

abbrev off_snapshot : Snapshot
off_snapshot = ("nat_rules", ("6786d55a", nat_rule false) ∷ []) ∷ []

abbrev on_snapshot : Snapshot
on_snapshot = ("nat_rules", ("6786d55a", nat_rule true) ∷ []) ∷ []

-- The event for the rule, by its action.
abbrev nat_event : ChangeAction → Option EntityState → Option EntityState → ChangeEvent
nat_event action old new = record {
  unique_id = prefixed "nat" (str "6786d55a");
  rule_id = str "6786d55a";
  change_type = "nat";
  change_action = action;
  entity_name = given (str "Printer");
  old_state = old;
  new_state = new;
}

abbrev toggled : ChangeEvent
toggled = nat_event enabled (some (nat_rule false)) (some (nat_rule true))

toggle_detected :
    detect_changes true off_snapshot on_snapshot
    ≡ record { changes = toggled ∷ []; suppressed = 0; checked = str "6786d55a" ∷ [] }
unfolding program
toggle_detected = refl

abbrev removed : ChangeEvent
removed = nat_event deleted (some (nat_rule true)) none

parse-unique_id_example :
    (unique_id_of "nat_rules" (str "6786d55a")
      ≡ some (prefixed (change_type_of "nat_rules") (str "6786d55a")))
    × (parse_rule_id
          (codes "switch.unr_" ++ (codes (change_type_of "nat_rules") ++ b'_' ∷ codes "6786d55a"))
          none
        ≡ (codes "6786d55a", some (codes "nat_rules")))
unfolding program
parse-unique_id_example = parse-unique_id "nat_rules" "6786d55a" refl refl

abbrev route : EntityState
route = ("_id", str "66aa01") ∷ ("name", str "Work") ∷ ("kill_switch_enabled", bool false) ∷ []

-- What an f-string puts in for a text.
abbrev as_text : Value → String
as_text (str s) = s
as_text null = "None"
as_text (bool b) = if b then "True" else "False"
as_text (num n) = ""
as_text (negative n) = ""
as_text (arr xs) = ""
as_text (obj f) = ""

abbrev policy : Entity
policy = record {
  form = raw (("_id", str "77") ∷ ("route", obj (field "kill_switch" (bool true) no_fields)) ∷ []);
  rule_id = none;
}

abbrev two_types : Dict (List Entity)
two_types =
    ("oon_policies", policy ∷ [])
    ∷ ("unheard_of", policy ∷ [])
    ∷ ("devices", record { form = attributes (("mac", str "aa:bb") ∷ []); rule_id = none } ∷ [])
    ∷ []

-- A type that is not in the mapping is passed over.
unheard_of_passed_over : has "unheard_of" (build_state_snapshot as_text two_types) ≡ false
unfolding program
unheard_of_passed_over = refl

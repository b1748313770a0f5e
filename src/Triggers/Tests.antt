-- ===== src/Triggers/Tests.antt =====
-- The schema and the filters at a migrated trigger.
use unifi_network_rules.Prelude.{String, ◌≡◌, refl, Bool, true, false, none, some, [], any}
use unifi_network_rules.Text.{Text, codes, text_eq, contains, starts_with, lower}
use unifi_network_rules.Migration.{
  Yaml, Seq, Entries, MigrationConfig, scalar, text, seq, dict, end_of_seq, cons, end_of_dict,
  entry, get, put, look_up, is_unifi, legacy_config, base_trigger, device_case, migrate_trigger,
}
use unifi_network_rules.Triggers.{
  TriggerEvent, is_in, all_in, valid_entry, valid_entries, unified_trigger_schema, has_text,
  passes_action, passes_name, matches_filters, validated, fires,
}
use unifi_network_rules.Triggers.Schema.{schema-migrate_trigger}

program : Unit {0}
unfolding text_eq contains starts_with lower get put look_up is_unifi legacy_config base_trigger
    device_case migrate_trigger any is_in all_in valid_entry valid_entries unified_trigger_schema
    has_text passes_action passes_name matches_filters validated fires
program = tt

-- Validators that take texts only, and make a list of one value.
abbrev texts_only : Yaml → Bool
texts_only (scalar n) = false
texts_only (text t) = true
texts_only (seq s) = false
texts_only (dict e) = false

abbrev to_list : Yaml → Seq
to_list (scalar n) = cons (scalar n) end_of_seq
to_list (text t) = cons (text t) end_of_seq
to_list (seq s) = s
to_list (dict e) = cons (dict e) end_of_seq

abbrev field : String → String → Entries → Entries
field k v e = entry (codes k) (text (codes v)) e

abbrev legacy_rule : Entries
legacy_rule = field "platform" "unifi_network_rules" (
    field "type" "rule_enabled"
      (field "rule_type" "wlans" (field "name_filter" "Guest" end_of_dict)))

abbrev rule_enabled : MigrationConfig
rule_enabled = record {
  legacy_type = codes "rule_enabled";
  change_action = some (text (codes "enabled"));
  change_type = none;
}

abbrev migrated_rule : Entries
migrated_rule = field "platform" "unifi_network_rules" (
    field "type" "unr_changed" (
      field "change_action" "enabled"
        (field "change_type" "wlan" (field "name_filter" "Guest" end_of_dict))))

legacy : legacy_config legacy_rule ≡ some (some rule_enabled)
unfolding program
legacy = refl

migrated : migrate_trigger rule_enabled legacy_rule ≡ some migrated_rule
unfolding program
migrated = refl

schema-migrate_trigger_example : unified_trigger_schema texts_only to_list migrated_rule ≡ true
unfolding program
schema-migrate_trigger_example =
    schema-migrate_trigger texts_only to_list (λ t. refl) (λ s. refl) legacy_rule rule_enabled
      migrated_rule refl legacy refl refl migrated

abbrev guest_enabled : TriggerEvent
guest_enabled = record {
  entity_id = codes "switch.unr_wlan_guest";
  change_type = codes "wlan";
  change_action = codes "enabled";
  entity_name = codes "My guest network";
}

-- What `cv.string` gives for texts and numbers; the others it does not take.
abbrev string_of : Yaml → Text
string_of (scalar n) = codes "12"
string_of (text t) = t
string_of (seq s) = []
string_of (dict e) = []

fires_on_guest : fires string_of to_list migrated_rule guest_enabled ≡ true
unfolding program
fires_on_guest = refl

-- The legacy type itself is refused.
legacy_refused : unified_trigger_schema texts_only to_list legacy_rule ≡ false
unfolding program
legacy_refused = refl

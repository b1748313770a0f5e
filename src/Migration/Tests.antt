-- ===== src/Migration/Tests.antt =====
-- A file of automations before and after the migration.
use unifi_network_rules.Prelude.{String, ◌≡◌, refl, some, [], ◌∷◌}
use unifi_network_rules.Text.{codes, text_eq, replace, lower, starts_with, sub_from}
use unifi_network_rules.Migration.{
  Yaml, Entries, text, seq, dict, end_of_seq, cons, end_of_dict, entry, texts, get, put, look_up,
  is_unifi, legacy_config, base_trigger, device_case, migrate_trigger,
}
use unifi_network_rules.Migration.Templates.{
  spaces, drop, match_length, sub, sub_all, replace_trigger_vars, update, update_seq,
  update_entries,
}
use unifi_network_rules.Migration.Script.{
  Stats, new_stats, count_type, legacy_triggers, legacy_of, scan_automation, scan_list,
  scan_automations, migrate_seq, migrate_parts, finish, migrate_automation, migrate_list,
  migrate_automations,
}
use unifi_network_rules.Migration.Total.{migrate_automations-Runs}
use unifi_network_rules.Migration.Complete.{scan-migrate_automations, migrate_automations-again}

program : Unit {0}
unfolding text_eq replace lower starts_with sub_from get put look_up is_unifi legacy_config
    base_trigger device_case migrate_trigger spaces drop match_length sub sub_all
    replace_trigger_vars update update_seq update_entries count_type legacy_triggers legacy_of
    scan_automation scan_list scan_automations migrate_seq migrate_parts finish migrate_automation
    migrate_list migrate_automations
program = tt

abbrev field : String → String → Entries → Entries
field k v e = entry (codes k) (text (codes v)) e

abbrev only : Entries → Yaml
only e = seq (cons (dict e) end_of_seq)

-- A template with spaces around `==`.
equals_template :
    replace_trigger_vars (codes "{{ trigger.event.trigger_type  ==\n'rule_enabled' }}")
    ≡ codes "{{ trigger.change_action == 'enabled' }}"
unfolding program
equals_template = refl

name_template :
    replace_trigger_vars (codes "{{ trigger.event.rule_name }} 'rule_disabled'")
    ≡ codes "{{ trigger.entity_name }} 'disabled'"
unfolding program
name_template = refl

abbrev device_trigger : Entries
device_trigger = field "platform" "unifi_network_rules" (
    field "type" "device_changed"
      (field "device_id" "AA:0b" (field "change_type" "led_toggled" end_of_dict)))

device_migrated :
    migrate_automations
      (only (entry (codes "triggers") (only device_trigger) end_of_dict))
      new_stats
    ≡ some (
      only (
          entry
            (codes "triggers")
            (only (
              field "platform" "unifi_network_rules" (
                field "type" "unr_changed" (
                  field "change_type" "device" (
                    field "entity_id" "switch.unr_device_aa0b_led" (
                      entry
                        (codes "change_action")
                        (seq (texts (codes "enabled" ∷ codes "disabled" ∷ [])))
                        end_of_dict))))))
            end_of_dict),
      record new_stats {
        total_automations = 1;
        automations_with_legacy_triggers = 1;
        legacy_triggers_migrated = 1;
      },
    )
unfolding program
device_migrated = refl

abbrev legacy_rule : Entries
legacy_rule = field "trigger" "unifi_network_rules" (
    field "type" "rule_enabled"
      (field "rule_type" "wlans" (field "name_filter" "Guest" end_of_dict)))

abbrev legacy_file : Yaml
legacy_file = only (
    entry (codes "trigger") (dict legacy_rule)
      (field "action" "{{ trigger.event.rule_name }}" end_of_dict))

abbrev migrated_rule : Entries
migrated_rule = field "trigger" "unifi_network_rules" (
    field "type" "unr_changed" (
      field "change_action" "enabled"
        (field "change_type" "wlan" (field "name_filter" "Guest" end_of_dict))))

abbrev migrated_file : Yaml
migrated_file = only (
    entry (codes "trigger") (dict migrated_rule)
      (field "action" "{{ trigger.entity_name }}" end_of_dict))

abbrev migrated_stats : Stats
migrated_stats = record new_stats {
  total_automations = 1;
  automations_with_legacy_triggers = 1;
  legacy_triggers_migrated = 1;
}

migrated : migrate_automations legacy_file new_stats ≡ some (migrated_file, migrated_stats)
unfolding program
migrated = refl

scan-migrate_automations_example :
    (found : Stats) × (scan_automations legacy_file new_stats ≡ some found)
    × (1 ≡ found.total_automations)
    × (1 ≡ found.automations_with_legacy_triggers)
    × (1 ≡ found.legacy_triggers_found)
    × (scan_automations migrated_file new_stats ≡ some (record new_stats { total_automations = 1 }))
scan-migrate_automations_example =
    scan-migrate_automations legacy_file migrated_file migrated_stats migrated

migrate_automations-again_example :
    migrate_automations migrated_file new_stats
    ≡ some (migrated_file, record new_stats { total_automations = 1 })
migrate_automations-again_example =
    migrate_automations-again legacy_file migrated_file migrated_stats migrated

-- A list under `trigger`, which is how older files write several triggers, is passed over.
list_passed_over :
    migrate_automations (only (entry (codes "trigger") (only legacy_rule) end_of_dict)) new_stats
    ≡ some (
      only (entry (codes "trigger") (only legacy_rule) end_of_dict),
      record new_stats { total_automations = 1 },
    )
unfolding program
list_passed_over = refl

migrate_automations-Runs_example :
    (r : Yaml × Stats) × (migrate_automations legacy_file new_stats ≡ some r)
unfolding program
migrate_automations-Runs_example = migrate_automations-Runs legacy_file new_stats refl

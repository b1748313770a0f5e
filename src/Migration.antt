-- ===== src/Migration.antt =====
-- scripts/migrate_triggers.py: the data of YAML that the script walks through, the tests for the
-- triggers of older versions and `migrate_trigger`. `none` is an exception.
pub mod Templates
pub mod Script
pub mod Marks
pub mod Fields
pub mod NewTriggers
pub mod Automations
pub mod Quiet
pub mod Counts
pub mod Complete
pub mod Total
mod Tests
use unifi_network_rules.Prelude.{
  ℕ, ◌≡◌, refl, Bool, true, false, not, ◌&&◌, ◌||◌, Option, none, some, List, [], ◌∷◌, ◌++◌, ◌>>=◌,
  if◌then◌else◌,
}
use unifi_network_rules.Text.{Text, codes, text_eq, replace, lower}

-- `scalar` stands for a value that is no text, list or dictionary. Keys are texts.
mutual
  pub data Yaml : Type 0 where
    scalar : ℕ → Yaml
    text : Text → Yaml
    seq : Seq → Yaml
    dict : Entries → Yaml

  pub data Seq : Type 0 where
    end_of_seq : Seq
    cons : Yaml → Seq → Seq

  pub data Entries : Type 0 where
    end_of_dict : Entries
    entry : Text → Yaml → Entries → Entries

unfoldable pub get : Text → Entries → Option Yaml
get k end_of_dict = none
get k (entry j v e) = if text_eq j k then some v else get k e

unfoldable pub put : Text → Yaml → Entries → Entries
put k v end_of_dict = entry k v end_of_dict
put k v (entry j w e) = if text_eq j k then entry j v e else entry j w (put k v e)

abbrev pub texts : List Text → Seq
texts [] = end_of_seq
texts (t ∷ ts) = cons (text t) (texts ts)

-- An item of `TRIGGER_MIGRATION_MAP`; the `type` in its value is always the same.
pub record MigrationConfig : Type 0 where
  pub legacy_type : Text
  pub change_action : Option Yaml
  pub change_type : Option Text

abbrev action_only : Text → Yaml → Text × MigrationConfig
action_only t v = (t, record { legacy_type = t; change_action = some v; change_type = none })

abbrev pub trigger_migration_map : List (Text × MigrationConfig)
trigger_migration_map =
    action_only (codes "rule_enabled") (text (codes "enabled"))
    ∷ action_only (codes "rule_disabled") (text (codes "disabled"))
    ∷ action_only (codes "rule_changed")
        (seq (texts (codes "enabled" ∷ codes "disabled" ∷ codes "modified" ∷ [])))
    ∷ action_only (codes "rule_deleted") (text (codes "deleted"))
    ∷ (
      codes "device_changed",
      record {
        legacy_type = codes "device_changed";
        change_action = none;
        change_type = some (codes "device");
      },
    )
    ∷ []

abbrev pub rule_type_migration_map : List (Text × Text)
rule_type_migration_map =
    (codes "firewall_policies", codes "firewall_policy")
    ∷ (codes "traffic_routes", codes "traffic_route")
    ∷ (codes "port_forwards", codes "port_forward")
    ∷ (codes "traffic_rules", codes "traffic_rule")
    ∷ (codes "legacy_firewall_rules", codes "firewall_policy")
    ∷ (codes "firewall_zones", codes "firewall_zone")
    ∷ (codes "wlans", codes "wlan")
    ∷ (codes "qos_rules", codes "qos_rule")
    ∷ (codes "vpn_clients", codes "vpn_client")
    ∷ (codes "vpn_servers", codes "vpn_server")
    ∷ []

unfoldable pub look_up {ℓ} : {V : Type ℓ} → Text → List (Text × V) → Option V
unfolding text_eq
look_up t [] = none
look_up t ((k, v) ∷ m) = if text_eq t k then some v else look_up t m

-- A look-up by a value of YAML: a list or a dictionary is no key, which raises.
abbrev pub look_up_value {ℓ} : {V : Type ℓ} → Option Yaml → List (Text × V) → Option (Option V)
look_up_value none m = some none
look_up_value (some (scalar n)) m = some none
look_up_value (some (text t)) m = some (look_up t m)
look_up_value (some (seq s)) m = none
look_up_value (some (dict e)) m = none

abbrev pub is_text : Text → Option Yaml → Bool
is_text t none = false
is_text t (some (scalar n)) = false
is_text t (some (text u)) = text_eq u t
is_text t (some (seq s)) = false
is_text t (some (dict e)) = false

abbrev pub domain : Text
domain = codes "unifi_network_rules"

unfoldable pub is_unifi : Entries → Bool
unfolding get text_eq
is_unifi trigger =
    is_text domain (get (codes "platform") trigger)
    || is_text domain (get (codes "trigger") trigger)

-- `is_legacy_unifi_trigger`, with the configuration that the type has in the map.
unfoldable pub legacy_config : Entries → Option (Option MigrationConfig)
unfolding is_unifi look_up
legacy_config trigger =
    if is_unifi trigger
    then look_up_value (get (codes "type") trigger) trigger_migration_map
    else some none

-- The first two entries: the format of the user interface stays what it is.
unfoldable pub base_trigger : Entries → Entries
base_trigger trigger =
    entry
      (if is_text domain (get (codes "trigger") trigger) then codes "trigger" else codes "platform")
      (text domain) (entry (codes "type") (text (codes "unr_changed")) end_of_dict)

abbrev pub put_some : Text → Option Yaml → Entries → Entries
put_some k none e = e
put_some k (some v) e = put k v e

abbrev pub some_text : Option Text → Option Yaml
some_text none = none
some_text (some t) = some (text t)

-- The `change_type`: the one of the configuration, or else that of the `rule_type`.
abbrev pub change_type_of : MigrationConfig → Entries → Option (Option Text)
change_type_of config trigger = elim config.change_type [
  | some t ↦ some (some t)
  | none ↦ look_up_value (get (codes "rule_type") trigger) rule_type_migration_map
]

abbrev pub led_entity_id : Text → Text
led_entity_id device_id =
    codes "switch.unr_device_" ++ lower (replace (codes ":") [] device_id) ++ codes "_led"

-- A `device_id` that is no text has no `replace`, which raises.
abbrev pub device_entity_id : Option Yaml → Option (Option Text)
device_entity_id none = some none
device_entity_id (some (scalar n)) = none
device_entity_id (some (text t)) = some (some (led_entity_id t))
device_entity_id (some (seq s)) = none
device_entity_id (some (dict e)) = none

abbrev pub with_device : Entries → Entries → Option Text → Entries
with_device trigger new_trigger entity_id =
    let with_id = put_some (codes "entity_id") (some_text entity_id) new_trigger in
    if is_text (codes "led_toggled") (get (codes "change_type") trigger)
    then put (codes "change_action") (seq (texts (codes "enabled" ∷ codes "disabled" ∷ []))) with_id
    else with_id

-- The special case of `device_changed`.
unfoldable pub device_case : MigrationConfig → Entries → Entries → Option Entries
unfolding text_eq get put replace lower
device_case config trigger new_trigger =
    if text_eq config.legacy_type (codes "device_changed")
    then (device_entity_id (get (codes "device_id") trigger) >>= λ entity_id.
        some (with_device trigger new_trigger entity_id))
    else some new_trigger

abbrev pub with_change_type : MigrationConfig → Entries → Option Text → Entries
with_change_type config trigger change_type =
    let with_action =
      put_some (codes "change_action") config.change_action (base_trigger trigger) in
    let with_type = put_some (codes "change_type") (some_text change_type) with_action in
    let with_entity = put_some (codes "entity_id") (get (codes "entity_id") trigger) with_type in
    put_some (codes "name_filter") (get (codes "name_filter") trigger) with_entity

-- `migrate_trigger` for a trigger that is legacy.
unfoldable pub migrate_trigger : MigrationConfig → Entries → Option Entries
unfolding put base_trigger device_case
migrate_trigger config trigger = do
  change_type ← change_type_of config trigger
  device_case config trigger (with_change_type config trigger change_type)

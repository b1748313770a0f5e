-- ===== src/Triggers/Filters.antt =====
-- unified_trigger.py with scripts/migrate_triggers.py: the filters of migrated triggers.
use unifi_network_rules.Prelude.{◌≡◌, Option, none, some}
use unifi_network_rules.Text.{Text, codes}
use unifi_network_rules.Migration.{Yaml, Seq, text, Entries, get}

-- The fields of the filters.
record Fields (e : Entries) (entity change_type action name : Option Yaml) : Type 0 where
  entity_field : get (codes "entity_id") e ≡ entity
  type_field : get (codes "change_type") e ≡ change_type
  action_field : get (codes "change_action") e ≡ action
  name_field : get (codes "name_filter") e ≡ name

-- A value that may be missing.
abbrev pub convert : (Yaml → Yaml) → Option Yaml → Option Yaml
convert f none = none
convert f (some v) = some (f v)

module _ (to_text : Yaml → Text) (ensure_list : Yaml → Seq) where
  -- The value that the schema gives for a text, whatever the value was.
  abbrev pub as_text : Yaml → Yaml
  as_text v = text (to_text v)

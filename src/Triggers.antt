-- ===== src/Triggers.antt =====
-- custom_components/unifi_network_rules/unified_trigger.py: the schema of a trigger's configuration
-- and the filters of a trigger. Configurations are dictionaries, as Migration has them.
pub mod Schema
pub mod Filters
mod Tests
use unifi_network_rules.Prelude.{
  ℕ, Bool, true, false, not, ◌&&◌, ◌||◌, Option, none, some, List, [], ◌∷◌, any, if◌then◌else◌,
}
use unifi_network_rules.Text.{Text, codes, text_eq, contains, lower}
use unifi_network_rules.Migration.{
  Yaml, Seq, Entries, scalar, text, seq, dict, end_of_seq, cons, end_of_dict, entry, get, is_text,
  domain,
}

abbrev pub valid_change_types : List Text
valid_change_types =
    codes "firewall_policy"
    ∷ codes "traffic_rule"
    ∷ codes "traffic_route"
    ∷ codes "port_forward"
    ∷ codes "firewall_zone"
    ∷ codes "wlan"
    ∷ codes "qos_rule"
    ∷ codes "vpn_client"
    ∷ codes "vpn_server"
    ∷ codes "device"
    ∷ codes "port_profile"
    ∷ codes "network"
    ∷ codes "route"
    ∷ codes "nat"
    ∷ codes "oon_policy"
    ∷ []

abbrev pub valid_change_actions : List Text
valid_change_actions =
    codes "created" ∷ codes "deleted" ∷ codes "enabled" ∷ codes "disabled" ∷ codes "modified" ∷ []

-- `vol.In` for a list of texts.
unfoldable pub is_in : List Text → Yaml → Bool
unfolding any text_eq
is_in ts (text t) = any (text_eq t) ts
is_in ts _ = false

unfoldable pub all_in : List Text → Seq → Bool
unfolding is_in
all_in ts end_of_seq = true
all_in ts (cons v s) = is_in ts v && all_in ts s

abbrev pub is_some : Option Yaml → Bool
is_some none = false
is_some (some v) = true

abbrev pub has_key : Text → Entries → Bool
has_key k e = is_some (get k e)

-- The validators `cv.string`, which says which values it takes, and `cv.ensure_list`, which gives a
-- list.
module _ (string : Yaml → Bool) (ensure_list : Yaml → Seq) where
  abbrev pub is_change_action : Yaml → Bool
  is_change_action v = is_in valid_change_actions v || all_in valid_change_actions (ensure_list v)

  -- The validator of a key; a key that the schema does not have is refused.
  unfoldable pub valid_entry : Text → Yaml → Bool
  unfolding is_in all_in
  valid_entry k v =
      if text_eq k (codes "platform")
      then is_text domain (some v)
      else if text_eq k (codes "type")
      then is_text (codes "unr_changed") (some v)
      else if text_eq k (codes "entity_id")
      then string v
      else if text_eq k (codes "change_type")
      then is_in valid_change_types v
      else if text_eq k (codes "change_action")
      then is_change_action v
      else text_eq k (codes "name_filter") && string v

  unfoldable pub valid_entries : Entries → Bool
  unfolding valid_entry
  valid_entries end_of_dict = true
  valid_entries (entry k v e) = valid_entry k v && valid_entries e

  -- Whether `UNIFIED_TRIGGER_SCHEMA` takes the configuration.
  unfoldable pub unified_trigger_schema : Entries → Bool
  unfolding valid_entries get
  unified_trigger_schema config =
      valid_entries config && has_key (codes "platform") config && has_key (codes "type") config

-- What the filters look at in the data of an event.
pub record TriggerEvent : Type 0 where
  pub entity_id : Text
  pub change_type : Text
  pub change_action : Text
  pub entity_name : Text

-- A filter on a text: a key that is missing lets everything pass.
abbrev pub passes : Text → Option Yaml → Bool
passes t none = true
passes t (some v) = is_text t (some v)

unfoldable pub has_text : Text → Seq → Bool
unfolding text_eq
has_text t end_of_seq = false
has_text t (cons v s) = is_text t (some v) || has_text t s

-- The filter on actions: one or a list.
unfoldable pub passes_action : Text → Option Yaml → Bool
unfolding has_text
passes_action t none = true
passes_action t (some (scalar n)) = false
passes_action t (some (text u)) = text_eq u t
passes_action t (some (seq s)) = has_text t s
passes_action t (some (dict e)) = false

-- The filter on names; a value that is no text has no `lower`, which raises.
unfoldable pub passes_name : Text → Option Yaml → Option Bool
unfolding contains lower
passes_name name none = some true
passes_name name (some (scalar n)) = none
passes_name name (some (text t)) = some (contains (lower t) (lower name))
passes_name name (some (seq s)) = none
passes_name name (some (dict e)) = none

-- `_matches_filters`; `none` is an exception.
unfoldable pub matches_filters : Entries → TriggerEvent → Option Bool
unfolding get passes_action passes_name text_eq
matches_filters config ev =
    if not (passes ev.entity_id (get (codes "entity_id") config))
    then some false
    else if not (passes ev.change_type (get (codes "change_type") config))
    then some false
    else if not (passes_action ev.change_action (get (codes "change_action") config))
    then some false
    else passes_name ev.entity_name (get (codes "name_filter") config)

abbrev pub or_false : Option Bool → Bool
or_false none = false
or_false (some b) = b

-- What the schema gives back for a configuration that it takes: `to_text` is what `cv.string` gives for
-- a value, and an action that is not a valid one by itself is in the list of `cv.ensure_list`.
module _ (to_text : Yaml → Text) (ensure_list : Yaml → Seq) where
  abbrev pub action_value : Yaml → Yaml
  action_value v = if is_in valid_change_actions v then v else seq (ensure_list v)

  abbrev pub schema_value : Text → Yaml → Yaml
  schema_value k v =
      if text_eq k (codes "entity_id") || text_eq k (codes "name_filter")
      then text (to_text v)
      else if text_eq k (codes "change_action")
      then action_value v
      else v

  unfoldable pub validated : Entries → Entries
  validated end_of_dict = end_of_dict
  validated (entry k v e) = entry k (schema_value k v) (validated e)

  -- Whether the handler of an event calls the action; it logs an exception. The configuration is the
  -- one that the schema gave back.
  unfoldable pub fires : Entries → TriggerEvent → Bool
  unfolding validated matches_filters
  fires config ev = or_false (matches_filters (validated config) ev)

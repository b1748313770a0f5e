-- ===== src/Detector/Snapshot.antt =====
-- custom_components/unifi_network_rules/unified_change_detector.py: `_build_state_snapshot` and
-- `get_status`. The ids of entities are texts; an id that is none is passed over like a missing one.
use Prim.Native.String.{◌++◌}
use text.Mathlib.Text.{◌==◌}
use unifi_network_rules.Prelude.{
  ℕ, zero, suc, ◌+◌, String, Option, none, some, List, [], ◌∷◌, length, if◌then◌else◌,
}
use unifi_network_rules.Dict.{Dict, has, get, put}
use unifi_network_rules.Value.{Value, null, bool, str, obj, num, negative, arr, find}
use unifi_network_rules.Detector.{EntityState, get_null, or_else}
use unifi_network_rules.Detector.Creation.{rule_type_mapping}
use unifi_network_rules.Detector.Detection.{Entities, Snapshot, Detector}

-- An object with a dictionary `raw`, with its `enabled` if it has one; a dictionary; any other
-- object, by its attributes.
pub data Form : Type 0 where
  typed : EntityState → Option Value → Form
  raw : EntityState → Form
  attributes : EntityState → Form

-- An entity of the data, with what `get_rule_id` gives for it if it has an `id`.
pub record Entity : Type 0 where
  pub form : Form
  pub rule_id : Option String

abbrev pub key_of : Value → Option String
key_of (str s) = if s == "" then none else some s
key_of null = none
key_of (bool b) = none
key_of (num n) = none
key_of (negative n) = none
key_of (arr xs) = none
key_of (obj f) = none

abbrev pub put_some : String → Option Value → EntityState → EntityState
put_some k none m = m
put_some k (some v) m = put k v m

unfoldable pub attributes_of : List String → EntityState → EntityState → EntityState
unfolding put get
attributes_of [] object m = m
attributes_of (k ∷ ks) object m = attributes_of ks object (put_some k (get k object) m)

abbrev pub attribute_names : String → List String
attribute_names rule_type =
    if rule_type == "devices"
    then "id" ∷ "_id" ∷ "mac" ∷ "name" ∷ "model" ∷ "led_override" ∷ []
    else "id" ∷ "_id" ∷ "enabled" ∷ "name" ∷ "description" ∷ "action" ∷ "protocol" ∷ []

-- `entity_id` and `entity_data`.
unfoldable pub entity_data_of : String → Form → Option String × EntityState
unfolding attributes_of
entity_data_of rule_type (typed m enabled) =
    (key_of (or_else (get_null "_id" m) (get_null "id" m)), put_some "enabled" enabled m)
entity_data_of rule_type (raw m) = (key_of (or_else (get_null "_id" m) (get_null "id" m)), m)
entity_data_of rule_type (attributes object) = (
  key_of (or_else (or_else (get_null "id" object) (get_null "_id" object)) (get_null "mac" object)),
  attributes_of (attribute_names rule_type) object [],
)

unfoldable pub take : ℕ → String → String
take zero s = ""
take (suc n) String.[] = ""
take (suc n) (String.◌∷◌ c s) = String.◌∷◌ c (take n s)

-- `get_child_unique_id(parent, "kill_switch")`
abbrev pub kill_switch_id : String → String
kill_switch_id parent = parent ++ "_kill_switch"

abbrev pub or_default : String → Option String → String
or_default default none = default
or_default default (some s) = if s == "" then default else s

-- The value of `route.kill_switch` if it is a Boolean, else `None`.
abbrev pub bool_or_null : Option Value → Value
bool_or_null (some (bool b)) = bool b
bool_or_null _ = null

abbrev pub oon_kill_switch : Value → Value
oon_kill_switch (obj route) = bool_or_null (find "kill_switch" route)
oon_kill_switch _ = null

abbrev pub put_child : Option (String × EntityState) → Entities → Entities
put_child none entities = entities
put_child (some (id, m)) entities = put id m entities

-- The text that an f-string puts in for a value.
module _ (format : Value → String) where
  abbrev pub kill_switch_data : String → String → Value → Value → EntityState
  kill_switch_data id parent enabled parent_name =
      ("_id", str id)
      ∷ ("parent_id", str parent)
      ∷ ("enabled", enabled)
      ∷ ("kill_switch_enabled", enabled)
      ∷ ("name", str (format parent_name ++ " Kill Switch"))
      ∷ []

  -- `None` is no kill switch.
  abbrev pub switch_of : String → String → Value → Value → Option (String × EntityState)
  switch_of id parent null parent_name = none
  switch_of id parent enabled parent_name =
      some (id, kill_switch_data id parent enabled parent_name)

  -- The kill switch of a traffic route.
  abbrev pub route_switch : String → EntityState → Option (String × EntityState)
  route_switch entity_id m =
      switch_of (kill_switch_id entity_id) entity_id (get_null "kill_switch_enabled" m) (
        or_else (get_null "name" m)
          (or_else (get_null "description" m) (str ("Route " ++ take 8 entity_id))))

  -- The kill switch of an OON policy.
  abbrev pub oon_switch : String → Option String → EntityState → Option (String × EntityState)
  oon_switch entity_id rule_id m =
      switch_of (kill_switch_id (or_default ("unr_oon_" ++ entity_id) rule_id)) entity_id
        (oon_kill_switch (get_null "route" m))
        (or_else (get_null "name" m) (str ("OON Policy " ++ take 8 entity_id)))

  unfoldable pub child_of :
      String → String → Option String → EntityState → Option (String × EntityState)
  unfolding get_null find take
  child_of rule_type entity_id rule_id m =
      if rule_type == "traffic_routes"
      then route_switch entity_id m
      else if rule_type == "oon_policies"
      then oon_switch entity_id rule_id m
      else none

  abbrev pub add_data : String → Option String → Option String × EntityState → Entities → Entities
  add_data rule_type rule_id (none, m) entities = entities
  add_data rule_type rule_id (some entity_id, m) entities =
      put_child (child_of rule_type entity_id rule_id m) (put entity_id m entities)

  -- The body of the inner loop.
  unfoldable pub add_entity : String → Entity → Entities → Entities
  unfolding entity_data_of child_of put
  add_entity rule_type entity entities =
      add_data rule_type entity.rule_id (entity_data_of rule_type entity.form) entities

  unfoldable pub add_entities : String → List Entity → Entities → Entities
  unfolding add_entity
  add_entities rule_type [] entities = entities
  add_entities rule_type (entity ∷ rest) entities =
      add_entities rule_type rest (add_entity rule_type entity entities)

  -- Rule types that are not in the mapping are passed over.
  unfoldable pub add_types : Dict (List Entity) → Snapshot → Snapshot
  unfolding add_entities has put
  add_types [] snapshot = snapshot
  add_types ((rule_type, entities) ∷ rest) snapshot = add_types rest (
      if has rule_type rule_type_mapping
      then put rule_type (add_entities rule_type entities []) snapshot
      else snapshot)

  unfoldable pub build_state_snapshot : Dict (List Entity) → Snapshot
  unfolding add_types
  build_state_snapshot current_data = add_types current_data []

pub record Status : Type 0 where
  pub previous_state_entities : ℕ
  pub rule_types_tracked : ℕ
  pub last_snapshot_types : List String

unfoldable pub total_entities : Snapshot → ℕ
total_entities [] = 0
total_entities ((rule_type, entities) ∷ rest) = length entities + total_entities rest

abbrev types_of : Snapshot → List String
types_of [] = []
types_of ((rule_type, entities) ∷ rest) = rule_type ∷ types_of rest

-- `get_status`, without the mapping.
unfoldable pub get_status : Detector → Status
unfolding total_entities
get_status d = record {
  previous_state_entities = total_entities d.previous_state;
  rule_types_tracked = length d.previous_state;
  last_snapshot_types = types_of d.previous_state;
}

-- ===== src/Entities/Creation.antt =====
-- custom_components/unifi_network_rules/coordination/entity_manager.py: what follows the loops of the
-- discovery, and the discovery as a whole. What the classes of the switches and Home Assistant
-- answer is in the record `Answers`.
use unifi_network_rules.Prelude.{
  Bool, true, false, not, ◌&&◌, ◌||◌, Option, none, some, List, [], ◌∷◌, ◌++◌, map, if◌then◌else◌,
}
use unifi_network_rules.Text.{Text, text_eq}
use unifi_network_rules.IdSet.{IdSet, member, minus, update}
use unifi_network_rules.Entities.{
  EntityData, EntityClass, rule_switch, kill_switch_switch, Candidate, Candidates,
  process_entity_types, process_devices_for_discovery, rule_type_entity_map,
}

-- What the discovery asks others. `build` is the unique id of the entity that the class makes of a
-- candidate, `none` where it raises; `parent_of` is `linked_parent_id` of such an entity;
-- `has_state` is whether `hass.states` has the entity of a unique id; `accepts` is whether
-- `async_add_entities_callback` returns and does not raise.
pub record Answers : Type 0 where
  pub in_registry : Text → Bool
  pub build : Text → Candidate → Option Text
  pub parent_of : Text → Option Text
  pub has_state : Text → Bool
  pub accepts : Bool

-- A kill switch is linked to its parent's entity, to the state of its parent, or to nothing.
pub data Link : Type 0 where
  to_entity : Text → Text → Link
  to_state : Text → Text → Link
  to_nothing : Text → Link

-- `known_unique_ids` and `_initial_update_done` of the coordinator, whether its callback is set,
-- the ids for which a task of `_remove_entity_async` was created, what was handed to the callback, and
-- the links that were made. Home Assistant begins a task when it is created, and `_remove_entity_async`
-- awaits nothing: it has ended, and the id is forgotten, before the statement after it.
pub record Manager : Type 0 where
  pub known : IdSet
  pub callback_set : Bool
  pub removals : List Text
  pub added : List Text
  pub links : List Link

abbrev is_route : EntityClass → Bool
is_route rule_switch = true
is_route _ = false

abbrev is_kill_switch_class : EntityClass → Bool
is_kill_switch_class kill_switch_switch = true
is_kill_switch_class _ = false

-- The tasks find the ids forgotten.
unfoldable pub cleanup_stale_known_ids : IdSet → Manager → Manager
cleanup_stale_known_ids current s =
    let stale = minus s.known current in
    record s { known = minus s.known stale; removals = s.removals ++ stale }

abbrev pub ids_of : Candidates → List Text
ids_of made = map (λ e. e.0) made

-- The parent among the entities that were made, if it is a switch of a rule.
unfoldable pub find_made : Text → Candidates → Option EntityClass
find_made parent [] = none
find_made parent ((id, c) ∷ m) =
    if text_eq id parent then some c.entity_class else find_made parent m

module _ (a : Answers) where
  abbrev built_as : Text → Option Text → Bool
  built_as id none = false
  built_as id (some unique_id) = text_eq unique_id id

  -- The loop that makes the entities, in the order of the candidates.
  unfoldable pub create_entities : IdSet → Candidates → Candidates → Candidates
  create_entities known made [] = made
  create_entities known made ((id, c) ∷ m) =
      create_entities known
        (if member id known || member id (ids_of made)
          then made
          else if built_as id (a.build id c)
          then made ++ (id, c) ∷ []
          else made)
        m

  abbrev link_made : Text → Text → Option EntityClass → List Link
  link_made id parent (some c) = if is_route c then to_entity id parent ∷ [] else []
  link_made id parent none =
      (if a.in_registry parent && a.has_state parent then to_state id parent else to_nothing id)
      ∷ []

  abbrev link_to : Text → Option Text → Candidates → List Link
  link_to id none made = to_nothing id ∷ []
  link_to id (some parent) made = link_made id parent (find_made parent made)

  unfoldable pub establish_parent_child_links : Candidates → Candidates → List Link
  establish_parent_child_links made [] = []
  establish_parent_child_links made ((id, c) ∷ m) =
      (if is_kill_switch_class c.entity_class then link_to id (a.parent_of id) made else [])
      ++ establish_parent_child_links made m

  -- Nothing is called where nothing was made.
  unfoldable pub add_entities_to_home_assistant : Candidates → Manager → Manager
  add_entities_to_home_assistant [] s = s
  add_entities_to_home_assistant (e ∷ made) s =
      if s.callback_set && a.accepts
      then record s {
        known = update s.known (ids_of (e ∷ made));
        added = s.added ++ ids_of (e ∷ made);
      }
      else s

  unfoldable pub create_and_add_entities : Candidates → Manager → Manager
  unfolding create_entities establish_parent_child_links
  create_and_add_entities potential s =
      let made = create_entities s.known [] potential in
      add_entities_to_home_assistant made
        (record s { links = s.links ++ establish_parent_child_links made made })

  -- The classes are imported without an error.
  unfoldable pub discover_and_add_new_entities : EntityData → Manager → Manager
  unfolding cleanup_stale_known_ids create_and_add_entities
  discover_and_add_new_entities fetched s =
      if not s.callback_set
      then s
      else let d = process_devices_for_discovery a.in_registry fetched.devices (
          process_entity_types a.in_registry rule_type_entity_map fetched
            (record { known = s.known; potential = []; current = [] })) in
        create_and_add_entities d.potential
          (cleanup_stale_known_ids d.current (record s { known = d.known }))

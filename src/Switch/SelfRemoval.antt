-- ===== src/Switch/SelfRemoval.antt =====
-- custom_components/unifi_network_rules/switches/base.py: `async_initiate_self_removal`, with which a
-- switch removes its child switches and itself, and the links of parents and children. Entities are
-- named by their unique ids. The calls of Home Assistant do not raise, and nothing else runs while
-- they are awaited.
pub mod Settled
pub mod Once
use unifi_network_rules.Prelude.{
  ℕ, zero, suc, Bool, true, false, not, ◌&&◌, Option, none, some, List, [], ◌∷◌, ◌++◌,
  if◌then◌else◌,
}
use unifi_network_rules.Text.{Text, text_eq}
use unifi_network_rules.IdSet.{IdSet, member, add, discard}

-- `known_unique_ids` of the coordinator; `_CREATED_UNIQUE_IDS`; the ids for which the registry has a
-- switch; the entities in `hass.data`; the `_linked_child_ids` and the `_linked_parent_id` of each
-- entity; the entities with `_removal_initiated`; the calls of `async_remove`, in their order.
pub record World : Type 0 where
  pub known : IdSet
  pub created : IdSet
  pub registry : IdSet
  pub entities : IdSet
  pub children : Text → IdSet
  pub parent : Text → Option Text
  pub initiated : IdSet
  pub removed : List Text

unfoldable pub establish_parent_child_relationship : Text → Text → World → World
unfolding add
establish_parent_child_relationship parent child w = record w {
  children = λ id. if text_eq id parent then add child (w.children id) else w.children id;
  parent = λ id. if text_eq id child then some parent else w.parent id;
}

-- Up to the loop over the children.
unfoldable pub begin_removal : Text → World → World
unfolding add discard
begin_removal id w = record w {
  initiated = add id w.initiated;
  known = discard id w.known;
  created = discard id w.created;
}

-- A child of which no entity is found is removed from the registry.
unfoldable pub remove_directly : Text → World → World
unfolding discard
remove_directly child w = record w {
  registry = discard child w.registry;
  known = discard child w.known;
  created = discard child w.created;
}

unfoldable pub unlink_child : Text → Text → World → World
unfolding discard
unlink_child parent child w = record w {
  children = λ id. if text_eq id parent then discard child (w.children id) else w.children id;
}

-- `async_remove`, which calls `async_will_remove_from_hass`.
unfoldable pub remove_self : Text → World → World
unfolding discard
remove_self id w = record w {
  removed = w.removed ++ id ∷ [];
  entities = discard id w.entities;
  created = discard id w.created;
}

abbrev pub map_world : (World → World) → Option World → Option World
map_world f none = none
map_world f (some w) = some (f w)

abbrev pub then_world : Option World → (World → Option World) → Option World
then_world none f = none
then_world (some w) f = f w

-- `recurse` is the removal of an entity.
abbrev pub remove_child : (Text → World → Option World) → Text → World → Option World
remove_child recurse child w =
    if member child w.registry && member child w.entities
    then recurse child w
    else some (remove_directly child w)

-- The loop over the children of `parent`.
unfoldable pub remove_children :
    (Text → World → Option World) → Text → List Text → World → Option World
remove_children recurse parent [] w = some w
remove_children recurse parent (child ∷ rest) w =
    then_world (remove_child recurse child w)
      (λ u. remove_children recurse parent rest (unlink_child parent child u))

abbrev unless_initiated : Bool → World → Option World → Option World
unless_initiated true w result = some w
unless_initiated false w result = result

-- The depth of the recursion is bounded by the first argument.
unfoldable pub initiate_self_removal : ℕ → Text → World → Option World
initiate_self_removal zero id w = none
initiate_self_removal (suc depth) id w = unless_initiated (member id w.initiated) w (
    map_world (remove_self id)
      (remove_children (initiate_self_removal depth) id (w.children id) (begin_removal id w)))

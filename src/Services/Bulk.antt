-- ===== src/Services/Bulk.antt =====
-- custom_components/unifi_network_rules/services/rule_services.py: `async_bulk_update_rules`. The
-- calls of the API's queue and of Home Assistant do not raise.
pub mod Loops
pub mod Calls
pub mod Shadowed
mod Tests
use unifi_network_rules.Prelude.{
  ℕ, ◌+◌, String, Bool, true, false, not, ◌&&◌, ◌||◌, Option, none, some, List, [], ◌∷◌, ◌++◌,
  if◌then◌else◌,
}
use unifi_network_rules.Text.{Text, text_eq, contains, lower}
use unifi_network_rules.Sanitize.{is_nil}
use unifi_network_rules.Services.{QueuedCall, toggle_rule}

-- A rule of the coordinator's data: the object, by a number; what `get_rule_id` gives; its name,
-- empty if it has none; its `enabled`, as `toggle_rule_if_needed` reads it.
pub record BulkRule : Type 0 where
  pub object : ℕ
  pub unique_id : Option Text
  pub name : Text
  pub enabled : Option Bool

pub record Coordinator : Type 0 where
  pub has_api : Bool
  pub collections : List (String × List BulkRule)

-- An entry of the entity registry: whether it is a switch of this integration, its unique id, and
-- the name of its state, if it has a state.
pub record Entity : Type 0 where
  pub is_our_switch : Bool
  pub unique_id : Text
  pub state_name : Option Text

-- The calls that are queued, `updated_count`, and the refreshes.
pub record Bulk : Type 0 where
  pub calls : List QueuedCall
  pub updated_count : ℕ
  pub refreshes : ℕ

abbrev pub is_in_state : Bool → Option Bool → Bool
is_in_state desired none = false
is_in_state true (some state) = state
is_in_state false (some state) = not state

-- The call that is queued, if there is one. The answer is true in each case: the future is, and for
-- a type without a branch it is the `True` at the end.
unfoldable pub toggle_rule_if_needed : Bool → String → BulkRule → Option QueuedCall
unfolding toggle_rule
toggle_rule_if_needed desired rule_type rule =
    if is_in_state desired rule.enabled then none else toggle_rule desired rule_type rule.object

abbrev pub add_call : Option QueuedCall → List QueuedCall → List QueuedCall
add_call none calls = calls
add_call (some call) calls = calls ++ call ∷ []

unfoldable pub updated : Bool → String → BulkRule → Bulk → Bulk
unfolding toggle_rule_if_needed
updated desired rule_type rule b = record b {
  calls = add_call (toggle_rule_if_needed desired rule_type rule) b.calls;
  updated_count = b.updated_count + 1;
}

-- The loops over the rules of a coordinator, for those that are selected.
module _ (desired : Bool) (selects : BulkRule → Bool) where
  unfoldable pub update_rules : String → List BulkRule → Bulk → Bulk
  unfolding updated
  update_rules rule_type [] b = b
  update_rules rule_type (rule ∷ rules) b =
      let next = if selects rule then updated desired rule_type rule b else b in
      update_rules rule_type rules next

  unfoldable pub update_collections : List (String × List BulkRule) → Bulk → Bulk
  unfolding update_rules
  update_collections [] b = b
  update_collections ((rule_type, rules) ∷ collections) b =
      update_collections collections (update_rules rule_type rules b)

-- `not api or not coordinator.data`
abbrev pub is_empty : List (String × List BulkRule) → Bool
is_empty [] = true
is_empty (c ∷ collections) = false

abbrev pub is_passed_over : Coordinator → Bool
is_passed_over c = not c.has_api || is_empty c.collections

abbrev pub has_unique_id : Text → BulkRule → Bool
has_unique_id id rule = elim rule.unique_id [ none ↦ false | some other ↦ text_eq other id ]

unfoldable pub update_coordinators : Bool → Text → List Coordinator → Bulk → Bulk
unfolding update_collections
update_coordinators desired id [] b = b
update_coordinators desired id (c ∷ coordinators) b =
    let next =
      if is_passed_over c
      then b
      else update_collections desired (has_unique_id id) c.collections b in
    update_coordinators desired id coordinators next

-- `name and name_filter in name.lower()`
abbrev pub matches : Text → Text → Bool
matches name_filter name = not (is_nil name) && contains name_filter (lower name)

abbrev pub state_matches : Text → Option Text → Bool
state_matches name_filter none = false
state_matches name_filter (some name) = matches name_filter name

abbrev pub is_selected : Text → Entity → Bool
is_selected name_filter e = e.is_our_switch && state_matches name_filter e.state_name

-- The first loop, over the registry.
unfoldable pub update_by_entity : Bool → Text → List Entity → List Coordinator → Bulk → Bulk
unfolding update_coordinators contains lower
update_by_entity desired name_filter [] coordinators b = b
update_by_entity desired name_filter (e ∷ entities) coordinators b =
    let next =
      if is_selected name_filter e
      then update_coordinators desired e.unique_id coordinators b
      else b in
    update_by_entity desired name_filter entities coordinators next

abbrev is_there : Option Text → Bool
is_there none = false
is_there (some name) = true

-- The state of the entity that `find_entity_by_unique_id` finds.
unfoldable pub entity_has_state : List Entity → Text → Bool
unfolding text_eq
entity_has_state [] id = false
entity_has_state (e ∷ entities) id =
    let rest = entity_has_state entities id in
    if e.is_our_switch && text_eq e.unique_id id then is_there e.state_name else rest

abbrev pub is_handled : List Entity → BulkRule → Bool
is_handled entities rule = elim rule.unique_id [
  | none ↦ false
  | some id ↦ entity_has_state entities id
]

abbrev pub selects_by_name : Text → List Entity → BulkRule → Bool
selects_by_name name_filter entities rule =
    matches name_filter rule.name && not (is_handled entities rule)

-- The second loop, over the coordinators.
unfoldable pub update_by_name : Bool → Text → List Entity → List Coordinator → Bulk → Bulk
unfolding update_collections entity_has_state contains lower
update_by_name desired name_filter entities [] b = b
update_by_name desired name_filter entities (c ∷ coordinators) b =
    let done = update_collections desired (selects_by_name name_filter entities) c.collections b in
    let next = if is_passed_over c then b else record done { refreshes = done.refreshes + 1 } in
    update_by_name desired name_filter entities coordinators next

abbrev pub no_updates : Bulk
no_updates = record { calls = []; updated_count = 0; refreshes = 0 }

-- `none` is the answer that there are no coordinators.
unfoldable pub async_bulk_update_rules : Text → Bool → List Entity → List Coordinator → Option Bulk
unfolding update_by_entity update_by_name lower
async_bulk_update_rules name_filter desired entities [] = none
async_bulk_update_rules name_filter desired entities (c ∷ coordinators) = some (
    update_by_name desired (lower name_filter) entities (c ∷ coordinators)
      (update_by_entity desired (lower name_filter) entities (c ∷ coordinators) no_updates))

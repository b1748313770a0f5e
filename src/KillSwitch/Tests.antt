-- ===== src/KillSwitch/Tests.antt =====
-- A kill switch at concrete inputs.
use unifi_network_rules.Prelude.{
  ◌≡◌, refl, Bool, true, false, Option, none, some, List, [], ◌∷◌, ◌||◌, keep,
}
use unifi_network_rules.Text.{Text, codes, text_eq, lower}
use unifi_network_rules.IdSet.{member, add, discard}
use unifi_network_rules.Sanitize.{
  get_child_unique_id, sanitize_entity_id, replace_others, replace_hyphens, collapse, lstrip,
  rstrip,
}
use unifi_network_rules.RuleId.{typed, traffic_route, rule_prefix, get_rule_id}
use unifi_network_rules.Auth
use unifi_network_rules.Switch
use unifi_network_rules.Switch.{refused}
use unifi_network_rules.Api.Wrapper
use unifi_network_rules.Api.Wrapper.{Script, Caller, wrapper_operation}
use unifi_network_rules.KillSwitch.{
  Route, KillSwitch, init, find_parent, get_current_rule, is_on, async_toggle_rule,
  handle_operation_complete, kill_switch_id, kill_switch_call, set_pending,
  kill_switch_operation_id,
}
use unifi_network_rules.KillSwitch.Lookup.{get_current_rule-BelongsTo}
use unifi_network_rules.KillSwitch.Toggle.{
  missing_state, kill_switch_call-missing, Update, update_all, HasState, is_on-init,
}
use unifi_network_rules.KillSwitch.Created.{
  adds, missing, Creation, create_switch, create_traffic_route_kill_switch, create_all, NoneTwice,
}
use unifi_network_rules.KillSwitch.Created.Once.{create_all-NoneTwice}

abbrev route_with : Bool → Route
route_with state = record {
  object = 3;
  rule = typed traffic_route (some (codes "7"));
  enabled = true;
  raw = some (some state);
  attribute = none;
}

abbrev other_route : Route
other_route = record {
  object = 4;
  rule = typed traffic_route (some (codes "8"));
  enabled = true;
  raw = some none;
  attribute = none;
}

abbrev no_operations : Option (Text → Option Bool)
no_operations = some (λ id. none)

abbrev built : KillSwitch
built = record {
  base = record (Switch.init false) { optimistic_state = some true; optimistic_timestamp = 10 };
  rule_id = kill_switch_id (codes "unr_route_7");
  linked_parent_id = codes "unr_route_7";
  pending_operations = no_operations;
  calls = [];
}

route_id : get_rule_id (route_with true).rule ≡ some (codes "unr_route_7")
unfolding get_rule_id rule_prefix
route_id = refl

built_lem : init 10 no_operations (route_with true) ≡ some built
unfolding init get_rule_id rule_prefix
built_lem = refl

finds_route :
    (state : Bool)
    → get_current_rule (some (other_route ∷ route_with state ∷ [])) built ≡ some (route_with state)
unfolding get_rule_id find_parent text_eq rule_prefix
finds_route state =
    get_current_rule-BelongsTo (codes "unr_route_7") built (other_route ∷ route_with state ∷ [])
      (record { rule_id = refl; linked = refl; named = refl })

-- A controller that would answer that the kill switch is set.
abbrev called : Script
called = record {
  first = Wrapper.raised missing_state;
  other_path = Wrapper.returned none;
  again = Wrapper.returned none;
  again_other_path = Wrapper.returned none;
  now = 0;
  refresh = Auth.returned true;
  callback_raises = false;
}

abbrev new_caller : Caller
new_caller = record {
  api = record {
    recovery_in_progress = false;
    last_error_message = none;
    consecutive_auth_failures = 0;
    max_auth_failures = 5;
    rate_limited = false;
    rate_limit_until = 0;
    has_callback = false;
    callbacks = 0;
    base_path = none;
  };
  future = Wrapper.pending;
  calls = 0;
}

kill_switch_call-missing_example :
    let (begun, returns) =
      async_toggle_rule 20 none false (some (other_route ∷ route_with true ∷ [])) built in
    let after = handle_operation_complete 30 false (Switch.raised missing_state) begun in
    (returns ≡ true)
    × (begun.calls ≡ kill_switch_call (route_with true) ∷ [])
    × ((wrapper_operation called new_caller).0.future ≡ Wrapper.failed missing_state)
    × (after.base.optimistic_state ≡ some true)
    × (after.pending_operations
        ≡ set_pending (kill_switch_operation_id built) (some false) no_operations)
kill_switch_call-missing_example =
    kill_switch_call-missing 20 30 false (some (other_route ∷ route_with true ∷ []))
      (route_with true) built called new_caller (Wrapper.returned (some 1)) (finds_route true) refl
      refl

abbrev changed_elsewhere : List Update
changed_elsewhere =
    record { now = 60000; routes = other_route ∷ route_with false ∷ [] }
    ∷ record { now = 120000; routes = other_route ∷ route_with false ∷ [] }
    ∷ []

has_other_state :
    (u : Update) → u.routes ≡ (other_route ∷ route_with false ∷ []) → HasState built false u
unfolding HasState
has_other_state u h = rw (h, finds_route false) refl

is_on-init_example :
    is_on (some (other_route ∷ route_with false ∷ [])) (update_all changed_elsewhere built) ≡ true
is_on-init_example =
    is_on-init 10 no_operations (route_with true) built true changed_elsewhere
      (some (other_route ∷ route_with false ∷ [])) built_lem refl
      (
        has_other_state (record { now = 60000; routes = other_route ∷ route_with false ∷ [] }) refl,
        (
          has_other_state (record { now = 120000; routes = other_route ∷ route_with false ∷ [] })
              refl,
          tt,
        ),
      )

abbrev creation : Bool → Creation
creation return_entity = record {
  route = route_with true;
  return_entity = return_entity;
  platform = adds;
  registry_raises = false;
  build_raises = false;
}

-- The platform is missing at first.
abbrev three_calls : List Creation
three_calls = record (creation false) { platform = missing } ∷ creation true ∷ creation false ∷ []

given : (create_all three_calls []).1 ≡ codes "unr_route_7_kill_switch" ∷ []
unfolding create_all create_traffic_route_kill_switch create_switch member add discard get_rule_id
    rule_prefix text_eq keep get_child_unique_id sanitize_entity_id replace_others replace_hyphens
    collapse lstrip rstrip lower
given = refl

create_all-NoneTwice_example :
    let (now, ids) = create_all three_calls (codes "unr_route_8_kill_switch" ∷ []) in
    NoneTwice ids
    × ((k : Text) → member k ids ≡ true → member k (codes "unr_route_8_kill_switch" ∷ []) ≡ false)
    × ((k : Text)
        → member k now ≡ (member k (codes "unr_route_8_kill_switch" ∷ []) || member k ids))
create_all-NoneTwice_example =
    create_all-NoneTwice three_calls (codes "unr_route_8_kill_switch" ∷ [])
      (refl, (refl, (refl, tt)))

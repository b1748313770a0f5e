-- ===== src/State.antt =====
-- custom_components/unifi_network_rules/coordination/state_manager.py: `CoordinatorStateManager`. The
-- fetched data is a dictionary from rule types to lists. `check_for_device_state_changes` is in
-- State/Devices.antt.
pub mod Errors
pub mod Changes
pub mod Devices
mod Tests
use unifi_network_rules.Prelude.{
  ℕ, ◌+◌, String, Bool, true, false, not, ◌&&◌, ◌||◌, Option, none, some, List, [], ◌∷◌, length,
  map, any, leb, ltb, ◌==◌, if◌then◌else◌,
}
use text.Mathlib.Text.{◌==◌ as str_eq}
use unifi_network_rules.Dict.{Dict, has, get, put}

-- What the manager reads of a rule: the attributes `id` and `enabled`, and the same of its `raw`
-- data; `none` where the attribute or the key is missing.
pub record Rule : Type 0 where
  pub id : Option String
  pub raw_id : Option String
  pub enabled : Option Bool
  pub raw_enabled : Option Bool

abbrev pub FetchedData : Type 0
FetchedData = Dict (List Rule)

-- `data.get(key, [])`
abbrev or_empty : Option (List Rule) → List Rule
or_empty none = []
or_empty (some rules) = rules

unfoldable pub rules_of : String → FetchedData → List Rule
rules_of key fetched = or_empty (get key fetched)

pub record StateManager : Type 0 where
  pub in_error_state : Bool
  pub consecutive_errors : ℕ
  pub api_errors : ℕ
  pub last_successful_data : FetchedData
  pub initial_update_done : Bool

abbrev pub init : StateManager
init = record {
  in_error_state = false;
  consecutive_errors = 0;
  api_errors = 0;
  last_successful_data = [];
  initial_update_done = false;
}

abbrev pub counted_types : List String
counted_types =
    "port_forwards" ∷ "traffic_routes" ∷ "static_routes" ∷ "firewall_policies" ∷ "traffic_rules"
    ∷ "legacy_firewall_rules" ∷ "wlans" ∷ "firewall_zones" ∷ "qos_rules" ∷ "vpn_clients"
    ∷ "vpn_servers" ∷ "devices" ∷ "port_profiles" ∷ "networks" ∷ "nat_rules" ∷ []

abbrev pub enabled_types : List String
enabled_types =
    "port_forwards" ∷ "traffic_routes" ∷ "static_routes" ∷ "firewall_policies" ∷ "traffic_rules"
    ∷ "legacy_firewall_rules" ∷ "wlans" ∷ "qos_rules" ∷ "nat_rules" ∷ []

-- Python's `a or b` on texts and on Booleans, with `none` for `None`.
abbrev pub text_or : Option String → Option String → Option String
text_or none b = b
text_or (some a) b = if str_eq a "" then b else some a

abbrev pub flag_or : Option Bool → Option Bool → Option Bool
flag_or (some true) b = some true
flag_or (some false) b = b
flag_or none b = b

-- The dictionary from the ids of the rules to their flags; a rule with no id is passed over.
abbrev pub with_flag : Option String → Option Bool → Dict (Option Bool) → Dict (Option Bool)
with_flag none flag m = m
with_flag (some id) flag m = if str_eq id "" then m else put id flag m

unfoldable pub lookup_from : Dict (Option Bool) → List Rule → Dict (Option Bool)
lookup_from m [] = m
lookup_from m (r ∷ rules) =
    lookup_from (with_flag (text_or r.id r.raw_id) (flag_or r.enabled r.raw_enabled) m) rules

unfoldable pub flag_eq : Option Bool → Option Bool → Bool
flag_eq none none = true
flag_eq (some true) (some true) = true
flag_eq (some false) (some false) = true
flag_eq _ _ = false

-- `rule_id in new_lookup` and a flag that differs.
abbrev flag_differs : Option Bool → Option (Option Bool) → Bool
flag_differs old none = false
flag_differs old (some new) = not (flag_eq old new)

unfoldable pub flags_changed : Dict (Option Bool) → Dict (Option Bool) → Bool
flags_changed [] new = false
flags_changed ((id, flag) ∷ old) new = flag_differs flag (get id new) || flags_changed old new

unfoldable pub count_changed : FetchedData → FetchedData → String → Bool
count_changed previous new key = not (length (rules_of key previous) == length (rules_of key new))

unfoldable pub enabled_changed : FetchedData → FetchedData → String → Bool
enabled_changed previous new key =
    flags_changed (lookup_from [] (rules_of key previous)) (lookup_from [] (rules_of key new))

abbrev pub is_empty : FetchedData → Bool
is_empty [] = true
is_empty (e ∷ m) = false

unfoldable pub data_has_changes : FetchedData → FetchedData → Bool
data_has_changes previous new =
    if is_empty previous || is_empty new
    then false
    else any (count_changed previous new) counted_types
      || any (enabled_changed previous new) enabled_types

unfoldable pub track_error_state : Bool → StateManager → StateManager
track_error_state true s = record s {
  consecutive_errors = s.consecutive_errors + 1;
  api_errors = s.api_errors + 1;
  in_error_state = true;
}
track_error_state false s = record s { consecutive_errors = 0; in_error_state = false }

abbrev pub validated_types : List String
validated_types =
    "firewall_policies" ∷ "traffic_rules" ∷ "port_forwards" ∷ "qos_rules" ∷ "traffic_routes"
    ∷ "static_routes" ∷ "legacy_firewall_rules" ∷ "port_profiles" ∷ "networks" ∷ "devices"
    ∷ "nat_rules" ∷ []

abbrev pub preserved_types : List String
preserved_types =
    "firewall_policies" ∷ "traffic_rules" ∷ "port_forwards" ∷ "traffic_routes" ∷ "static_routes"
    ∷ "nat_rules" ∷ []

abbrev pub has_rules : FetchedData → String → Bool
has_rules fetched key = ltb 0 (length (rules_of key fetched))

-- `for key, value in self._last_successful_data.items(): if key in data: data[key] = value`
unfoldable pub use_last_valid : FetchedData → FetchedData → FetchedData
use_last_valid [] fetched = fetched
use_last_valid ((key, value) ∷ last) fetched =
    use_last_valid last (if has key fetched then put key value fetched else fetched)

-- `if not data.get(key) and previous_data.get(key): data[key] = previous_data[key]`
unfoldable pub preserve : FetchedData → List String → FetchedData → FetchedData
preserve previous [] fetched = fetched
preserve previous (key ∷ keys) fetched = preserve previous keys (
    if not (has_rules fetched key) && has_rules previous key
    then put key (rules_of key previous) fetched
    else fetched)

-- The new state, the data as it is left, and the answer.
pub record Validated : Type 0 where
  pub state : StateManager
  pub fetched : FetchedData
  pub answer : Bool

unfoldable pub validate_data_and_handle_errors :
    FetchedData → FetchedData → StateManager → Validated
validate_data_and_handle_errors fetched previous s =
    let data_valid = any (has_rules fetched) validated_types in
    if not data_valid && (not (is_empty previous) && any (has_rules previous) preserved_types)
    then (let s' = track_error_state true s in
        record {
          state = s';
          fetched =
              if leb 3 s'.consecutive_errors
              then use_last_valid s.last_successful_data fetched
              else preserve previous preserved_types fetched;
          answer = false;
        })
    else if data_valid
    then (let s' = track_error_state false s in
        record {
          state = record s' { last_successful_data = fetched };
          fetched = fetched;
          answer = true;
        })
    else record { state = s; fetched = fetched; answer = false }

unfoldable pub mark_initial_update_done : StateManager → StateManager
mark_initial_update_done s =
    if not s.initial_update_done then record s { initial_update_done = true } else s

unfoldable pub reset_error_state : StateManager → StateManager
reset_error_state s = record s { in_error_state = false; consecutive_errors = 0 }

pub record StateStatus : Type 0 where
  pub in_error_state : Bool
  pub consecutive_errors : ℕ
  pub api_errors : ℕ
  pub initial_update_done : Bool
  pub has_last_successful_data : Bool
  pub last_successful_data_types : List String

unfoldable get_state_status : StateManager → StateStatus
get_state_status s = record {
  in_error_state = s.in_error_state;
  consecutive_errors = s.consecutive_errors;
  api_errors = s.api_errors;
  initial_update_done = s.initial_update_done;
  has_last_successful_data = not (is_empty s.last_successful_data);
  last_successful_data_types = map (λ e. e.0) s.last_successful_data;
}

-- ===== src/Coordinator.antt =====
-- custom_components/unifi_network_rules/coordination/coordinator.py: the update cycle of
-- `UnifiRuleUpdateCoordinator`, which joins the state manager and the authentication manager with
-- the calls of the change detector, the entity manager and smart polling. These calls do not raise.
pub mod Cycles
pub mod Removals
mod Tests
use unifi_network_rules.Prelude.{
  Bool, true, false, not, ◌&&◌, ◌||◌, Option, none, some, List, [], ◌∷◌, ◌++◌, if◌then◌else◌,
}
use unifi_network_rules.Text.{Text, codes, contains}
use unifi_network_rules.State.{
  FetchedData, StateManager, is_empty, data_has_changes, validate_data_and_handle_errors,
  mark_initial_update_done,
}
use unifi_network_rules.Auth.{
  AuthManager, auth_failure, RefreshEnd, handle_authentication_error, check_auth_error,
  reset_authentication_state,
}

-- The calls of the other parts, in their order.
pub data Call : Type 0 where
  detect_and_fire_changes check_for_deleted_rules discover_and_add_new_entities : FetchedData → Call
  register_external_change_detected : Call

-- `data` is empty where the coordinator has none. `collections` stands for the attributes with the
-- rules of each type.
pub record Coordinator : Type 0 where
  pub data_now : FetchedData
  pub state : StateManager
  pub auth : AuthManager
  pub collections : FetchedData
  pub calls : List Call

pub data FetchEnd : Type 0 where
  got : FetchedData → FetchEnd
  failed : Text → FetchEnd

-- What an update finds: how the fetch ends, `_last_error_message` of the API, how a refresh of the
-- session would end, and `is_in_smart_poll_cycle`.
pub record Found : Type 0 where
  pub fetch : FetchEnd
  pub last_error_message : Text
  pub refresh : RefreshEnd
  pub in_smart_poll_cycle : Bool

pub data Outcome : Type 0 where
  updated : FetchedData → Outcome
  update_failed : Text → Outcome

abbrev signalled : Text → AuthManager → AuthManager
signalled message auth =
    if contains (codes "401 Unauthorized") message || contains (codes "403 Forbidden") message
    then record auth { signals = auth.signals ++ auth_failure ∷ [] }
    else auth

abbrev pub external_change : Bool → List Call
external_change true = register_external_change_detected ∷ []
external_change false = []

-- After data was accepted.
unfoldable pub process_data : Found → FetchedData → Coordinator → Coordinator
process_data found d c = record c {
  state = mark_initial_update_done c.state;
  auth = reset_authentication_state (signalled found.last_error_message c.auth);
  collections = d;
  calls =
      c.calls
      ++ (detect_and_fire_changes d
          ∷ check_for_deleted_rules d
          ∷ discover_and_add_new_entities d
          ∷ external_change (
              not (is_empty c.data_now)
              && (data_has_changes c.data_now d && not found.in_smart_poll_cycle)));
}

unfoldable pub handle_fetched : Found → FetchedData → Coordinator → Outcome × Coordinator
unfolding process_data validate_data_and_handle_errors
handle_fetched found d c =
    let v = validate_data_and_handle_errors d c.data_now c.state in
    let t = record c { state = v.state } in
    if not v.answer && not (is_empty v.state.last_successful_data)
    then (updated v.state.last_successful_data, t)
    else (updated v.fetched, process_data found v.fetched t)

-- A recovery and its failure both end with the data that there is.
unfoldable pub handle_error : Found → Text → Coordinator → Outcome × Coordinator
handle_error found error c =
    let auth =
      if check_auth_error error
      then (handle_authentication_error error found.refresh c.auth).0
      else c.auth in
    (
      if not (is_empty c.data_now) then updated c.data_now else update_failed error,
      record c { auth = auth },
    )

abbrev pub fetch_and_handle : Found → FetchEnd → Coordinator → Outcome × Coordinator
fetch_and_handle found (got d) c = handle_fetched found d c
fetch_and_handle found (failed error) c = handle_error found error c

-- What there is of older data.
abbrev pub cached : Coordinator → FetchedData
cached c = if not (is_empty c.data_now) then c.data_now else c.state.last_successful_data

-- Before the lock: an update that finds another one under way returns older data, if there is any;
-- else it waits. `locked` is whether another update is under way.
unfoldable pub before_lock : Bool → Coordinator → Option FetchedData
before_lock locked c = if locked && not (is_empty (cached c)) then some (cached c) else none

-- With the lock.
unfoldable pub async_update_data : Found → Coordinator → Outcome × Coordinator
unfolding handle_fetched handle_error
async_update_data found c =
    if c.auth.authentication_in_progress && not (is_empty (cached c))
    then (updated (cached c), c)
    else fetch_and_handle found found.fetch c

-- ===== src/Auth.antt =====
-- custom_components/unifi_network_rules/coordination/auth_manager.py: `CoordinatorAuthManager`, with
-- the expiry tasks that it has in the event loop. Times are in seconds.
pub mod Operations
pub mod Recovery
mod Tests
use unifi_network_rules.Prelude.{
  ℕ, ◌+◌, String, Bool, true, false, not, ◌&&◌, ◌||◌, Option, none, some, List, [], ◌∷◌, ◌++◌, map,
  any, ltb, leb, length, if◌then◌else◌,
}
use unifi_network_rules.Dict.{Dict, has, put, delete}
use unifi_network_rules.Text.{Text, codes, contains, lower}

-- A `cleanup_op` task: the rule, and when its sleep ends.
pub record Expiry : Type 0 where
  pub rule : String
  pub due : ℕ

pub data Signal : Type 0 where
  auth_failure auth_restored : Signal

pub record AuthManager : Type 0 where
  pub authentication_in_progress : Bool
  pub auth_failures : ℕ
  pub max_auth_failures : ℕ
  pub ha_initiated_operations : Dict ℕ
  pub expiries : List Expiry
  pub signals : List Signal

abbrev pub init : AuthManager
init = record {
  authentication_in_progress = false;
  auth_failures = 0;
  max_auth_failures = 5;
  ha_initiated_operations = [];
  expiries = [];
  signals = [];
}

unfoldable pub register_ha_initiated_operation : ℕ → ℕ → String → AuthManager → AuthManager
register_ha_initiated_operation now timeout rule_id s = record s {
  ha_initiated_operations = put rule_id now s.ha_initiated_operations;
  expiries = s.expiries ++ record { rule = rule_id; due = now + timeout } ∷ [];
}

-- The end of the sleep of a `cleanup_op` task.
unfoldable pub cleanup_op : String → AuthManager → AuthManager
cleanup_op rule_id s = record s {
  ha_initiated_operations =
      if has rule_id s.ha_initiated_operations
      then delete rule_id s.ha_initiated_operations
      else s.ha_initiated_operations;
}

-- The tasks whose sleep is over at the time `now`, in the order in which they were created.
unfoldable pub expire_all : ℕ → List Expiry → AuthManager → AuthManager
expire_all now [] s = record s { expiries = [] }
expire_all now (e ∷ es) s =
    let rest = expire_all now es (if leb e.due now then cleanup_op e.rule s else s) in
    record rest { expiries = if leb e.due now then rest.expiries else e ∷ rest.expiries }

unfoldable pub expire : ℕ → AuthManager → AuthManager
expire now s = expire_all now s.expiries s

unfoldable pub check_and_consume_ha_initiated_operation : String → AuthManager → AuthManager × Bool
check_and_consume_ha_initiated_operation rule_id s =
    if has rule_id s.ha_initiated_operations
    then (record s { ha_initiated_operations = delete rule_id s.ha_initiated_operations }, true)
    else (s, false)

-- The test on the text of an error; `handle_authentication_error` makes the same one.
unfoldable pub check_auth_error : Text → Bool
check_auth_error error =
    contains (codes "401 unauthorized") (lower error)
    || contains (codes "403 forbidden") (lower error)

-- How `self.api.refresh_session(force=True)` ends: by a value, or by an exception.
pub data RefreshEnd : Type 0 where
  returned : Bool → RefreshEnd
  raised : RefreshEnd

-- `handle_authentication_error` up to the refresh, and what it goes on with.
pub data Next : Type 0 where
  not_auth_error refresh give_up : Next

unfoldable pub begin_authentication_error : Text → AuthManager → AuthManager × Next
unfolding check_auth_error
begin_authentication_error error s =
    if check_auth_error error
    then (
      record s {
        auth_failures = s.auth_failures + 1;
        authentication_in_progress = ltb (s.auth_failures + 1) s.max_auth_failures;
        signals = s.signals ++ auth_failure ∷ [];
      },
      (if ltb (s.auth_failures + 1) s.max_auth_failures then refresh else give_up),
    )
    else (s, not_auth_error)

-- From the end of the refresh on; the value that the refresh returned is not looked at.
unfoldable pub end_refresh : RefreshEnd → AuthManager → AuthManager × Bool
end_refresh (returned value) s = (
  record s { signals = s.signals ++ auth_restored ∷ []; authentication_in_progress = false },
  true,
)
end_refresh raised s = (record s { authentication_in_progress = false }, false)

abbrev proceed : RefreshEnd → Next → AuthManager → AuthManager × Bool
proceed r not_auth_error s = (s, false)
proceed r refresh s = end_refresh r s
proceed r give_up s = (s, false)

-- The whole handler, with nothing in between.
unfoldable pub handle_authentication_error : Text → RefreshEnd → AuthManager → AuthManager × Bool
handle_authentication_error error r s =
    let (s', next) = begin_authentication_error error s in proceed r next s'

-- The body of the `try` is empty, so no error is handled.
unfoldable validate_api_session : AuthManager → Bool
validate_api_session s = not s.authentication_in_progress

unfoldable pub reset_authentication_state : AuthManager → AuthManager
reset_authentication_state s =
    if ltb 0 s.auth_failures
    then record s { auth_failures = 0; authentication_in_progress = false }
    else s

pub record AuthStatus : Type 0 where
  pub auth_failures : ℕ
  pub max_auth_failures : ℕ
  pub authentication_in_progress : Bool
  pub ha_initiated_operations_count : ℕ
  pub ha_initiated_operations : List String

unfoldable get_auth_status : AuthManager → AuthStatus
get_auth_status s = record {
  auth_failures = s.auth_failures;
  max_auth_failures = s.max_auth_failures;
  authentication_in_progress = s.authentication_in_progress;
  ha_initiated_operations_count = length s.ha_initiated_operations;
  ha_initiated_operations = map (λ e. e.0) s.ha_initiated_operations;
}

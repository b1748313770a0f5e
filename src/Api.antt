-- ===== src/Api.antt =====
-- custom_components/unifi_network_rules/udm/api.py: what `UDMAPI` adds to its parts, the recovery
-- from authentication failures and the wrapper of a queued operation. Times are in seconds.
pub mod Wrapper
pub mod Recovery
pub mod Caller
pub mod Retry
mod Tests
use unifi_network_rules.Prelude.{
  ℕ, ◌+◌, ◌-◌, ◌^◌, Bool, true, false, not, ◌||◌, Option, none, some, ◌++◌, leb, ltb, if◌then◌else◌,
}
use unifi_network_rules.Text.{Text, codes, contains, lower, replace}
use unifi_network_rules.Auth.{RefreshEnd, returned, raised}
use unifi_network_rules.Session.{lstrip_slash}

-- The fields that `handle_auth_failure` and `_handle_path_error` use; `base_path` is the
-- controller's, `none` where it has no such attribute; `callbacks` counts the calls of the callback.
pub record Api : Type 0 where
  pub recovery_in_progress : Bool
  pub last_error_message : Option Text
  pub consecutive_auth_failures : ℕ
  pub max_auth_failures : ℕ
  pub rate_limited : Bool
  pub rate_limit_until : ℕ
  pub has_callback : Bool
  pub callbacks : ℕ
  pub base_path : Option Text

unfoldable pub init : Bool → Option Text → Api
init has_callback base_path = record {
  recovery_in_progress = false;
  last_error_message = none;
  consecutive_auth_failures = 0;
  max_auth_failures = 5;
  rate_limited = false;
  rate_limit_until = 0;
  has_callback = has_callback;
  callbacks = 0;
  base_path = base_path;
}

-- `min(30, 2 ** (failures - max))`
unfoldable pub auth_backoff_time : ℕ → ℕ → ℕ
auth_backoff_time failures max_failures =
    let doubled = 2 ^ (failures - max_failures) in if ltb doubled 30 then doubled else 30

-- Up to the refresh of the session; the answer is whether the recovery goes on.
unfoldable pub begin_auth_failure : ℕ → Option Text → Api → Api × Bool
unfolding auth_backoff_time
begin_auth_failure now message a =
    if a.recovery_in_progress
    then (a, false)
    else let failures = a.consecutive_auth_failures + 1 in
      let limited = leb a.max_auth_failures failures in
      (
        record a {
          recovery_in_progress = true;
          last_error_message = message;
          consecutive_auth_failures = failures;
          rate_limited = if limited then true else a.rate_limited;
          rate_limit_until =
              if limited
              then now + auth_backoff_time failures a.max_auth_failures
              else a.rate_limit_until;
        },
        true,
      )

-- From the end of the refresh on; `callback_raises` is how the callback ends, if there is one.
unfoldable pub end_auth_failure : RefreshEnd → Bool → Api → Api × Bool
end_auth_failure (returned true) callback_raises a = (
  record a {
    recovery_in_progress = false;
    consecutive_auth_failures = 0;
    rate_limited = false;
    callbacks = if a.has_callback then a.callbacks + 1 else a.callbacks;
  },
  not a.has_callback || not callback_raises,
)
end_auth_failure (returned false) callback_raises a =
    (record a { recovery_in_progress = false }, false)
end_auth_failure raised callback_raises a = (record a { recovery_in_progress = false }, false)

abbrev go_on : RefreshEnd → Bool → Api × Bool → Api × Bool
go_on refresh callback_raises (a, true) = end_auth_failure refresh callback_raises a
go_on refresh callback_raises (a, false) = (a, false)

-- The whole of it, with nothing in between.
unfoldable pub handle_auth_failure : ℕ → Option Text → RefreshEnd → Bool → Api → Api × Bool
unfolding begin_auth_failure end_auth_failure
handle_auth_failure now message refresh callback_raises a =
    go_on refresh callback_raises (begin_auth_failure now message a)

-- The proxy prefix is taken off where it is there, and put on where it is not.
unfoldable pub toggled_path : Text → Text
toggled_path path =
    if contains (codes "/proxy/network") path
    then replace (codes "/proxy/network/") (codes "/") path
    else codes "/proxy/network/" ++ lstrip_slash path

-- ===== src/Api/Recovery.antt =====
-- udm/api.py: the state of `UDMAPI` before and after a recovery from an authentication failure.
use unifi_network_rules.Prelude.{
  ℕ, ◌+◌, ◌≤◌, ◌≡◌, refl, Bool, true, false, not, ◌&&◌, ◌||◌, Option, arith, leb, if◌then◌else◌,
}
use unifi_network_rules.Text.{Text}
use unifi_network_rules.Auth.{RefreshEnd, returned, raised}
use unifi_network_rules.Api.{
  Api, auth_backoff_time, begin_auth_failure, end_auth_failure, handle_auth_failure,
}

auth_backoff_time-le : (failures max_failures : ℕ) → auth_backoff_time failures max_failures ≤ 30
unfolding auth_backoff_time
auth_backoff_time-le failures max_failures = ground arith

-- Whether the session was refreshed.
abbrev pub is_refreshed : RefreshEnd → Bool
is_refreshed (returned value) = value
is_refreshed raised = false

-- A recovery that begins while another is in progress changes nothing and reports failure. One that
-- begins while none is leaves none in progress and keeps the message; it reports success exactly if
-- the session was refreshed and no callback raised. The counter is reset, and the rate limit lifted,
-- exactly if the session was refreshed; otherwise the counter goes up by one, and from the maximal
-- number of failures on the limit is set, to end within thirty seconds.
handle_auth_failure_lem :
    (now : ℕ) (message : Option Text) (refresh : RefreshEnd) (callback_raises : Bool) (a : Api)
    → a.recovery_in_progress ≡ false
    → let busy = record a { recovery_in_progress = true } in
      let r = handle_auth_failure now message refresh callback_raises a in
      let failures = a.consecutive_auth_failures + 1 in
      let fine = is_refreshed refresh in
      (handle_auth_failure now message refresh callback_raises busy ≡ (busy, false))
      × (r.0.recovery_in_progress ≡ false)
      × (r.0.last_error_message ≡ message)
      × (r.1 ≡ (fine && (not a.has_callback || not callback_raises)))
      × (r.0.consecutive_auth_failures ≡ (if fine then 0 else failures))
      × (r.0.rate_limited ≡ (not fine && (leb a.max_auth_failures failures || a.rate_limited)))
      × (r.0.rate_limit_until
          ≤ (if leb a.max_auth_failures failures then now + 30 else a.rate_limit_until))
unfolding handle_auth_failure begin_auth_failure end_auth_failure
handle_auth_failure_lem now message (returned true) callback_raises a idle =
    let le = auth_backoff_time-le (a.consecutive_auth_failures + 1) a.max_auth_failures in
    (refl, ground arith, ground arith, ground arith, ground arith, ground arith, ground (arith, le))
handle_auth_failure_lem now message (returned false) callback_raises a idle =
    let le = auth_backoff_time-le (a.consecutive_auth_failures + 1) a.max_auth_failures in
    (refl, ground arith, ground arith, ground arith, ground arith, ground arith, ground (arith, le))
handle_auth_failure_lem now message raised callback_raises a idle =
    let le = auth_backoff_time-le (a.consecutive_auth_failures + 1) a.max_auth_failures in
    (refl, ground arith, ground arith, ground arith, ground arith, ground arith, ground (arith, le))

-- ===== src/Auth/Recovery.antt =====
-- What follows an authentication error.
use unifi_network_rules.Prelude.{
  ℕ, ◌+◌, ◌-◌, ◌≤◌, ◌<◌, ◌≡◌, Bool, true, false, List, [], ◌∷◌, arith, ltb, ◌&&◌, if◌then◌else◌,
}
use unifi_network_rules.Text.{Text}
use unifi_network_rules.Auth.{
  AuthManager, RefreshEnd, raised, returned, check_auth_error, begin_authentication_error,
  end_refresh, handle_authentication_error,
}

-- The handler of an error ends with no authentication in progress, whatever the error and the
-- refresh were, if none was in progress when it began; it counts a failure exactly if the error is
-- one of authentication, and reports a recovery only if fewer than the maximal number of failures
-- have been counted, this one included, and the refresh did not raise.
pub handle_authentication_error_lem :
    (error : Text) (value : Bool) (s : AuthManager)
    → s.authentication_in_progress ≡ false
    → let a = check_auth_error error in
      let h = handle_authentication_error error (returned value) s in
      let x = handle_authentication_error error raised s in
      (h.0.authentication_in_progress ≡ false)
      × (x.0.authentication_in_progress ≡ false)
      × (h.0.auth_failures ≡ s.auth_failures + (if a then 1 else 0))
      × (x.0.auth_failures ≡ s.auth_failures + (if a then 1 else 0))
      × (h.1 ≡ (a && ltb (s.auth_failures + 1) s.max_auth_failures))
      × (x.1 ≡ false)
unfolding handle_authentication_error begin_authentication_error end_refresh
handle_authentication_error_lem error value s i =
    (ground arith, ground arith, ground arith, ground arith, ground arith, ground arith)

-- The answers to a row of errors, each of which the refresh that follows it ends as given.
unfoldable pub recoveries : List (Text × RefreshEnd) → AuthManager → ℕ
recoveries [] s = 0
recoveries ((error, r) ∷ rest) s =
    let (s', recovered) = handle_authentication_error error r s in
    (if recovered then 1 else 0) + recoveries rest s'

record Counts (s t : AuthManager) (recovered : Bool) : Type 0 where
  counted : s.auth_failures + (if recovered then 1 else 0) ≤ t.auth_failures
  limit : t.max_auth_failures ≡ s.max_auth_failures
  allowed : recovered ≡ true → s.auth_failures + 1 < s.max_auth_failures

handle-Counts :
    (error : Text) (r : RefreshEnd) (s : AuthManager)
    → Counts s (handle_authentication_error error r s).0 (handle_authentication_error error r s).1
unfolding handle_authentication_error begin_authentication_error end_refresh
handle-Counts error (returned value) s = record {
  counted = ground arith;
  limit = ground arith;
  allowed = ground arith;
}
handle-Counts error raised s = record {
  counted = ground arith;
  limit = ground arith;
  allowed = ground arith;
}

-- In a row of errors with no reset in between, fewer recoveries are reported than
-- `max_auth_failures`, less the failures counted before: after that the handler gives up.
pub recoveries-le :
    (errors : List (Text × RefreshEnd)) (s : AuthManager)
    → recoveries errors s ≤ s.max_auth_failures - 1 - s.auth_failures
unfolding recoveries
recoveries-le [] s = omega arith
recoveries-le ((error, r) ∷ rest) s =
    let h = handle_authentication_error error r s in
    let c : Counts s h.0 h.1 = handle-Counts error r s in
    ground (arith, c.counted, c.limit, c.allowed, recoveries-le rest h.0)

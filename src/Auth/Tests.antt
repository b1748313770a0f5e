-- ===== src/Auth/Tests.antt =====
-- Flags and recoveries of the authentication manager, and its theorems at concrete inputs.
use unifi_network_rules.Prelude.{◌≡◌, refl, true, false, List, [], ◌∷◌}
use unifi_network_rules.Text.{Text, codes, contains, lower}
use unifi_network_rules.Dict.{has, put, delete}
use unifi_network_rules.Auth.{
  RefreshEnd, init, register_ha_initiated_operation, cleanup_op, expire_all, expire,
  check_and_consume_ha_initiated_operation, check_auth_error, returned, begin_authentication_error,
  end_refresh, handle_authentication_error,
}
use unifi_network_rules.Auth.Recovery.{recoveries}

program : Unit {0}
unfolding contains lower has put delete register_ha_initiated_operation cleanup_op expire_all expire
    check_and_consume_ha_initiated_operation check_auth_error begin_authentication_error end_refresh
    handle_authentication_error recoveries
program = tt

abbrev unauthorized : Text
unauthorized = codes "Status 401 Unauthorized"

abbrev six_errors : List (Text × RefreshEnd)
six_errors =
    (unauthorized, returned true)
    ∷ (unauthorized, returned false)
    ∷ (unauthorized, returned true)
    ∷ (unauthorized, returned true)
    ∷ (unauthorized, returned true)
    ∷ (unauthorized, returned true)
    ∷ []

four_recoveries : recoveries six_errors init ≡ 4
unfolding program
four_recoveries = refl

-- ===== src/State/Tests.antt =====
-- Validations of fetched data, and the theorems of the state manager at concrete inputs.
use unifi_network_rules.Prelude.{
  String, ◌≡◌, refl, Bool, true, false, not, none, some, [], ◌∷◌, any, ◌&&◌, if◌then◌else◌,
}
use unifi_network_rules.Dict.{has, get, put}
use unifi_network_rules.State.{
  FetchedData, Rule, StateManager, rules_of, init, lookup_from, flag_eq, flags_changed,
  count_changed, enabled_changed, data_has_changes, track_error_state, use_last_valid, preserve,
  validate_data_and_handle_errors, mark_initial_update_done, reset_error_state,
}
use unifi_network_rules.State.Errors.{validated, step, run}
use unifi_network_rules.Auth.{AuthManager, register_ha_initiated_operation}
use unifi_network_rules.Auth
use unifi_network_rules.State.Devices.{DeviceData, lookup_in, check_for_device_state_changes}
use unifi_network_rules.State.Devices.Triggers.{led_differs, triggers_for, check-triggers}

program : Unit {0}
unfolding any has get put rules_of lookup_from flag_eq flags_changed count_changed enabled_changed
    data_has_changes track_error_state use_last_valid preserve validate_data_and_handle_errors
    mark_initial_update_done reset_error_state step run
program = tt

abbrev a_rule : Bool → Rule
a_rule b = record { id = some "a"; raw_id = none; enabled = some b; raw_enabled = none }

abbrev on_data : FetchedData
on_data = ("nat_rules", a_rule true ∷ []) ∷ []

abbrev off_data : FetchedData
off_data = ("nat_rules", a_rule false ∷ []) ∷ []

abbrev empty_data : FetchedData
empty_data = ("nat_rules", []) ∷ ("wlans", []) ∷ []

toggle_is_a_change : data_has_changes on_data off_data ≡ true
unfolding program
toggle_is_a_change = refl

-- One good fetch, then two empty ones.
abbrev failing : StateManager
failing =
    run (validated on_data [] ∷ validated empty_data on_data ∷ validated empty_data on_data ∷ [])
      init

abbrev with_policy : FetchedData
with_policy = ("nat_rules", a_rule true ∷ []) ∷ ("oon_policies", a_rule true ∷ []) ∷ []

-- Two devices, whose LEDs are both on or both off.
abbrev two_devices : String → DeviceData
two_devices led =
    (
      "devices",
      record { mac = some (some "aa"); id = none; led_override = some led; name = some "Attic" }
          ∷ record { mac = none; id = some (some "bb"); led_override = some led; name = none }
          ∷ [],
    )
    ∷ []

-- Home Assistant has begun a change of the first device.
abbrev flagged : AuthManager
flagged = register_ha_initiated_operation 100 15 "aa" Auth.init

check-triggers_example :
    let differs =
      led_differs
        (get "bb" (lookup_in (two_devices "on")))
        (get "bb" (lookup_in (two_devices "off"))) in
    let flag = has "bb" flagged.ha_initiated_operations in
    let c = check_for_device_state_changes (two_devices "on") (two_devices "off") flagged in
    (triggers_for "bb" c.triggers ≡ (if differs && not flag then 1 else 0))
    × (has "bb" c.manager.ha_initiated_operations ≡ (flag && not differs))
check-triggers_example =
    check-triggers "bb" (two_devices "on") (two_devices "off") flagged refl refl

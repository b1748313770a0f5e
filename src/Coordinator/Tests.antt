-- ===== src/Coordinator/Tests.antt =====
-- Updates at concrete inputs.
use unifi_network_rules.Prelude.{◌≡◌, refl, true, false, none, some, [], ◌∷◌, any, All}
use unifi_network_rules.Text.{contains, starts_with, lower}
use unifi_network_rules.Dict.{get, put, has}
use unifi_network_rules.State.{
  FetchedData, Rule, is_empty, rules_of, track_error_state, preserve,
  validate_data_and_handle_errors, mark_initial_update_done,
}
use unifi_network_rules.State
use unifi_network_rules.Auth
use unifi_network_rules.Auth.{returned}
use unifi_network_rules.Coordinator.{
  detect_and_fire_changes, check_for_deleted_rules, discover_and_add_new_entities, Coordinator, got,
  Found, process_data, handle_fetched, async_update_data,
}
use unifi_network_rules.Coordinator.Removals.{OnValid, refreshed, run, run-OnValid}

program : Unit {0}
unfolding any contains starts_with lower get put has rules_of track_error_state preserve
    validate_data_and_handle_errors mark_initial_update_done process_data handle_fetched
    async_update_data refreshed run
program = tt

abbrev a_rule : Rule
a_rule = record { id = some "a"; raw_id = none; enabled = some true; raw_enabled = none }

abbrev some_data : FetchedData
some_data = ("nat_rules", a_rule ∷ []) ∷ []

abbrev found : FetchedData → Found
found d = record {
  fetch = got d;
  last_error_message = [];
  refresh = returned true;
  in_smart_poll_cycle = false;
}

abbrev at_start : Coordinator
at_start = record {
  data_now = [];
  state = State.init;
  auth = Auth.init;
  collections = [];
  calls = [];
}

abbrev running : Coordinator
running = record at_start {
  data_now = some_data;
  state = record State.init { last_successful_data = some_data };
}

first_update :
    (async_update_data (found some_data) at_start).1.calls
    ≡ detect_and_fire_changes some_data
      ∷ check_for_deleted_rules some_data
      ∷ discover_and_add_new_entities some_data
      ∷ []
unfolding program
first_update = refl

run-OnValid_example : All OnValid (run (found some_data ∷ found [] ∷ []) running).calls
run-OnValid_example = run-OnValid (found some_data ∷ found [] ∷ []) running refl refl

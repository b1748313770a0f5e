-- ===== src/Fetcher/Tests.antt =====
-- A fetch at concrete inputs.
use unifi_network_rules.Prelude.{
  ◌≡◌, refl, String, true, none, some, [], ◌∷◌, any, keep, if◌then◌else◌,
}
use text.Mathlib.Text.{◌==◌}
use unifi_network_rules.Text.{codes, text_eq, contains, starts_with, lower}
use unifi_network_rules.Dict.{get, put}
use unifi_network_rules.IdSet.{member, add}
use unifi_network_rules.Session.{init}
use unifi_network_rules.Fetcher.{
  Item, RulesData, returned, raised, items_of, oon_policy_names, normalized, strip_left,
  strip_right, filter_type, filter_oon_policy_duplicates,
}
use unifi_network_rules.Fetcher.Cycle.{
  Answers, Fetcher, is_rate_limited, refresh_session_if_needed, fetch_all_entity_data,
}
use unifi_network_rules.Fetcher.Errors.{fails, obtained, has_failed, data_of}
use unifi_network_rules.Fetcher.Isolation.{fetch_all_entity_data_lem}

program : Unit {0}
unfolding any keep text_eq contains starts_with lower get put member add oon_policy_names normalized
    strip_left strip_right filter_type filter_oon_policy_duplicates is_rate_limited
    refresh_session_if_needed
program = tt

abbrev item : String → Item
item name = record {
  has_id = true;
  name = some (codes name);
  raw_name = none;
  description = none;
  raw_description = none;
}

abbrev some_data : RulesData
some_data =
    ("oon_policies", item "Kids " ∷ []) ∷ ("qos_rules", item "Video" ∷ item " kids" ∷ []) ∷ []

one_left : items_of "qos_rules" (filter_oon_policy_duplicates some_data) ≡ item "Video" ∷ []
unfolding program
one_left = refl

-- The call for the wireless networks ends in an error 404, and its repetition does not.
abbrev some_answers : Answers
some_answers = record {
  of_type = λ key. if key == "wlans" then raised (codes "404 Not Found") else returned [];
  again = λ key. returned (item "guests" ∷ []);
  devices = raised (codes "timeout");
  port_profiles = returned [];
  refresh = some true;
}

abbrev at_start : Fetcher
at_start = record {
  rate_limited = true;
  rate_limit_until = 10;
  last_session_refresh = 0;
  last_successful_data = [];
  session = init (codes "/");
}

fetch_all_entity_data_example :
    let r = (fetch_all_entity_data 400 some_answers at_start).0 in
    (has_failed r ≡ fails some_answers)
    × (get "wlans" (data_of r) ≡ (
        if fails some_answers
        then none
        else some (obtained (some_answers.of_type "wlans") (some_answers.again "wlans"))))
unfolding program
fetch_all_entity_data_example =
    fetch_all_entity_data_lem "wlans" 400 some_answers at_start refl refl refl refl

-- ===== src/Detector/KillSwitch.antt =====
-- unified_change_detector.py: a kill switch of a traffic route that is toggled, from the data to the
-- event.
use Prim.Native.String.{◌++◌}
use unifi_network_rules.Prelude.{String, Bool, not, Option, some, List, [], ◌∷◌, if◌then◌else◌}
use unifi_network_rules.Dict.{Dict, put}
use unifi_network_rules.Value.{Value, bool, str}
use unifi_network_rules.Detector.{EntityState, enabled, disabled, get_null, or_else}
use unifi_network_rules.Detector.Creation.{ChangeEvent, verbatim, given}
use unifi_network_rules.Detector.Detection.{Entities}
use unifi_network_rules.Detector.Snapshot.{
  Entity, typed, put_some, kill_switch_id, kill_switch_data, take,
}

-- The state of a route, from its raw data, whose kill switch has the value, and its `enabled`, if the
-- route has one; and that state without the kill switch.
module _ (m : EntityState) (on : Option Value) where
  abbrev pub route_with : Bool → EntityState
  route_with b = put_some "enabled" on (put "kill_switch_enabled" (bool b) m)

  abbrev pub route_rest : EntityState
  route_rest = put_some "enabled" on m

abbrev pub parent_name : EntityState → String → Value
parent_name m s =
    or_else (get_null "name" m) (or_else (get_null "description" m) (str ("Route " ++ take 8 s)))

-- The data of a controller with one traffic route, and the entries of its snapshot. Routes have a
-- class, with their raw data.
abbrev pub one_route : Option String → EntityState → Option Value → Bool → Dict (List Entity)
one_route rule_id m on b =
    (
      "traffic_routes",
      record { form = typed (put "kill_switch_enabled" (bool b) m) on; rule_id = rule_id } ∷ [],
    )
    ∷ []

module _ (format : Value → String) (m : EntityState) (on : Option Value) (s : String) where
  abbrev pub switch_state : Bool → EntityState
  switch_state b = kill_switch_data format (kill_switch_id s) s (bool b) (parent_name m s)

  abbrev route_entries : Bool → Entities
  route_entries b = (s, route_with m on b) ∷ (kill_switch_id s, switch_state b) ∷ []

  abbrev pub switch_event : Bool → ChangeEvent
  switch_event b = record {
    unique_id = verbatim (str (kill_switch_id s));
    rule_id = str (kill_switch_id s);
    change_type = "traffic_route";
    change_action = if b then enabled else disabled;
    entity_name = given (str (format (parent_name m s) ++ " Kill Switch"));
    old_state = some (switch_state (not b));
    new_state = some (switch_state b);
  }

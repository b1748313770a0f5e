-- ===== src/KillSwitch/Created.antt =====
-- custom_components/unifi_network_rules/switches/traffic_route.py: `create_traffic_route_kill_switch`
-- and the set `_CREATED_UNIQUE_IDS`.
pub mod Once
use unifi_network_rules.Prelude.{
  ◌≡◌, refl, sym, subst, ◌∙◌, not, Bool, true, false, ◌&&◌, ◌||◌, Option, none, some, List, [], ◌∷◌,
  All, arith, Bool-cases, Option-cases, inl, inr, if◌then◌else◌,
}
use unifi_network_rules.Text.{Text, text_eq, text_eq_iff}
use unifi_network_rules.IdSet.{IdSet, member, add, discard, member-add, member-discard}
use unifi_network_rules.RuleId.{get_rule_id}
use unifi_network_rules.KillSwitch.{Route, kill_switch_id}

-- The switch platform in `hass.data`: it is not there, or it adds the switch or raises.
pub data Platform : Type 0 where
  missing refuses adds : Platform

-- A call; whether the registry raises, and whether the copy of the route or the construction does.
pub record Creation : Type 0 where
  pub route : Route
  pub return_entity : Bool
  pub platform : Platform
  pub registry_raises : Bool
  pub build_raises : Bool

abbrev pub is_there : Option (Option Bool) → Bool
is_there none = false
is_there (some none) = false
is_there (some (some state)) = true

abbrev pub add_to_platform : Platform → Text → IdSet → IdSet × Option Text
add_to_platform missing id created = (discard id (add id created), none)
add_to_platform refuses id created = (discard id (add id created), none)
add_to_platform adds id created = (add id created, some id)

-- From the id of the kill switch on.
unfoldable pub create_switch : Creation → Text → IdSet → IdSet × Option Text
create_switch c id created =
    if c.registry_raises
    then (discard id created, none)
    else if member id created
    then (created, none)
    else if c.build_raises
    then (discard id created, none)
    else if c.return_entity
    then (add id created, some id)
    else add_to_platform c.platform id created

abbrev pub create_for : Creation → Option Text → IdSet → IdSet × Option Text
create_for c none created = (created, none)
create_for c (some []) created = (created, none)
create_for c (some (x ∷ parent)) created = create_switch c (kill_switch_id (x ∷ parent)) created

-- The second part is the id of the switch that is returned or added to the platform.
unfoldable pub create_traffic_route_kill_switch : Creation → IdSet → IdSet × Option Text
unfolding create_switch
create_traffic_route_kill_switch c created =
    if is_there c.route.raw
    then create_for c (get_rule_id c.route.rule) created
    else (created, none)

abbrev pub put_id : Option Text → List Text → List Text
put_id none ids = ids
put_id (some id) ids = id ∷ ids

-- The switches of a row of calls.
unfoldable pub create_all : List Creation → IdSet → IdSet × List Text
create_all [] created = (created, [])
create_all (c ∷ cs) created =
    let (now, id) = create_traffic_route_kill_switch c created in
    let (later, ids) = create_all cs now in (later, put_id id ids)

abbrev pub NoneTwice : List Text → Type 0
NoneTwice [] = Unit
NoneTwice (id ∷ ids) = (member id ids ≡ false) × NoneTwice ids

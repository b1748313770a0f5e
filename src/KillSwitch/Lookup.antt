-- ===== src/KillSwitch/Lookup.antt =====
-- custom_components/unifi_network_rules/switches/traffic_route.py: how a kill switch finds the route
-- that it belongs to.
use unifi_network_rules.Prelude.{
  ℕ, ◌≡◌, refl, sym, Bool, true, false, ◌&&◌, Option, none, some, List, [], ◌∷◌, ◌++◌, any, keep,
  arith, Bool-cases, inl, inr,
}
use unifi_network_rules.Text.{Text, codes, starts_with, lower}
use unifi_network_rules.Sanitize.{
  get_child_unique_id, is_nil, sanitize_entity_id, replace_others, replace_hyphens, collapse,
  lstrip, rstrip,
}
use unifi_network_rules.RuleId.{get_rule_id}
use unifi_network_rules.Detector.{ends_with}
use unifi_network_rules.KillSwitch.{
  Route, KillSwitch, init, has_id, find_parent, get_current_rule, available, kill_switch_id,
}

ends_with-append : (s : Text) → ends_with (codes "_kill_switch") (s ++ codes "_kill_switch") ≡ true
unfolding ends_with starts_with
ends_with-append [] = refl
ends_with-append (c ∷ s) = ground (arith, ends_with-append s)

kill_switch_id_lem : (parent : Text) → kill_switch_id parent ≡ parent ++ codes "_kill_switch"
unfolding get_child_unique_id sanitize_entity_id replace_others replace_hyphens collapse lstrip
    rstrip lower keep
kill_switch_id_lem parent = refl

-- The switch is that of the route with the id.
pub record BelongsTo (parent : Text) (k : KillSwitch) : Type 0 where
  pub rule_id : k.rule_id ≡ kill_switch_id parent
  pub linked : k.linked_parent_id ≡ parent
  pub named : is_nil parent ≡ false

init-BelongsTo :
    (now : ℕ) (pending : Option (Text → Option Bool)) (route : Route) (k : KillSwitch) (id : Text)
    → init now pending route ≡ some k
    → get_rule_id route.rule ≡ some id
    → BelongsTo id k
unfolding init
init-BelongsTo now pending route k [] h e = absurd (ground (arith, h, e))
init-BelongsTo now pending route k (c ∷ id) h e = record {
  rule_id = ground (arith, h, e);
  linked = ground (arith, h, e);
  named = refl;
}

is_nil-kill_switch_id : (parent : Text) → is_nil (kill_switch_id parent) ≡ false
is_nil-kill_switch_id [] = rw (kill_switch_id_lem []) refl
is_nil-kill_switch_id (c ∷ parent) = rw (kill_switch_id_lem (c ∷ parent)) refl

-- The tests before the search pass.
pub get_current_rule-BelongsTo :
    (parent : Text) (k : KillSwitch) (routes : List Route)
    → BelongsTo parent k
    → get_current_rule (some routes) k ≡ find_parent parent routes
unfolding get_current_rule
get_current_rule-BelongsTo parent k routes b =
    rw
      (
        b.rule_id,
        is_nil-kill_switch_id parent,
        kill_switch_id_lem parent,
        ends_with-append parent,
        b.linked,
        b.named,
      )
      refl

available-find_parent :
    (parent : Text) (coord_ok : Bool) (k : KillSwitch) (routes : List Route)
    → BelongsTo parent k
    → available coord_ok (some routes) k ≡ (coord_ok && any (has_id parent) routes)
unfolding available find_parent any
available-find_parent parent coord_ok k [] b = rw (get_current_rule-BelongsTo parent k [] b) refl
available-find_parent parent coord_ok k (route ∷ routes) b =
    let rest = available-find_parent parent coord_ok k routes b in
    let found = get_current_rule-BelongsTo parent k routes b in
    let more = get_current_rule-BelongsTo parent k (route ∷ routes) b in
    elim (Bool-cases (has_id parent route)) [
      | inl here ↦ rw (more, here) refl
      | inr there ↦ rw (more, there, sym found) rest
    ]

available-none : (coord_ok : Bool) (k : KillSwitch) → available coord_ok none k ≡ false
unfolding available get_current_rule
available-none coord_ok k = ground arith

-- A kill switch that was built for a route with an id is available just if the coordinator's last
-- update succeeded and its data have a route with that id, whichever routes stand before it: the
-- test on the form of the kill switch's own id never stands in the way.
available-init :
    (now : ℕ) (pending : Option (Text → Option Bool)) (route : Route) (k : KillSwitch) (id : Text)
    (coord_ok : Bool) (routes : List Route)
    → init now pending route ≡ some k
    → get_rule_id route.rule ≡ some id
    → (available coord_ok (some routes) k ≡ (coord_ok && any (has_id id) routes))
      × (available coord_ok none k ≡ false)
available-init now pending route k id coord_ok routes h e = (
  available-find_parent id coord_ok k routes (init-BelongsTo now pending route k id h e),
  available-none coord_ok k,
)

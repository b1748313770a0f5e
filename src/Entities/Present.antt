-- ===== src/Entities/Present.antt =====
-- The ids that the check for deleted rules takes for present, and a prefix of a list of ids.
use unifi_network_rules.Prelude.{
  ℕ, zero, suc, ◌≤◌, String, ◌≡◌, refl, Bool, true, ◌||◌, Option, none, some, List, [], ◌∷◌, any,
  length, arith,
}
use unifi_network_rules.Text.{Text}
use unifi_network_rules.RuleId.{get_rule_id}
use unifi_network_rules.IdSet.{IdSet, member, add, member-add}
use unifi_network_rules.Entities.{FoundRule, EntityData, rules_in, kill_switch_of, led_unique_id}
use unifi_network_rules.Entities.Deletion.{
  all_rule_sources_types, add_rule_ids, add_ids, add_type_ids, add_device_id, add_device_ids,
  first_of, present_ids,
}
use unifi_network_rules.Entities.Loops.{
  is_id_of, is_rule_id, is_device_id, is_rule_in, is_device_in,
}

module _ (k : Text) where
  member-add_rule_ids :
      (key : String) (kill_switch : Bool) (id : Option Text) (ids : IdSet)
      → member k (add_rule_ids key kill_switch id ids)
        ≡ (is_id_of k key kill_switch id || member k ids)
  member-add_rule_ids key kill_switch none ids = refl
  member-add_rule_ids key kill_switch (some []) ids = refl
  member-add_rule_ids key kill_switch (some (x ∷ id)) ids =
      ground (
        arith,
        member-add k (x ∷ id) ids,
        member-add k (kill_switch_of (x ∷ id)) (add (x ∷ id) ids),
      )

  member-add_ids :
      (key : String) (rules : List FoundRule) (ids : IdSet)
      → member k (add_ids key rules ids) ≡ (any (is_rule_id k key) rules || member k ids)
  unfolding add_ids any
  member-add_ids key [] ids = refl
  member-add_ids key (r ∷ rules) ids =
      let id = get_rule_id r.object in
      ground (
        arith,
        member-add_rule_ids key r.has_kill_switch id ids,
        member-add_ids key rules (add_rule_ids key r.has_kill_switch id ids),
      )

  member-add_type_ids :
      (keys : List String) (fetched : EntityData) (ids : IdSet)
      → member k (add_type_ids keys fetched ids) ≡ (is_rule_in k keys fetched || member k ids)
  unfolding add_type_ids any
  member-add_type_ids [] fetched ids = refl
  member-add_type_ids (key ∷ keys) fetched ids = ground (
    arith,
    member-add_ids key (rules_in key fetched) ids,
    member-add_type_ids keys fetched (add_ids key (rules_in key fetched) ids),
  )

  member-add_device_ids :
      (devices : List (Option Text)) (ids : IdSet)
      → member k (add_device_ids devices ids) ≡ (any (is_device_id k) devices || member k ids)
  unfolding add_device_ids any
  member-add_device_ids [] ids = refl
  member-add_device_ids (none ∷ devices) ids = member-add_device_ids devices ids
  member-add_device_ids (some mac ∷ devices) ids = ground (
    arith,
    member-add k (led_unique_id mac) ids,
    member-add_device_ids devices (add_device_id (some mac) ids),
  )

  -- The id is one that the check takes for present.
  abbrev pub is_checked : EntityData → Bool
  is_checked fetched = is_rule_in k all_rule_sources_types fetched || is_device_in k fetched

  pub member-present_ids :
      (fetched : EntityData) → member k (present_ids fetched) ≡ is_checked fetched
  unfolding present_ids member
  member-present_ids fetched = ground (
    arith,
    member-add_type_ids all_rule_sources_types fetched [],
    member-add_device_ids fetched.devices (add_type_ids all_rule_sources_types fetched []),
  )

  pub member-first_of :
      (n : ℕ) (ids : List Text) → member k (first_of n ids) ≡ true → member k ids ≡ true
  unfolding first_of member
  member-first_of zero ids h = cc
  member-first_of (suc n) [] h = h
  member-first_of (suc n) (id ∷ ids) h = ground (arith, member-first_of n ids)

pub length-first_of : (n : ℕ) (ids : List Text) → n ≤ length ids → length (first_of n ids) ≡ n
unfolding first_of
length-first_of zero ids h = refl
length-first_of (suc n) [] h = absurd (omega arith)
length-first_of (suc n) (id ∷ ids) h = omega (arith, length-first_of n ids)

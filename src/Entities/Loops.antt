-- ===== src/Entities/Loops.antt =====
-- What the loops of the discovery leave, for one unique id.
use unifi_network_rules.Prelude.{
  String, ◌≡◌, refl, Bool, false, not, ◌&&◌, ◌||◌, Option, none, some, List, [], ◌∷◌, any, arith,
  Bool-cases, inl, inr,
}
use text.Mathlib.Text.{◌==◌}
use unifi_network_rules.Text.{Text, text_eq, text_eq_iff}
use unifi_network_rules.RuleId.{get_rule_id}
use unifi_network_rules.IdSet.{IdSet, member, member-add}
use unifi_network_rules.Entities.{
  FoundRule, EntityData, rules_in, Candidate, Candidates, put_candidate, Discovery, kill_switch_of,
  led_unique_id, consider, consider_rule, process_entity_type_for_discovery, consider_device,
  process_devices_for_discovery, process_entity_types, rule_type_entity_map,
}

module _ (k : Text) where
  -- The id is that of the rule, or of the kill switch of the route.
  abbrev pub is_id_of : String → Bool → Option Text → Bool
  is_id_of key has_kill_switch none = false
  is_id_of key has_kill_switch (some []) = false
  is_id_of key has_kill_switch (some (x ∷ id)) =
      text_eq (x ∷ id) k
      || (((key == "traffic_routes") && has_kill_switch) && text_eq (kill_switch_of (x ∷ id)) k)

  abbrev pub is_rule_id : String → FoundRule → Bool
  is_rule_id key r = is_id_of key r.has_kill_switch (get_rule_id r.object)

  abbrev pub is_device_id : Option Text → Bool
  is_device_id none = false
  is_device_id (some mac) = text_eq (led_unique_id mac) k

  -- Some rule of these types has the id.
  abbrev pub is_rule_in : List String → EntityData → Bool
  is_rule_in keys fetched = any (λ key. any (is_rule_id key) (rules_in key fetched)) keys

  abbrev pub is_device_in : EntityData → Bool
  is_device_in fetched = any is_device_id fetched.devices

  -- The id is one of those that the fetched data has switches for.
  abbrev pub is_current : EntityData → Bool
  is_current fetched = is_rule_in rule_type_entity_map fetched || is_device_in fetched

  unfoldable pub is_candidate : Candidates → Bool
  is_candidate [] = false
  is_candidate ((id, c) ∷ m) = text_eq id k || is_candidate m

  is_candidate-put :
      (id : Text) (c : Candidate) (m : Candidates)
      → is_candidate (put_candidate id c m) ≡ (text_eq id k || is_candidate m)
  unfolding is_candidate put_candidate
  is_candidate-put id c [] = refl
  is_candidate-put id c ((j, d) ∷ m) =
      ground (arith, is_candidate-put id c m, text_eq_iff j id, text_eq_iff j k, text_eq_iff id k)

  module _ (in_registry : Text → Bool) (start : IdSet) where
    -- A candidate is an id that was found, that was not known at the start and that the registry
    -- does not have; any other id that was found is known.
    pub record IsSplit (d : Discovery) : Type 0 where
      pub potential :
          is_candidate d.potential ≡ (member k d.current && not (member k start || in_registry k))
      pub known : member k d.known ≡ (member k start || (member k d.current && in_registry k))

    consider-current :
        (id : Text) (c : Candidate) (d : Discovery)
        → member k (consider in_registry id c d).current ≡ (text_eq id k || member k d.current)
    unfolding consider
    consider-current id c d = ground (arith, member-add k id d.current)

    consider-IsSplit :
        (id : Text) (c : Candidate) (d : Discovery)
        → IsSplit d
        → IsSplit (consider in_registry id c d)
    unfolding consider
    consider-IsSplit id c d h = elim (Bool-cases (text_eq id k)) [
      | inl e ↦ rw ((text_eq_iff id k).0 e) (record {
        potential = ground (
          arith,
          member-add k k d.current,
          member-add k k d.known,
          is_candidate-put k c d.potential,
          text_eq_iff k k,
        );
        known = ground (arith, member-add k k d.current, member-add k k d.known, text_eq_iff k k);
      })
      | inr e ↦ record {
        potential = ground (arith, member-add k id d.current, is_candidate-put id c d.potential);
        known = ground (arith, member-add k id d.current, member-add k id d.known);
      }
    ]

    -- A step of the loops finds the ids of what it is given, and keeps the rest of the statement.
    pub record Finds (found : Bool) (before after : Discovery) : Type 0 where
      pub split : IsSplit after
      pub current : member k after.current ≡ (found || member k before.current)

    consider-Finds :
        (id : Text) (c : Candidate) (d : Discovery)
        → IsSplit d
        → Finds (text_eq id k) d (consider in_registry id c d)
    consider-Finds id c d h = record {
      split = consider-IsSplit id c d h;
      current = consider-current id c d;
    }

    consider_rule-Finds :
        (key : String) (kill_switch : Bool) (id : Option Text) (d : Discovery)
        → IsSplit d
        → Finds (is_id_of key kill_switch id) d (consider_rule in_registry key kill_switch id d)
    consider_rule-Finds key kill_switch none d h = record { split = h; current = refl }
    consider_rule-Finds key kill_switch (some []) d h = record { split = h; current = refl }
    consider_rule-Finds key kill_switch (some (x ∷ id)) d h =
        elim (Bool-cases ((key == "traffic_routes") && kill_switch)) [
          | inl e ↦
              let one = consider-Finds (x ∷ id) _ d h in
              let two = consider-Finds (kill_switch_of (x ∷ id)) _ _ one.split in
              rw e
                (record { split = two.split; current = ground (arith, one.current, two.current) })
          | inr e ↦
              let one = consider-Finds (x ∷ id) _ d h in
              rw e (record { split = one.split; current = ground (arith, one.current) })
        ]

    consider_device-Finds :
        (mac : Option Text) (d : Discovery)
        → IsSplit d
        → Finds (is_device_id mac) d (consider_device in_registry mac d)
    consider_device-Finds none d h = record { split = h; current = refl }
    consider_device-Finds (some mac) d h = consider-Finds _ _ d h

    Finds-then : (p q : Bool) (a b c : Discovery) → Finds p a b → Finds q b c → Finds (p || q) a c
    Finds-then p q a b c h g = record {
      split = g.split;
      current = ground (arith, h.current, g.current);
    }

    process_entity_type-Finds :
        (key : String) (rules : List FoundRule) (d : Discovery)
        → IsSplit d
        → Finds
            (any (is_rule_id key) rules)
            d
            (process_entity_type_for_discovery in_registry key rules d)
    unfolding process_entity_type_for_discovery any
    process_entity_type-Finds key [] d h = record { split = h; current = refl }
    process_entity_type-Finds key (r ∷ rules) d h =
        let one = consider_rule-Finds key r.has_kill_switch (get_rule_id r.object) d h in
        Finds-then _ _ d _ _ one (process_entity_type-Finds key rules _ one.split)

    process_devices-Finds :
        (devices : List (Option Text)) (d : Discovery)
        → IsSplit d
        → Finds (any is_device_id devices) d (process_devices_for_discovery in_registry devices d)
    unfolding process_devices_for_discovery any
    process_devices-Finds [] d h = record { split = h; current = refl }
    process_devices-Finds (mac ∷ devices) d h =
        let one = consider_device-Finds mac d h in
        Finds-then _ _ d _ _ one (process_devices-Finds devices _ one.split)

    process_entity_types-Finds :
        (keys : List String) (fetched : EntityData) (d : Discovery)
        → IsSplit d
        → Finds (is_rule_in keys fetched) d (process_entity_types in_registry keys fetched d)
    unfolding process_entity_types any
    process_entity_types-Finds [] fetched d h = record { split = h; current = refl }
    process_entity_types-Finds (key ∷ keys) fetched d h =
        let one = process_entity_type-Finds key (rules_in key fetched) d h in
        Finds-then _ _ d _ _ one (process_entity_types-Finds keys fetched _ one.split)

    -- The loops as a whole, from the ids that are known at the start.
    pub loops-Finds :
        (fetched : EntityData)
        → let before : Discovery = record { known = start; potential = []; current = [] } in
          Finds (is_current fetched) before (
            process_devices_for_discovery in_registry fetched.devices
              (process_entity_types in_registry rule_type_entity_map fetched before))
    unfolding member is_candidate
    loops-Finds fetched =
        let before : Discovery = record { known = start; potential = []; current = [] } in
        let h : IsSplit before = record { potential = refl; known = ground arith } in
        let one = process_entity_types-Finds rule_type_entity_map fetched before h in
        Finds-then _ _ before _ _ one (process_devices-Finds fetched.devices _ one.split)

-- ===== src/Triggers/Schema.antt =====
-- unified_trigger.py with scripts/migrate_triggers.py: migrated triggers against the schema.
use unifi_network_rules.Prelude.{
  ◌≡◌, refl, sym, ◌∙◌, subst, Bool, true, false, Option, none, some, [], ◌∷◌, any, All, Bool-cases,
  Option-cases, inl, inr, arith, ◌>>=◌, bind-some, some-rule, if◌then◌else◌,
}
use unifi_network_rules.Text.{Text, codes, text_eq, text_eq_iff}
use unifi_network_rules.Migration.{
  Yaml, Seq, Entries, scalar, text, seq, dict, texts, end_of_dict, entry, get, put, look_up_value,
  is_text, domain, MigrationConfig, base_trigger, put_some, some_text, change_type_of,
  with_change_type, with_device, device_case, device_entity_id, migrate_trigger,
  trigger_migration_map, rule_type_migration_map, legacy_config, is_unifi,
}
use unifi_network_rules.Migration.Fields.{get-put_same, get-put_ne, look_up-rule}
use unifi_network_rules.Triggers.{
  valid_change_types, is_in, all_in, valid_entry, valid_entries, unified_trigger_schema, has_key,
}

has_key-put :
    (k j : Text) (v : Yaml) (e : Entries) → has_key j e ≡ true → has_key j (put k v e) ≡ true
has_key-put k j v e h = elim (Bool-cases (text_eq k j)) [
  | inl q ↦
      subst (λ i. has_key i (put k v e) ≡ true) ((text_eq_iff k j).0 q)
        (rw (get-put_same k v e) refl)
  | inr q ↦ rw (get-put_ne k j v e q) h
]

module _ (string : Yaml → Bool) (ensure_list : Yaml → Seq) where
  valid_entries-put :
      (k : Text) (v : Yaml) (e : Entries)
      → valid_entry string ensure_list k v ≡ true
      → valid_entries string ensure_list e ≡ true
      → valid_entries string ensure_list (put k v e) ≡ true
  unfolding valid_entries put
  valid_entries-put k v end_of_dict h q = rw h refl
  valid_entries-put k v (entry j w e) h q = elim (Bool-cases (text_eq j k)) [
    | inl g ↦
        let h' =
          subst (λ i. valid_entry string ensure_list i v ≡ true) (sym ((text_eq_iff j k).0 g)) h in
        rw (g, h') (ground (arith, q))
    | inr g ↦
        let rest = valid_entries-put k v e h (ground (arith, q)) in rw (g, rest) (ground (arith, q))
  ]

  abbrev valid_value : Text → Option Yaml → Bool
  valid_value k none = true
  valid_value k (some v) = valid_entry string ensure_list k v

  abbrev Valid : Entries → Type 0
  Valid e =
      (valid_entries string ensure_list e ≡ true)
      × (has_key (codes "platform") e ≡ true)
      × (has_key (codes "type") e ≡ true)

  Valid-schema : (e : Entries) → Valid e → unified_trigger_schema string ensure_list e ≡ true
  unfolding unified_trigger_schema
  Valid-schema e h = rw (h.0, h.1, h.2) refl

  put-Valid :
      (k : Text) (v : Yaml) (e : Entries)
      → valid_entry string ensure_list k v ≡ true
      → Valid e
      → Valid (put k v e)
  put-Valid k v e h q = (
    valid_entries-put k v e h q.0,
    has_key-put k (codes "platform") v e q.1,
    has_key-put k (codes "type") v e q.2,
  )

  put_some-Valid :
      (k : Text) (o : Option Yaml) (e : Entries)
      → valid_value k o ≡ true
      → Valid e
      → Valid (put_some k o e)
  put_some-Valid k none e h q = q
  put_some-Valid k (some v) e h q = put-Valid k v e h q

  base_trigger-Valid :
      (e : Entries) → is_text domain (get (codes "trigger") e) ≡ false → Valid (base_trigger e)
  unfolding base_trigger valid_entries valid_entry get text_eq
  base_trigger-Valid e h = rw h (refl, refl, refl)

  -- The values of a configuration in the map.
  abbrev ValidConfig : MigrationConfig → Type 0
  ValidConfig c =
      (valid_value (codes "change_action") c.change_action ≡ true)
      × (valid_value (codes "change_type") (some_text c.change_type) ≡ true)

  module _ (h_string : (t : Text) → string (text t) ≡ true)
      (h_list : (s : Seq) → ensure_list (seq s) ≡ s) where
    trigger_migration_map-valid : All (λ e. ValidConfig e.1) trigger_migration_map
    unfolding valid_entry text_eq is_in all_in any
    trigger_migration_map-valid =
        ((refl, refl), ((refl, refl), ((rw h_list refl, refl), ((refl, refl), ((refl, refl), tt)))))

    rule_type_migration_map-valid :
        All (λ e. is_in valid_change_types (text e.1) ≡ true) rule_type_migration_map
    unfolding text_eq is_in any
    rule_type_migration_map-valid =
        (refl, (refl, (refl, (refl, (refl, (refl, (refl, (refl, (refl, (refl, tt))))))))))

    look_up_value-ValidConfig :
        (o : Option Yaml) (c : MigrationConfig)
        → look_up_value o trigger_migration_map ≡ some (some c)
        → ValidConfig c
    look_up_value-ValidConfig none c h = ground (arith, h)
    look_up_value-ValidConfig (some (scalar n)) c h = ground (arith, h)
    look_up_value-ValidConfig (some (text t)) c h =
        look_up-rule ValidConfig t trigger_migration_map c trigger_migration_map-valid
          (ground (arith, h))
    look_up_value-ValidConfig (some (seq s)) c h = ground (arith, h)
    look_up_value-ValidConfig (some (dict e)) c h = ground (arith, h)

    legacy_config-ValidConfig :
        (e : Entries) (c : MigrationConfig) → legacy_config e ≡ some (some c) → ValidConfig c
    unfolding legacy_config
    legacy_config-ValidConfig e c h = elim (Bool-cases (is_unifi e)) [
      | inl q ↦
          look_up_value-ValidConfig (get (codes "type") e) c (sym (rw (legacy_config, q) refl) ∙ h)
      | inr q ↦ ground (arith, q, h)
    ]

    rule_type-valid :
        (o : Option Yaml) (t : Option Text)
        → look_up_value o rule_type_migration_map ≡ some t
        → valid_value (codes "change_type") (some_text t) ≡ true
    unfolding valid_entry text_eq
    rule_type-valid o none h = refl
    rule_type-valid (some (text r)) (some t) h =
        look_up-rule (λ u. is_in valid_change_types (text u) ≡ true) r rule_type_migration_map t
          rule_type_migration_map-valid (ground (arith, h))
    rule_type-valid none (some t) h = ground (arith, h)
    rule_type-valid (some (scalar n)) (some t) h = ground (arith, h)
    rule_type-valid (some (seq s)) (some t) h = ground (arith, h)
    rule_type-valid (some (dict e)) (some t) h = ground (arith, h)

    change_type_of-valid :
        (c : MigrationConfig) (e : Entries) (t : Option Text)
        → ValidConfig c
        → change_type_of c e ≡ some t
        → valid_value (codes "change_type") (some_text t) ≡ true
    change_type_of-valid c e t v h = elim (Option-cases c.change_type) [
      | inl q ↦ rule_type-valid (get (codes "rule_type") e) t (sym (rw q refl) ∙ h)
      | inr (u, q) ↦
          some-rule (λ o. valid_value (codes "change_type") (some_text o) ≡ true) (some u) t
            (sym (rw q refl) ∙ h)
            (subst (λ o. valid_value (codes "change_type") (some_text o) ≡ true) q v.1)
    ]

    module _ (e : Entries) where
      with_change_type-Valid :
          (c : MigrationConfig) (t : Option Text)
          → is_text domain (get (codes "trigger") e) ≡ false
          → ValidConfig c
          → valid_value (codes "change_type") (some_text t) ≡ true
          → valid_value (codes "entity_id") (get (codes "entity_id") e) ≡ true
          → valid_value (codes "name_filter") (get (codes "name_filter") e) ≡ true
          → Valid (with_change_type c e t)
      with_change_type-Valid c t plain v h entity name =
          let a = put_some (codes "change_action") c.change_action (base_trigger e) in
          let b = put_some (codes "change_type") (some_text t) a in
          let d = put_some (codes "entity_id") (get (codes "entity_id") e) b in
          put_some-Valid (codes "name_filter") (get (codes "name_filter") e) d name (
            put_some-Valid (codes "entity_id") (get (codes "entity_id") e) b entity (
              put_some-Valid (codes "change_type") (some_text t) a h (
                put_some-Valid (codes "change_action") c.change_action (base_trigger e) v.0
                  (base_trigger-Valid e plain))))

      entity_id-valid : (t : Option Text) → valid_value (codes "entity_id") (some_text t) ≡ true
      unfolding valid_entry text_eq
      entity_id-valid none = refl
      entity_id-valid (some t) = h_string t

      led_actions-valid :
          valid_value
            (codes "change_action")
            (some (seq (texts (codes "enabled" ∷ codes "disabled" ∷ []))))
          ≡ true
      unfolding valid_entry text_eq is_in all_in any
      led_actions-valid = rw h_list refl

      with_device-Valid : (n : Entries) (t : Option Text) → Valid n → Valid (with_device e n t)
      with_device-Valid n t h =
          let i = put_some-Valid (codes "entity_id") (some_text t) n (entity_id-valid t) h in
          elim (Bool-cases (is_text (codes "led_toggled") (get (codes "change_type") e))) [
            | inl q ↦ rw q (
                put-Valid (codes "change_action")
                  (seq (texts (codes "enabled" ∷ codes "disabled" ∷ [])))
                  (put_some (codes "entity_id") (some_text t) n) led_actions-valid i)
            | inr q ↦ rw q i
          ]

      device_if-Valid :
          (is_device : Bool) (n m : Entries)
          → (if is_device
              then (device_entity_id (get (codes "device_id") e) >>= λ t. some (with_device e n t))
              else some n)
            ≡ some m
          → Valid n
          → Valid m
      device_if-Valid false n m h v = some-rule Valid n m h v
      device_if-Valid true n m h v =
          let (i, _, d) =
            bind-some (device_entity_id (get (codes "device_id") e)) (λ i. some (with_device e n i))
              m h in
          some-rule Valid (with_device e n i) m d (with_device-Valid n i v)

      migrate_trigger-Valid :
          (c : MigrationConfig) (m : Entries)
          → is_text domain (get (codes "trigger") e) ≡ false
          → ValidConfig c
          → valid_value (codes "entity_id") (get (codes "entity_id") e) ≡ true
          → valid_value (codes "name_filter") (get (codes "name_filter") e) ≡ true
          → migrate_trigger c e ≡ some m
          → Valid m
      unfolding migrate_trigger device_case
      migrate_trigger-Valid c m plain v entity name h =
          let (t, q, d) =
            bind-some (change_type_of c e) (λ t. device_case c e (with_change_type c e t)) m h in
          device_if-Valid (text_eq c.legacy_type (codes "device_changed")) (with_change_type c e t)
            m d (with_change_type-Valid c t plain v (change_type_of-valid c e t v q) entity name)

-- A value that a validator of texts takes, if there is one.
abbrev pub is_optional : (Yaml → Bool) → Option Yaml → Bool
is_optional string none = true
is_optional string (some v) = string v

module _ (string : Yaml → Bool) (ensure_list : Yaml → Seq) where
  entity_id-optional :
      (o : Option Yaml)
      → is_optional string o ≡ true
      → valid_value string ensure_list (codes "entity_id") o ≡ true
  unfolding valid_entry text_eq
  entity_id-optional none h = refl
  entity_id-optional (some v) h = h

  name_filter-optional :
      (o : Option Yaml)
      → is_optional string o ≡ true
      → valid_value string ensure_list (codes "name_filter") o ≡ true
  unfolding valid_entry text_eq
  name_filter-optional none h = refl
  name_filter-optional (some v) h = h

-- A legacy trigger in the format of YAML files, whose entity id and name filter are texts for the
-- validator or are missing, is migrated to a configuration that the schema of the unified triggers
-- takes. The validator takes every text, and the one for lists leaves a list as it is.
pub schema-migrate_trigger :
    (string : Yaml → Bool) (ensure_list : Yaml → Seq)
    → ((t : Text) → string (text t) ≡ true)
    → ((s : Seq) → ensure_list (seq s) ≡ s)
    → (e : Entries) (c : MigrationConfig) (m : Entries)
    → is_text domain (get (codes "trigger") e) ≡ false
    → legacy_config e ≡ some (some c)
    → is_optional string (get (codes "entity_id") e) ≡ true
    → is_optional string (get (codes "name_filter") e) ≡ true
    → migrate_trigger c e ≡ some m
    → unified_trigger_schema string ensure_list m ≡ true
schema-migrate_trigger string ensure_list h_string h_list e c m plain legacy entity name h =
    Valid-schema string ensure_list m (
      migrate_trigger-Valid string ensure_list h_string h_list e c m plain
        (legacy_config-ValidConfig string ensure_list h_string h_list e c legacy)
        (entity_id-optional string ensure_list (get (codes "entity_id") e) entity)
        (name_filter-optional string ensure_list (get (codes "name_filter") e) name) h)

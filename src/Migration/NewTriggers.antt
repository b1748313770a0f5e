-- ===== src/Migration/NewTriggers.antt =====
-- Lemmas on migrate_trigger of scripts/migrate_triggers.py: the type of the new trigger.
use unifi_network_rules.Prelude.{
  ◌≡◌, refl, ◌∙◌, Bool, true, false, Option, none, some, [], ◌∷◌, Bool-cases, inl, inr, ◌>>=◌,
  bind-some, if◌then◌else◌,
}
use unifi_network_rules.Text.{Text, codes, text_eq}
use unifi_network_rules.Migration.{
  Yaml, Entries, text, seq, texts, get, put, look_up, MigrationConfig, put_some, some_text,
  base_trigger, change_type_of, with_change_type, with_device, device_case, device_entity_id,
  is_unifi, legacy_config, migrate_trigger, is_text,
}
use unifi_network_rules.Migration.Fields.{get-put_ne}

abbrev pub Typed : Entries → Type 0
Typed e = get (codes "type") e ≡ some (text (codes "unr_changed"))

put-Typed :
    (k : Text) (v : Yaml) (e : Entries)
    → text_eq k (codes "type") ≡ false
    → Typed e
    → Typed (put k v e)
put-Typed k v e n h = get-put_ne k (codes "type") v e n ∙ h

put_some-Typed :
    (k : Text) (o : Option Yaml) (e : Entries)
    → text_eq k (codes "type") ≡ false
    → Typed e
    → Typed (put_some k o e)
put_some-Typed k none e n h = h
put_some-Typed k (some v) e n h = put-Typed k v e n h

base_trigger-Typed : (e : Entries) → Typed (base_trigger e)
unfolding base_trigger get text_eq
base_trigger-Typed e =
    elim (Bool-cases (is_text (codes "unifi_network_rules") (get (codes "trigger") e))) [
      | inl h ↦ rw h refl
      | inr h ↦ rw h refl
    ]

with_change_type-Typed :
    (c : MigrationConfig) (e : Entries) (t : Option Text) → Typed (with_change_type c e t)
unfolding text_eq
with_change_type-Typed c e t =
    let a = put_some (codes "change_action") c.change_action (base_trigger e) in
    let b = put_some (codes "change_type") (some_text t) a in
    let d = put_some (codes "entity_id") (get (codes "entity_id") e) b in
    put_some-Typed (codes "name_filter") (get (codes "name_filter") e) d refl (
      put_some-Typed (codes "entity_id") (get (codes "entity_id") e) b refl (
        put_some-Typed (codes "change_type") (some_text t) a refl (
          put_some-Typed (codes "change_action") c.change_action (base_trigger e) refl
            (base_trigger-Typed e))))

with_device-Typed : (e n : Entries) (t : Option Text) → Typed n → Typed (with_device e n t)
unfolding text_eq
with_device-Typed e n t h =
    let i = put_some-Typed (codes "entity_id") (some_text t) n refl h in
    elim (Bool-cases (is_text (codes "led_toggled") (get (codes "change_type") e))) [
      | inl q ↦ rw q (
          put-Typed (codes "change_action") (seq (texts (codes "enabled" ∷ codes "disabled" ∷ [])))
            (put_some (codes "entity_id") (some_text t) n) refl i)
      | inr q ↦ rw q i
    ]

device_if-Typed :
    (is_device : Bool) (e n m : Entries)
    → (if is_device
        then (device_entity_id (get (codes "device_id") e) >>= λ t. some (with_device e n t))
        else some n)
      ≡ some m
    → Typed n
    → Typed m
device_if-Typed false e n m h t = cc (h, t)
device_if-Typed true e n m h t =
    let (i, _, d) =
      bind-some (device_entity_id (get (codes "device_id") e)) (λ i. some (with_device e n i)) m
        h in
    let w = with_device-Typed e n i t in cc (d, w)

device_case-Typed :
    (c : MigrationConfig) (e n m : Entries) → device_case c e n ≡ some m → Typed n → Typed m
unfolding device_case
device_case-Typed c e n m h t =
    device_if-Typed (text_eq c.legacy_type (codes "device_changed")) e n m h t

pub migrate_trigger-Typed :
    (c : MigrationConfig) (e m : Entries) → migrate_trigger c e ≡ some m → Typed m
unfolding migrate_trigger
migrate_trigger-Typed c e m h =
    let (t, _, d) =
      bind-some (change_type_of c e) (λ t. device_case c e (with_change_type c e t)) m h in
    device_case-Typed c e (with_change_type c e t) m d (with_change_type-Typed c e t)

-- What has the new type is not legacy.
pub Typed-config : (e : Entries) → Typed e → legacy_config e ≡ some none
unfolding legacy_config look_up text_eq
Typed-config e h = elim (Bool-cases (is_unifi e)) [ inl q ↦ rw (q, h) refl | inr q ↦ rw q refl ]

-- ===== src/Migration/Total.antt =====
-- migrate_automations of scripts/migrate_triggers.py: the inputs on which it may raise.
use unifi_network_rules.Prelude.{
  ◌+◌, ◌≡◌, refl, sym, ap, ◌∙◌, Bool, true, false, ◌&&◌, Option, none, some, List, Bool-cases,
  Option-cases, inl, inr, arith, ◌>>=◌,
}
use unifi_network_rules.Text.{Text, codes, text_eq}
use unifi_network_rules.Migration.{
  Yaml, Seq, Entries, scalar, text, seq, dict, end_of_seq, cons, get, look_up, look_up_value,
  MigrationConfig, change_type_of, with_change_type, with_device, led_entity_id, device_entity_id,
  device_case, is_unifi, legacy_config, migrate_trigger, trigger_migration_map,
  rule_type_migration_map,
}
use unifi_network_rules.Migration.Automations.{parts_none, parts_some}
use unifi_network_rules.Migration.Script.{
  Stats, migrate_dict, migrate_value, followed_by, migrate_seq, put_trigger, put_triggers,
  migrate_triggers, migrate_parts, finish, count_migrated, migrate_automation, onto, migrate_list,
  as_seq, migrate_automations,
}

-- A value that may be a key, and one that may be a text or is missing.
abbrev pub is_key : Option Yaml → Bool
is_key none = true
is_key (some (scalar n)) = true
is_key (some (text t)) = true
is_key (some (seq s)) = false
is_key (some (dict e)) = false

abbrev pub is_id : Option Yaml → Bool
is_id none = true
is_id (some (scalar n)) = false
is_id (some (text t)) = true
is_id (some (seq s)) = false
is_id (some (dict e)) = false

-- A trigger with a plain `type` and `rule_type` and with a text as its `device_id`.
abbrev pub is_plain : Yaml → Bool
is_plain (scalar n) = true
is_plain (text t) = true
is_plain (seq s) = true
is_plain (dict e) =
    is_key (get (codes "type") e)
    && is_key (get (codes "rule_type") e)
    && is_id (get (codes "device_id") e)

abbrev pub all_plain : Seq → Bool
all_plain end_of_seq = true
all_plain (cons v s) = is_plain v && all_plain s

abbrev pub are_plain : Option Yaml → Bool
are_plain none = true
are_plain (some (scalar n)) = true
are_plain (some (text t)) = true
are_plain (some (seq s)) = all_plain s
are_plain (some (dict e)) = true

abbrev pub plain_trigger : Option Yaml → Bool
plain_trigger none = true
plain_trigger (some v) = is_plain v

-- All the triggers of all automations are plain.
abbrev pub plain_list : Seq → Bool
plain_list end_of_seq = true
plain_list (cons (scalar n) s) = plain_list s
plain_list (cons (text t) s) = plain_list s
plain_list (cons (seq r) s) = plain_list s
plain_list (cons (dict a) s) =
    plain_trigger (get (codes "trigger") a) && are_plain (get (codes "triggers") a) && plain_list s

abbrev pub plain_file : Yaml → Bool
plain_file (scalar n) = true
plain_file (text t) = true
plain_file (seq s) = plain_list s
plain_file (dict e) = true

abbrev pub Runs {ℓ} : {A : Type ℓ} → Option A → Type ℓ
Runs {A = A} o = (a : A) × (o ≡ some a)

bind-Runs {ℓ κ} :
    {A : Type ℓ} {B : Type κ} (o : Option A) (f : A → Option B)
    → Runs o
    → ((a : A) → o ≡ some a → Runs (f a))
    → Runs (o >>= f)
bind-Runs o f (a, e) h = rw e (h a e)

look_up_value-Runs {ℓ} :
    {V : Type ℓ} (o : Option Yaml) (m : List (Text × V))
    → is_key o ≡ true
    → Runs (look_up_value o m)
look_up_value-Runs none m h = (none, refl)
look_up_value-Runs (some (scalar n)) m h = (none, refl)
look_up_value-Runs (some (text t)) m h = (look_up t m, refl)
look_up_value-Runs (some (seq s)) m h = ground (arith, h)
look_up_value-Runs (some (dict e)) m h = ground (arith, h)

device_entity_id-Runs : (o : Option Yaml) → is_id o ≡ true → Runs (device_entity_id o)
device_entity_id-Runs none h = (none, refl)
device_entity_id-Runs (some (scalar n)) h = ground (arith, h)
device_entity_id-Runs (some (text t)) h = (some (led_entity_id t), refl)
device_entity_id-Runs (some (seq s)) h = ground (arith, h)
device_entity_id-Runs (some (dict e)) h = ground (arith, h)

legacy_config-Runs : (e : Entries) → is_key (get (codes "type") e) ≡ true → Runs (legacy_config e)
unfolding legacy_config
legacy_config-Runs e h = elim (Bool-cases (is_unifi e)) [
  | inl q ↦
      rw (legacy_config, q) (look_up_value-Runs (get (codes "type") e) trigger_migration_map h)
  | inr q ↦ rw (legacy_config, q) (none, refl)
]

change_type_of-Runs :
    (c : MigrationConfig) (e : Entries)
    → is_key (get (codes "rule_type") e) ≡ true
    → Runs (change_type_of c e)
change_type_of-Runs c e h = elim (Option-cases c.change_type) [
  | inl q ↦ rw q (look_up_value-Runs (get (codes "rule_type") e) rule_type_migration_map h)
  | inr (t, q) ↦ rw q (some t, refl)
]

device_case-Runs :
    (c : MigrationConfig) (e n : Entries)
    → is_id (get (codes "device_id") e) ≡ true
    → Runs (device_case c e n)
unfolding device_case
device_case-Runs c e n h = elim (Bool-cases (text_eq c.legacy_type (codes "device_changed"))) [
  | inl q ↦
      rw (device_case, q)
        (bind-Runs (device_entity_id (get (codes "device_id") e)) (λ i. some (with_device e n i))
          (device_entity_id-Runs (get (codes "device_id") e) h) (λ i _. (with_device e n i, refl)))
  | inr q ↦ rw (device_case, q) (n, refl)
]

migrate_dict-Runs :
    (e : Entries) (c : Option MigrationConfig) → is_plain (dict e) ≡ true → Runs (migrate_dict e c)
unfolding migrate_trigger
migrate_dict-Runs e none h = ((dict e, 0), refl)
migrate_dict-Runs e (some c) h =
    bind-Runs (migrate_trigger c e) (λ m. some (dict m, 1))
      (bind-Runs (change_type_of c e) (λ t. device_case c e (with_change_type c e t))
        (change_type_of-Runs c e (ground (arith, h)))
        (λ t _. device_case-Runs c e (with_change_type c e t) (ground (arith, h))))
      (λ m _. ((dict m, 1), refl))

migrate_value-Runs : (v : Yaml) → is_plain v ≡ true → Runs (migrate_value v)
migrate_value-Runs (scalar n) h = ((scalar n, 0), refl)
migrate_value-Runs (text t) h = ((text t, 0), refl)
migrate_value-Runs (seq s) h = ((seq s, 0), refl)
migrate_value-Runs (dict e) h =
    bind-Runs (legacy_config e) (migrate_dict e) (legacy_config-Runs e (ground (arith, h)))
      (λ c _. migrate_dict-Runs e c h)

migrate_seq-Runs : (s : Seq) → all_plain s ≡ true → Runs (migrate_seq s)
unfolding migrate_seq
migrate_seq-Runs end_of_seq h = ((end_of_seq, 0), refl)
migrate_seq-Runs (cons v s) h =
    bind-Runs (migrate_value v) (λ x. migrate_seq s >>= λ q. some (followed_by x q))
      (migrate_value-Runs v (ground (arith, h)))
      (λ x _.
        bind-Runs (migrate_seq s) (λ q. some (followed_by x q))
          (migrate_seq-Runs s (ground (arith, h))) (λ q _. (followed_by x q, refl)))

migrate_triggers-Runs :
    (a : Entries) (o : Option Yaml) → are_plain o ≡ true → Runs (migrate_triggers a o)
migrate_triggers-Runs a none h = ((a, 0), refl)
migrate_triggers-Runs a (some (scalar n)) h = ((a, 0), refl)
migrate_triggers-Runs a (some (text t)) h = ((a, 0), refl)
migrate_triggers-Runs a (some (seq s)) h =
    bind-Runs (migrate_seq s) (λ r. some (put_triggers a r)) (migrate_seq-Runs s h)
      (λ r _. (put_triggers a r, refl))
migrate_triggers-Runs a (some (dict e)) h = ((a, 0), refl)

migrate_parts-Runs :
    (a : Entries)
    → plain_trigger (get (codes "trigger") a) ≡ true
    → are_plain (get (codes "triggers") a) ≡ true
    → Runs (migrate_parts a)
migrate_parts-Runs a h k = elim (Option-cases (get (codes "trigger") a)) [
  | inl g ↦ rw (parts_none a g) (migrate_triggers-Runs a (get (codes "triggers") a) k)
  | inr (v, g) ↦ rw (parts_some a v g) (
      bind-Runs (migrate_value v) (λ r. some (put_trigger a r))
        (migrate_value-Runs v (sym (ap plain_trigger g) ∙ h)) (λ r _. (put_trigger a r, refl)))
]

migrate_automation-Runs :
    (a : Entries) (st : Stats)
    → plain_trigger (get (codes "trigger") a) ≡ true
    → are_plain (get (codes "triggers") a) ≡ true
    → Runs (migrate_automation a st)
unfolding migrate_automation
migrate_automation-Runs a st h k =
    let seen = record st { total_automations = st.total_automations + 1 } in
    bind-Runs (migrate_parts a) (λ r. some (finish r, count_migrated r.1 seen))
      (migrate_parts-Runs a h k) (λ r _. ((finish r, count_migrated r.1 seen), refl))

onto-Runs : (v : Yaml) (o : Option (Seq × Stats)) → Runs o → Runs (o >>= λ rest. some (onto v rest))
onto-Runs v o h = bind-Runs o (λ rest. some (onto v rest)) h (λ rest _. (onto v rest, refl))

migrate_list-Runs : (s : Seq) (st : Stats) → plain_list s ≡ true → Runs (migrate_list s st)
unfolding migrate_list
migrate_list-Runs end_of_seq st h = ((end_of_seq, st), refl)
migrate_list-Runs (cons (scalar n) s) st h =
    onto-Runs (scalar n) (migrate_list s st) (migrate_list-Runs s st h)
migrate_list-Runs (cons (text t) s) st h =
    onto-Runs (text t) (migrate_list s st) (migrate_list-Runs s st h)
migrate_list-Runs (cons (seq r) s) st h =
    onto-Runs (seq r) (migrate_list s st) (migrate_list-Runs s st h)
migrate_list-Runs (cons (dict a) s) st h =
    bind-Runs (migrate_automation a st)
      (λ r. migrate_list s r.1 >>= λ rest. some (onto (dict r.0) rest))
      (migrate_automation-Runs a st (ground (arith, h)) (ground (arith, h)))
      (λ r _.
        onto-Runs (dict r.0) (migrate_list s r.1) (migrate_list-Runs s r.1 (ground (arith, h))))

-- The migration of a file raises nothing if the `type` and the `rule_type` of each trigger in it are
-- missing or no list and no dictionary, and its `device_id` is missing or a text.
pub migrate_automations-Runs :
    (automations : Yaml) (st : Stats)
    → plain_file automations ≡ true
    → (r : Yaml × Stats) × (migrate_automations automations st ≡ some r)
unfolding migrate_automations
migrate_automations-Runs (scalar n) st h = ((scalar n, st), refl)
migrate_automations-Runs (text t) st h = ((text t, st), refl)
migrate_automations-Runs (seq s) st h =
    bind-Runs (migrate_list s st) (λ r. some (as_seq r)) (migrate_list-Runs s st h)
      (λ r _. (as_seq r, refl))
migrate_automations-Runs (dict e) st h = ((dict e, st), refl)

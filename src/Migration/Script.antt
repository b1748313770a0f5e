-- ===== src/Migration/Script.antt =====
-- scripts/migrate_triggers.py: `TriggerMigrationStats`, `scan_automations` and
-- `migrate_automations`. `none` is an exception.
use unifi_network_rules.Prelude.{
  ℕ, zero, suc, ◌+◌, Option, none, some, List, [], ◌∷◌, ◌>>=◌, if◌then◌else◌,
}
use unifi_network_rules.Text.{Text, codes, text_eq}
use unifi_network_rules.Migration.{
  Yaml, Seq, Entries, scalar, text, seq, dict, end_of_seq, cons, get, put, MigrationConfig,
  legacy_config, migrate_trigger,
}
use unifi_network_rules.Migration.Templates.{update_entries}

pub record Stats : Type 0 where
  pub total_automations : ℕ
  pub automations_with_legacy_triggers : ℕ
  pub legacy_triggers_found : ℕ
  pub legacy_triggers_migrated : ℕ
  pub legacy_trigger_types : List (Text × ℕ)

abbrev pub new_stats : Stats
new_stats = record {
  total_automations = 0;
  automations_with_legacy_triggers = 0;
  legacy_triggers_found = 0;
  legacy_triggers_migrated = 0;
  legacy_trigger_types = [];
}

unfoldable pub count_type : Text → List (Text × ℕ) → List (Text × ℕ)
unfolding text_eq
count_type t [] = (t, 1) ∷ []
count_type t ((u, n) ∷ m) = if text_eq u t then (u, n + 1) ∷ m else (u, n) ∷ count_type t m

-- What a legacy trigger is, if a value of YAML is one; a value that is no dictionary is passed
-- over.
abbrev pub config_of : Yaml → Option (Option MigrationConfig)
config_of (scalar n) = some none
config_of (text t) = some none
config_of (seq s) = some none
config_of (dict e) = legacy_config e

abbrev pub found_in : Option MigrationConfig → List MigrationConfig → List MigrationConfig
found_in none cs = cs
found_in (some c) cs = c ∷ cs

-- The legacy triggers among the `triggers`, in order.
unfoldable pub legacy_triggers : Seq → Option (List MigrationConfig)
unfolding legacy_config
legacy_triggers end_of_seq = some []
legacy_triggers (cons v s) = do c ← config_of v; cs ← legacy_triggers s; some (found_in c cs)

abbrev pub of_triggers : Option Yaml → Option (List MigrationConfig)
of_triggers none = some []
of_triggers (some (scalar n)) = some []
of_triggers (some (text t)) = some []
of_triggers (some (seq s)) = legacy_triggers s
of_triggers (some (dict e)) = some []

abbrev pub of_trigger : Yaml → Option (List MigrationConfig)
of_trigger v = config_of v >>= λ c. some (found_in c [])

-- The legacy triggers of an automation: a `trigger` hides the `triggers`.
unfoldable pub legacy_of : Entries → Option (List MigrationConfig)
unfolding legacy_triggers
legacy_of automation = elim (get (codes "trigger") automation) [
  | some v ↦ of_trigger v
  | none ↦ of_triggers (get (codes "triggers") automation)
]

abbrev pub count_found : List MigrationConfig → Stats → Stats
count_found [] st = st
count_found (c ∷ cs) st = count_found cs (record st {
  legacy_triggers_found = st.legacy_triggers_found + 1;
  legacy_trigger_types = count_type c.legacy_type st.legacy_trigger_types;
})

abbrev pub count_automation : List MigrationConfig → Stats → Stats
count_automation [] st = st
count_automation (c ∷ cs) st = record st {
  automations_with_legacy_triggers = st.automations_with_legacy_triggers + 1;
}

unfoldable pub scan_automation : Entries → Stats → Option Stats
unfolding legacy_of
scan_automation automation st = do
  cs ← legacy_of automation
  some (
      count_automation cs
        (count_found cs (record st { total_automations = st.total_automations + 1 })))

-- The loop of `scan_automations`.
unfoldable pub scan_list : Seq → Stats → Option Stats
unfolding scan_automation
scan_list end_of_seq st = some st
scan_list (cons (dict automation) s) st = scan_automation automation st >>= scan_list s
scan_list (cons _ s) st = scan_list s st

unfoldable pub scan_automations : Yaml → Stats → Option Stats
unfolding scan_list
scan_automations (seq s) st = scan_list s st
scan_automations _ st = some st

abbrev pub migrate_dict : Entries → Option MigrationConfig → Option (Yaml × ℕ)
migrate_dict e none = some (dict e, 0)
migrate_dict e (some c) = migrate_trigger c e >>= λ e'. some (dict e', 1)

-- One trigger, and how many were migrated.
abbrev pub migrate_value : Yaml → Option (Yaml × ℕ)
migrate_value (scalar n) = some (scalar n, 0)
migrate_value (text t) = some (text t, 0)
migrate_value (seq s) = some (seq s, 0)
migrate_value (dict e) = legacy_config e >>= migrate_dict e

abbrev pub followed_by : Yaml × ℕ → Seq × ℕ → Seq × ℕ
followed_by (v, n) (s, m) = (cons v s, n + m)

unfoldable pub migrate_seq : Seq → Option (Seq × ℕ)
unfolding legacy_config migrate_trigger
migrate_seq end_of_seq = some (end_of_seq, 0)
migrate_seq (cons v s) = do
  first ← migrate_value v
  rest ← migrate_seq s
  some (followed_by first rest)

-- A single trigger is put back only if it was migrated.
abbrev pub put_trigger : Entries → Yaml × ℕ → Entries × ℕ
put_trigger a (v, zero) = (a, zero)
put_trigger a (v, suc n) = (put (codes "trigger") v a, suc n)

abbrev pub put_triggers : Entries → Seq × ℕ → Entries × ℕ
put_triggers a (s, n) = (put (codes "triggers") (seq s) a, n)

abbrev pub migrate_triggers : Entries → Option Yaml → Option (Entries × ℕ)
migrate_triggers a none = some (a, 0)
migrate_triggers a (some (scalar n)) = some (a, 0)
migrate_triggers a (some (text t)) = some (a, 0)
migrate_triggers a (some (seq s)) = migrate_seq s >>= λ r. some (put_triggers a r)
migrate_triggers a (some (dict e)) = some (a, 0)

-- The triggers of an automation.
unfoldable pub migrate_parts : Entries → Option (Entries × ℕ)
unfolding migrate_seq
migrate_parts a = elim (get (codes "trigger") a) [
  | some v ↦ migrate_value v >>= λ r. some (put_trigger a r)
  | none ↦ migrate_triggers a (get (codes "triggers") a)
]

-- The templates are updated if a trigger was migrated.
unfoldable pub finish : Entries × ℕ → Entries
unfolding update_entries
finish (a, zero) = a
finish (a, suc n) = update_entries a

abbrev pub count_migrated : ℕ → Stats → Stats
count_migrated zero st = st
count_migrated (suc n) st = record st {
  legacy_triggers_migrated = st.legacy_triggers_migrated + suc n;
  automations_with_legacy_triggers = st.automations_with_legacy_triggers + 1;
}

unfoldable pub migrate_automation : Entries → Stats → Option (Entries × Stats)
unfolding migrate_parts finish
migrate_automation a st = do
  r ← migrate_parts a
  some (finish r, count_migrated r.1 (record st { total_automations = st.total_automations + 1 }))

abbrev pub onto : Yaml → Seq × Stats → Seq × Stats
onto v (s, st) = (cons v s, st)

-- The loop of `migrate_automations`.
unfoldable pub migrate_list : Seq → Stats → Option (Seq × Stats)
unfolding migrate_automation
migrate_list end_of_seq st = some (end_of_seq, st)
migrate_list (cons (dict a) s) st = do
  r ← migrate_automation a st
  rest ← migrate_list s r.1
  some (onto (dict r.0) rest)
migrate_list (cons v s) st = migrate_list s st >>= λ rest. some (onto v rest)

abbrev pub as_seq : Seq × Stats → Yaml × Stats
as_seq (s, st) = (seq s, st)

unfoldable pub migrate_automations : Yaml → Stats → Option (Yaml × Stats)
unfolding migrate_list
migrate_automations (seq s) st = migrate_list s st >>= λ r. some (as_seq r)
migrate_automations v st = some (v, st)

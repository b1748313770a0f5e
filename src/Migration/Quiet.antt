-- ===== src/Migration/Quiet.antt =====
-- Lemmas on migrate_automations of scripts/migrate_triggers.py: automations with no legacy trigger.
use unifi_network_rules.Prelude.{
  ◌≡◌, refl, sym, ap, ◌∙◌, Option, none, some, List, [], Option-cases, inl, inr, arith, ◌>>=◌,
  bind-some,
}
use unifi_network_rules.Text.{codes}
use unifi_network_rules.Migration.{
  Yaml, Seq, Entries, scalar, text, seq, dict, end_of_seq, cons, get, MigrationConfig,
}
use unifi_network_rules.Migration.Fields.{put-same}
use unifi_network_rules.Migration.Automations.{
  parts_none, parts_some, legacy_of-trigger, legacy_of-triggers,
}
use unifi_network_rules.Migration.Script.{
  config_of, found_in, legacy_triggers, of_triggers, of_trigger, legacy_of, migrate_value,
  migrate_seq, migrate_triggers, migrate_parts,
}

found_in-empty :
    (c : Option MigrationConfig) (cs : List MigrationConfig)
    → found_in c cs ≡ []
    → (c ≡ none) × (cs ≡ [])
found_in-empty none cs h = (refl, h)
found_in-empty (some c) cs h = ground (arith, h)

of_trigger-empty : (v : Yaml) → of_trigger v ≡ some [] → config_of v ≡ some none
of_trigger-empty v h =
    let (c, k, g) = bind-some (config_of v) (λ c. some (found_in c [])) [] h in
    k ∙ ap some (found_in-empty c [] (ground (arith, g))).0

migrate_value-quiet : (v : Yaml) → config_of v ≡ some none → migrate_value v ≡ some (v, 0)
migrate_value-quiet (scalar n) h = refl
migrate_value-quiet (text t) h = refl
migrate_value-quiet (seq s) h = refl
migrate_value-quiet (dict e) h = rw h refl

migrate_seq-quiet : (s : Seq) → legacy_triggers s ≡ some [] → migrate_seq s ≡ some (s, 0)
unfolding migrate_seq legacy_triggers
migrate_seq-quiet end_of_seq h = refl
migrate_seq-quiet (cons v s) h =
    let (c, k, g) =
      bind-some (config_of v) (λ c. legacy_triggers s >>= λ cs. some (found_in c cs)) [] h in
    let (cs, l, e) = bind-some (legacy_triggers s) (λ cs. some (found_in c cs)) [] g in
    let f = found_in-empty c cs (ground (arith, e)) in
    rw (migrate_value-quiet v (k ∙ ap some f.0), migrate_seq-quiet s (l ∙ ap some f.1)) refl

migrate_triggers-quiet :
    (a : Entries) (o : Option Yaml)
    → get (codes "triggers") a ≡ o
    → of_triggers o ≡ some []
    → migrate_triggers a o ≡ some (a, 0)
migrate_triggers-quiet a none g h = refl
migrate_triggers-quiet a (some (scalar n)) g h = refl
migrate_triggers-quiet a (some (text t)) g h = refl
migrate_triggers-quiet a (some (seq s)) g h =
    rw (migrate_seq-quiet s h, put-same (codes "triggers") (seq s) a g) refl
migrate_triggers-quiet a (some (dict e)) g h = refl

pub migrate_parts-quiet : (a : Entries) → legacy_of a ≡ some [] → migrate_parts a ≡ some (a, 0)
migrate_parts-quiet a h = elim (Option-cases (get (codes "trigger") a)) [
  | inl g ↦
      parts_none a g
      ∙ migrate_triggers-quiet a (get (codes "triggers") a) refl (sym (legacy_of-triggers a g) ∙ h)
  | inr (v, g) ↦
      parts_some a v g
      ∙ rw (migrate_value-quiet v (of_trigger-empty v (sym (legacy_of-trigger a v g) ∙ h))) refl
]

-- ===== src/Migration/Complete.antt =====
-- scan_automations and migrate_automations of scripts/migrate_triggers.py together.
use unifi_network_rules.Prelude.{ℕ, ◌≡◌, refl, ◌∙◌, some, bind-some, some-rule}
use unifi_network_rules.Migration.{Yaml, Seq, scalar, text, seq, dict}
use unifi_network_rules.Migration.Counts.{
  Agree, scan_list-quiet, migrate_list-quiet, migrate_list-Migrates,
}
use unifi_network_rules.Migration.Script.{
  Stats, new_stats, scan_automations, migrate_list, as_seq, migrate_automations,
}

abbrev only_total : ℕ → Stats
only_total n = record new_stats { total_automations = n }

-- The statistics of the scans before and after, for those of the migration.
abbrev Complete : Yaml → Yaml × Stats → Type 0
Complete automations (automations', m) =
    (found : Stats) × (scan_automations automations new_stats ≡ some found)
    × (m.total_automations ≡ found.total_automations)
    × (m.automations_with_legacy_triggers ≡ found.automations_with_legacy_triggers)
    × (m.legacy_triggers_migrated ≡ found.legacy_triggers_found)
    × (scan_automations automations' new_stats ≡ some (only_total m.total_automations))
    × (migrate_automations automations' new_stats
        ≡ some (automations', only_total m.total_automations))

new_stats-Agree : Agree new_stats new_stats
new_stats-Agree = record { total = refl; automations = refl; triggers = refl }

migrate_list-Complete :
    (s : Seq) (r : Seq × Stats) → migrate_list s new_stats ≡ some r → Complete (seq s) (as_seq r)
unfolding scan_automations migrate_automations
migrate_list-Complete s r e =
    let h = migrate_list-Migrates s new_stats new_stats r new_stats-Agree e in
    (
      h.found,
      h.scanned,
      h.agree.total,
      h.agree.automations,
      h.agree.triggers,
      scan_list-quiet r.0 new_stats h.quiet ∙ rw h.total refl,
      rw (migrate_list-quiet r.0 new_stats h.quiet, h.total) refl,
    )

migrate_automations-Complete :
    (automations : Yaml) (r : Yaml × Stats)
    → migrate_automations automations new_stats ≡ some r
    → Complete automations r
unfolding scan_automations migrate_automations
migrate_automations-Complete (seq s) r e =
    let (q, k, d) = bind-some (migrate_list s new_stats) (λ q. some (as_seq q)) r e in
    some-rule (Complete (seq s)) (as_seq q) r d (migrate_list-Complete s q k)
migrate_automations-Complete (scalar n) r e =
    some-rule (Complete (scalar n)) (scalar n, new_stats) r e
      (new_stats, refl, refl, refl, refl, refl, refl)
migrate_automations-Complete (text t) r e =
    some-rule (Complete (text t)) (text t, new_stats) r e
      (new_stats, refl, refl, refl, refl, refl, refl)
migrate_automations-Complete (dict d) r e =
    some-rule (Complete (dict d)) (dict d, new_stats) r e
      (new_stats, refl, refl, refl, refl, refl, refl)

-- If a migration does not raise, neither does a scan of its input, which finds as many automations,
-- automations with legacy triggers and legacy triggers as the migration counts. A scan of its
-- output finds the same number of automations and no legacy trigger.
pub scan-migrate_automations :
    (automations automations' : Yaml) (m : Stats)
    → migrate_automations automations new_stats ≡ some (automations', m)
    → (found : Stats) × (scan_automations automations new_stats ≡ some found)
      × (m.total_automations ≡ found.total_automations)
      × (m.automations_with_legacy_triggers ≡ found.automations_with_legacy_triggers)
      × (m.legacy_triggers_migrated ≡ found.legacy_triggers_found)
      × (scan_automations automations' new_stats
          ≡ some (record new_stats { total_automations = m.total_automations }))
scan-migrate_automations automations automations' m e =
    let (f, s, t, a, l, q, _) = migrate_automations-Complete automations (automations', m) e in
    (f, s, t, a, l, q)

-- A migration of what a migration gave does not raise and changes nothing.
pub migrate_automations-again :
    (automations automations' : Yaml) (m : Stats)
    → migrate_automations automations new_stats ≡ some (automations', m)
    → migrate_automations automations' new_stats
      ≡ some (automations', record new_stats { total_automations = m.total_automations })
migrate_automations-again automations automations' m e =
    let (_, _, _, _, _, _, i) = migrate_automations-Complete automations (automations', m) e in i

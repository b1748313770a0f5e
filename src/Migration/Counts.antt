-- ===== src/Migration/Counts.antt =====
-- Lemmas on scripts/migrate_triggers.py: the loops over a whole file, and their statistics.
use unifi_network_rules.Prelude.{
  ℕ, zero, suc, ◌+◌, ◌≡◌, refl, ◌∙◌, some, List, [], ◌∷◌, length, arith, ◌>>=◌, bind-some,
  some-rule,
}
use unifi_network_rules.Migration.{
  Yaml, Seq, Entries, scalar, text, seq, dict, end_of_seq, cons, MigrationConfig,
}
use unifi_network_rules.Migration.Automations.{migrate_parts-MigratedParts, finish-MigratedParts}
use unifi_network_rules.Migration.Quiet.{migrate_parts-quiet}
use unifi_network_rules.Migration.Script.{
  Stats, count_type, legacy_of, count_found, count_automation, scan_automation, scan_list,
  migrate_parts, finish, count_migrated, migrate_automation, onto, migrate_list,
}

-- The statistics of a migration and of a scan.
pub record Agree (m f : Stats) : Type 0 where
  pub total : m.total_automations ≡ f.total_automations
  pub automations : m.automations_with_legacy_triggers ≡ f.automations_with_legacy_triggers
  pub triggers : m.legacy_triggers_migrated ≡ f.legacy_triggers_found

record Found (cs : List MigrationConfig) (u f : Stats) : Type 0 where
  total : f.total_automations ≡ u.total_automations
  automations : f.automations_with_legacy_triggers ≡ u.automations_with_legacy_triggers
  triggers : f.legacy_triggers_found ≡ u.legacy_triggers_found + length cs

count_found-Found : (cs : List MigrationConfig) (u : Stats) → Found cs u (count_found cs u)
count_found-Found [] u = record { total = refl; automations = refl; triggers = omega arith }
count_found-Found (c ∷ cs) u =
    let v = record u {
      legacy_triggers_found = u.legacy_triggers_found + 1;
      legacy_trigger_types = count_type c.legacy_type u.legacy_trigger_types;
    } in
    let h = count_found-Found cs v in
    record { total = h.total; automations = h.automations; triggers = omega (arith, h.triggers) }

abbrev seen : Stats → Stats
seen st = record st { total_automations = st.total_automations + 1 }

counted-Agree :
    (n : ℕ) (cs : List MigrationConfig) (m f : Stats)
    → length cs ≡ n
    → Agree m f
    → Agree (count_migrated n (seen m)) (count_automation cs (count_found cs (seen f)))
counted-Agree zero [] m f k h = record {
  total = omega (arith, h.total);
  automations = h.automations;
  triggers = h.triggers;
}
counted-Agree (suc n) (c ∷ cs) m f k h =
    let g = count_found-Found (c ∷ cs) (seen f) in
    record {
      total = omega (arith, h.total, g.total);
      automations = omega (arith, h.automations, g.automations);
      triggers = omega (arith, h.triggers, g.triggers, k);
    }
counted-Agree zero (c ∷ cs) m f k h = ground (arith, k)
counted-Agree (suc n) [] m f k h = ground (arith, k)

-- No automation has a legacy trigger.
abbrev pub IsQuiet : Seq → Type 0
IsQuiet end_of_seq = Unit
IsQuiet (cons (scalar n) s) = IsQuiet s
IsQuiet (cons (text t) s) = IsQuiet s
IsQuiet (cons (seq r) s) = IsQuiet s
IsQuiet (cons (dict a) s) = (legacy_of a ≡ some []) × IsQuiet s

-- How many automations there are.
abbrev pub automations_in : Seq → ℕ
automations_in end_of_seq = 0
automations_in (cons (scalar n) s) = automations_in s
automations_in (cons (text t) s) = automations_in s
automations_in (cons (seq r) s) = automations_in s
automations_in (cons (dict a) s) = suc (automations_in s)

abbrev pub plus_total : ℕ → Stats → Stats
plus_total n st = record st { total_automations = st.total_automations + n }

pub scan_list-quiet :
    (s : Seq) (u : Stats) → IsQuiet s → scan_list s u ≡ some (plus_total (automations_in s) u)
unfolding scan_list scan_automation
scan_list-quiet end_of_seq u q = ground arith
scan_list-quiet (cons (scalar n) s) u q = scan_list-quiet s u q
scan_list-quiet (cons (text t) s) u q = scan_list-quiet s u q
scan_list-quiet (cons (seq r) s) u q = scan_list-quiet s u q
scan_list-quiet (cons (dict a) s) u q = rw (q.0, scan_list-quiet s (seen u) q.1) (ground arith)

pub migrate_list-quiet :
    (s : Seq) (u : Stats) → IsQuiet s → migrate_list s u ≡ some (s, plus_total (automations_in s) u)
unfolding migrate_list migrate_automation finish
migrate_list-quiet end_of_seq u q = ground arith
migrate_list-quiet (cons (scalar n) s) u q = rw (migrate_list-quiet s u q) refl
migrate_list-quiet (cons (text t) s) u q = rw (migrate_list-quiet s u q) refl
migrate_list-quiet (cons (seq r) s) u q = rw (migrate_list-quiet s u q) refl
migrate_list-quiet (cons (dict a) s) u q =
    rw (migrate_parts-quiet a q.0, migrate_list-quiet s (seen u) q.1) (ground arith)

-- What a migration leaves, and what a scan before it finds.
pub record Migrates (s : Seq) (m u : Stats) (r : Seq × Stats) : Type 0 where
  pub found : Stats
  pub scanned : scan_list s u ≡ some found
  pub agree : Agree r.1 found
  pub quiet : IsQuiet r.0
  pub total : r.1.total_automations ≡ m.total_automations + automations_in r.0

-- A value that is no automation is kept, and not counted.
module _ (v : Yaml) (s : Seq) (m u : Stats) where
  kept-Migrates :
      (r : Seq × Stats)
      → scan_list (cons v s) u ≡ scan_list s u
      → ((t : Seq) → IsQuiet t → IsQuiet (cons v t))
      → ((t : Seq) → automations_in (cons v t) ≡ automations_in t)
      → ((q : Seq × Stats) → migrate_list s m ≡ some q → Migrates s m u q)
      → (migrate_list s m >>= λ q. some (onto v q)) ≡ some r
      → Migrates (cons v s) m u r
  kept-Migrates r scan quiet count rest e =
      let (q, k, d) = bind-some (migrate_list s m) (λ q. some (onto v q)) r e in
      let h = rest q k in
      some-rule (Migrates (cons v s) m u) (onto v q) r d (record {
        found = h.found;
        scanned = scan ∙ h.scanned;
        agree = h.agree;
        quiet = quiet q.0 h.quiet;
        total = omega (arith, h.total, count q.0);
      })

scan_automation-some :
    (a : Entries) (u : Stats) (cs : List MigrationConfig)
    → legacy_of a ≡ some cs
    → scan_automation a u ≡ some (count_automation cs (count_found cs (seen u)))
unfolding scan_automation
scan_automation-some a u cs e = rw e refl

count_migrated-total :
    (n : ℕ) (m : Stats) → (count_migrated n (seen m)).total_automations ≡ m.total_automations + 1
count_migrated-total zero m = refl
count_migrated-total (suc n) m = refl

-- One automation.
pub record MigratesOne (a : Entries) (m u : Stats) (r : Entries × Stats) : Type 0 where
  found : Stats
  scanned : scan_automation a u ≡ some found
  agree : Agree r.1 found
  quiet : legacy_of r.0 ≡ some []
  total : r.1.total_automations ≡ m.total_automations + 1

migrate_automation-MigratesOne :
    (a : Entries) (m u : Stats) (r : Entries × Stats)
    → Agree m u
    → migrate_automation a m ≡ some r
    → MigratesOne a m u r
unfolding migrate_automation
migrate_automation-MigratesOne a m u r h e =
    let (p, k, d) =
      bind-some (migrate_parts a) (λ p. some (finish p, count_migrated p.1 (seen m))) r e in
    let ((cs, f, l), q) = finish-MigratedParts a p (migrate_parts-MigratedParts a p k) in
    some-rule (MigratesOne a m u) (finish p, count_migrated p.1 (seen m)) r d
      (record {
        found = count_automation cs (count_found cs (seen u));
        scanned = scan_automation-some a u cs f;
        agree = counted-Agree p.1 cs m u l h;
        quiet = q;
        total = count_migrated-total p.1 m;
      })

pub migrate_list-Migrates :
    (s : Seq) (m u : Stats) (r : Seq × Stats)
    → Agree m u
    → migrate_list s m ≡ some r
    → Migrates s m u r
unfolding migrate_list scan_list
migrate_list-Migrates end_of_seq m u r h e =
    some-rule (Migrates end_of_seq m u) (end_of_seq, m) r e
      (record { found = u; scanned = refl; agree = h; quiet = tt; total = omega arith })
migrate_list-Migrates (cons (scalar n) s) m u r h e =
    kept-Migrates (scalar n) s m u r refl (λ t' q'. q') (λ t'. refl)
      (λ q'. migrate_list-Migrates s m u q' h) e
migrate_list-Migrates (cons (text t) s) m u r h e =
    kept-Migrates (text t) s m u r refl (λ t' q'. q') (λ t'. refl)
      (λ q'. migrate_list-Migrates s m u q' h) e
migrate_list-Migrates (cons (seq q) s) m u r h e =
    kept-Migrates (seq q) s m u r refl (λ t' q'. q') (λ t'. refl)
      (λ q'. migrate_list-Migrates s m u q' h) e
migrate_list-Migrates (cons (dict a) s) m u r h e =
    let (p, k, g) =
      bind-some (migrate_automation a m) (λ p. migrate_list s p.1 >>= λ q. some (onto (dict p.0) q))
        r e in
    let (q, l, d) = bind-some (migrate_list s p.1) (λ q. some (onto (dict p.0) q)) r g in
    let o = migrate_automation-MigratesOne a m u p h k in
    let t = migrate_list-Migrates s p.1 o.found q o.agree l in
    some-rule (Migrates (cons (dict a) s) m u) (onto (dict p.0) q) r d (record {
      found = t.found;
      scanned = rw o.scanned t.scanned;
      agree = t.agree;
      quiet = (o.quiet, t.quiet);
      total = omega (arith, t.total, o.total);
    })

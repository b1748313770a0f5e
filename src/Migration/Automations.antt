-- ===== src/Migration/Automations.antt =====
-- Lemmas on migrate_automations of scripts/migrate_triggers.py: the legacy triggers of one automation
-- before and after it.
use unifi_network_rules.Prelude.{
  ℕ, zero, suc, ◌+◌, ◌≡◌, refl, sym, ap, ◌∙◌, Option, none, some, List, [], ◌∷◌, length,
  Option-cases, inl, inr, arith, ◌>>=◌, bind-some, some-rule,
}
use unifi_network_rules.Text.{codes, text_eq}
use unifi_network_rules.Migration.{
  Yaml, Seq, Entries, scalar, text, seq, dict, end_of_seq, cons, get, put, MigrationConfig,
  legacy_config, migrate_trigger,
}
use unifi_network_rules.Migration.Templates.{update, update_seq, update_entries}
use unifi_network_rules.Migration.Fields.{
  get-put_same, get-put_ne, updated, get-update_entries, legacy_config-update_entries,
}
use unifi_network_rules.Migration.NewTriggers.{migrate_trigger-Typed, Typed-config}
use unifi_network_rules.Migration.Script.{
  config_of, found_in, legacy_triggers, of_triggers, of_trigger, legacy_of, migrate_dict,
  migrate_value, followed_by, migrate_seq, put_trigger, put_triggers, migrate_triggers,
  migrate_parts, finish,
}

-- The scan finds so many triggers.
abbrev pub Finds : ℕ → Option (List MigrationConfig) → Type 0
Finds n o = (cs : List MigrationConfig) × (o ≡ some cs) × (length cs ≡ n)

abbrev MigratedValue : Yaml → Yaml × ℕ → Type 0
MigratedValue v (v', n) = Finds n (of_trigger v) × (config_of v' ≡ some none)

migrate_dict-MigratedValue :
    (e : Entries) (c : Option MigrationConfig) (r : Yaml × ℕ)
    → legacy_config e ≡ some c
    → migrate_dict e c ≡ some r
    → MigratedValue (dict e) r
migrate_dict-MigratedValue e none r k h =
    some-rule (MigratedValue (dict e)) (dict e, 0) r h (([], rw k refl, refl), k)
migrate_dict-MigratedValue e (some c) r k h =
    let (m, t, d) = bind-some (migrate_trigger c e) (λ m. some (dict m, 1)) r h in
    some-rule (MigratedValue (dict e)) (dict m, 1) r d
      ((c ∷ [], rw k refl, refl), Typed-config m (migrate_trigger-Typed c e m t))

migrate_value-MigratedValue :
    (v : Yaml) (r : Yaml × ℕ) → migrate_value v ≡ some r → MigratedValue v r
migrate_value-MigratedValue (scalar k) r h =
    some-rule (MigratedValue (scalar k)) (scalar k, 0) r h (([], refl, refl), refl)
migrate_value-MigratedValue (text t) r h =
    some-rule (MigratedValue (text t)) (text t, 0) r h (([], refl, refl), refl)
migrate_value-MigratedValue (seq s) r h =
    some-rule (MigratedValue (seq s)) (seq s, 0) r h (([], refl, refl), refl)
migrate_value-MigratedValue (dict e) r h =
    let (c, k, d) = bind-some (legacy_config e) (migrate_dict e) r h in
    migrate_dict-MigratedValue e c r k d

abbrev MigratedSeq : Seq → Seq × ℕ → Type 0
MigratedSeq s (s', n) = Finds n (legacy_triggers s) × (legacy_triggers s' ≡ some [])

length-found_in :
    (c : Option MigrationConfig) (cs : List MigrationConfig)
    → length (found_in c cs) ≡ length (found_in c []) + length cs
length-found_in none cs = omega arith
length-found_in (some c) cs = omega arith

of_trigger-cons :
    (v : Yaml) (s : Seq) (n m : ℕ)
    → Finds n (of_trigger v)
    → Finds m (legacy_triggers s)
    → Finds (n + m) (legacy_triggers (cons v s))
unfolding legacy_triggers
of_trigger-cons v s n m (cs, e, k) (ds, f, l) =
    let (c, h, g) = bind-some (config_of v) (λ c. some (found_in c [])) cs e in
    let k' = some-rule (λ xs. length xs ≡ n) cs (found_in c []) (sym g) k in
    (found_in c ds, rw (h, f) refl, omega (arith, length-found_in c ds, k', l))

followed_by-MigratedSeq :
    (v : Yaml) (s : Seq) (r : Yaml × ℕ) (q : Seq × ℕ)
    → MigratedValue v r
    → MigratedSeq s q
    → MigratedSeq (cons v s) (followed_by r q)
unfolding legacy_triggers
followed_by-MigratedSeq v s r q h k = (of_trigger-cons v s r.1 q.1 h.0 k.0, rw (h.1, k.1) refl)

migrate_seq-MigratedSeq : (s : Seq) (r : Seq × ℕ) → migrate_seq s ≡ some r → MigratedSeq s r
unfolding migrate_seq legacy_triggers
migrate_seq-MigratedSeq end_of_seq r h =
    some-rule (MigratedSeq end_of_seq) (end_of_seq, 0) r h (([], refl, refl), refl)
migrate_seq-MigratedSeq (cons v s) r h =
    let (x, a, f) =
      bind-some (migrate_value v) (λ x. migrate_seq s >>= λ q. some (followed_by x q)) r h in
    let (q, b, d) = bind-some (migrate_seq s) (λ q. some (followed_by x q)) r f in
    some-rule (MigratedSeq (cons v s)) (followed_by x q) r d (
      followed_by-MigratedSeq v s x q (migrate_value-MigratedValue v x a)
        (migrate_seq-MigratedSeq s q b))

abbrev MigratedParts : Entries → Entries × ℕ → Type 0
MigratedParts a (a', n) = Finds n (legacy_of a) × (legacy_of a' ≡ some [])

-- An automation with a `trigger` has its legacy triggers there.
pub legacy_of-trigger :
    (a : Entries) (v : Yaml) → get (codes "trigger") a ≡ some v → legacy_of a ≡ of_trigger v
unfolding legacy_of
legacy_of-trigger a v h = rw (legacy_of, h) refl

pub legacy_of-triggers :
    (a : Entries)
    → get (codes "trigger") a ≡ none
    → legacy_of a ≡ of_triggers (get (codes "triggers") a)
unfolding legacy_of
legacy_of-triggers a h = rw (legacy_of, h) refl

Finds-none : (o : Option (List MigrationConfig)) → Finds 0 o → o ≡ some []
Finds-none o ([], e, k) = e
Finds-none o (c ∷ cs, e, k) = ground (arith, k)

untouched : (a : Entries) → legacy_of a ≡ some [] → MigratedParts a (a, 0)
untouched a h = (([], h, refl), h)

put_trigger-MigratedParts :
    (a : Entries) (v : Yaml) (r : Yaml × ℕ)
    → get (codes "trigger") a ≡ some v
    → MigratedValue v r
    → MigratedParts a (put_trigger a r)
put_trigger-MigratedParts a v (v', zero) g h =
    untouched a (legacy_of-trigger a v g ∙ Finds-none (of_trigger v) h.0)
put_trigger-MigratedParts a v (v', suc n) g h = (
  rw (legacy_of-trigger a v g) h.0,
  legacy_of-trigger (put (codes "trigger") v' a) v' (get-put_same (codes "trigger") v' a)
      ∙ rw h.1 refl,
)

put_triggers-MigratedParts :
    (a : Entries) (s : Seq) (r : Seq × ℕ)
    → get (codes "trigger") a ≡ none
    → get (codes "triggers") a ≡ some (seq s)
    → MigratedSeq s r
    → MigratedParts a (put_triggers a r)
unfolding text_eq
put_triggers-MigratedParts a s (s', n) g t h =
    let a' = put (codes "triggers") (seq s') a in
    let g' = get-put_ne (codes "triggers") (codes "trigger") (seq s') a refl ∙ g in
    (
      rw (legacy_of-triggers a g, t) h.0,
      legacy_of-triggers a' g' ∙ rw (get-put_same (codes "triggers") (seq s') a) h.1,
    )

migrate_triggers-MigratedParts :
    (a : Entries) (o : Option Yaml) (r : Entries × ℕ)
    → get (codes "trigger") a ≡ none
    → get (codes "triggers") a ≡ o
    → migrate_triggers a o ≡ some r
    → MigratedParts a r
migrate_triggers-MigratedParts a none r g t h =
    some-rule (MigratedParts a) (a, 0) r h (untouched a (legacy_of-triggers a g ∙ rw t refl))
migrate_triggers-MigratedParts a (some (scalar n)) r g t h =
    some-rule (MigratedParts a) (a, 0) r h (untouched a (legacy_of-triggers a g ∙ rw t refl))
migrate_triggers-MigratedParts a (some (text u)) r g t h =
    some-rule (MigratedParts a) (a, 0) r h (untouched a (legacy_of-triggers a g ∙ rw t refl))
migrate_triggers-MigratedParts a (some (seq s)) r g t h =
    let (q, b, d) = bind-some (migrate_seq s) (λ q. some (put_triggers a q)) r h in
    some-rule (MigratedParts a) (put_triggers a q) r d
      (put_triggers-MigratedParts a s q g t (migrate_seq-MigratedSeq s q b))
migrate_triggers-MigratedParts a (some (dict e)) r g t h =
    some-rule (MigratedParts a) (a, 0) r h (untouched a (legacy_of-triggers a g ∙ rw t refl))

pub parts_none :
    (a : Entries)
    → get (codes "trigger") a ≡ none
    → migrate_parts a ≡ migrate_triggers a (get (codes "triggers") a)
unfolding migrate_parts
parts_none a g = rw (migrate_parts, g) refl

pub parts_some :
    (a : Entries) (v : Yaml)
    → get (codes "trigger") a ≡ some v
    → migrate_parts a ≡ (migrate_value v >>= λ r. some (put_trigger a r))
unfolding migrate_parts
parts_some a v g = rw (migrate_parts, g) refl

parts_trigger :
    (a : Entries) (v : Yaml) (r : Entries × ℕ)
    → get (codes "trigger") a ≡ some v
    → (migrate_value v >>= λ q. some (put_trigger a q)) ≡ some r
    → MigratedParts a r
parts_trigger a v r g h =
    let (q, b, d) = bind-some (migrate_value v) (λ q. some (put_trigger a q)) r h in
    some-rule (MigratedParts a) (put_trigger a q) r d
      (put_trigger-MigratedParts a v q g (migrate_value-MigratedValue v q b))

pub migrate_parts-MigratedParts :
    (a : Entries) (r : Entries × ℕ) → migrate_parts a ≡ some r → MigratedParts a r
migrate_parts-MigratedParts a r h = elim (Option-cases (get (codes "trigger") a)) [
  | inl g ↦
      migrate_triggers-MigratedParts a (get (codes "triggers") a) r g refl
        (sym (parts_none a g) ∙ h)
  | inr (v, g) ↦ parts_trigger a v r g (sym (parts_some a v g) ∙ h)
]

config_of-update : (v : Yaml) → config_of (update v) ≡ config_of v
unfolding update
config_of-update (scalar n) = refl
config_of-update (text t) = refl
config_of-update (seq s) = refl
config_of-update (dict e) = legacy_config-update_entries e

legacy_triggers-update_seq : (s : Seq) → legacy_triggers (update_seq s) ≡ legacy_triggers s
unfolding legacy_triggers update_seq
legacy_triggers-update_seq end_of_seq = refl
legacy_triggers-update_seq (cons v s) = rw (config_of-update v, legacy_triggers-update_seq s) refl

of_triggers-updated : (o : Option Yaml) → of_triggers (updated o) ≡ of_triggers o
unfolding update
of_triggers-updated none = refl
of_triggers-updated (some (scalar n)) = refl
of_triggers-updated (some (text t)) = refl
of_triggers-updated (some (seq s)) = legacy_triggers-update_seq s
of_triggers-updated (some (dict e)) = refl

-- The update of the templates makes no trigger legacy, and leaves none that is.
legacy_of-update_entries : (a : Entries) → legacy_of (update_entries a) ≡ legacy_of a
legacy_of-update_entries a = elim (Option-cases (get (codes "trigger") a)) [
  | inl g ↦
      legacy_of-triggers (update_entries a) (get-update_entries (codes "trigger") a ∙ rw g refl)
      ∙ ap of_triggers (get-update_entries (codes "triggers") a)
      ∙ of_triggers-updated (get (codes "triggers") a)
      ∙ sym (legacy_of-triggers a g)
  | inr (v, g) ↦
      legacy_of-trigger (update_entries a) (update v)
        (get-update_entries (codes "trigger") a ∙ rw g refl)
      ∙ rw (config_of-update v) refl
      ∙ sym (legacy_of-trigger a v g)
]

pub finish-MigratedParts :
    (a : Entries) (r : Entries × ℕ)
    → MigratedParts a r
    → Finds r.1 (legacy_of a) × (legacy_of (finish r) ≡ some [])
unfolding finish
finish-MigratedParts a (b, zero) h = h
finish-MigratedParts a (b, suc n) h = (h.0, legacy_of-update_entries b ∙ h.1)

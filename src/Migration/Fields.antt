-- ===== src/Migration/Fields.antt =====
-- Lemmas on the dictionaries of Migration, and on what the update of templates leaves of them.
use unifi_network_rules.Prelude.{
  ◌≡◌, refl, sym, ap, ◌∙◌, true, false, Option, none, some, List, [], ◌∷◌, All, Bool-cases,
  some-rule, inl, inr, arith,
}
use unifi_network_rules.Text.{Text, codes, text_eq, text_eq_iff}
use unifi_network_rules.Migration.{
  Yaml, Entries, scalar, text, seq, dict, end_of_dict, entry, get, put, look_up, look_up_value,
  is_text, is_unifi, legacy_config, trigger_migration_map, domain,
}
use unifi_network_rules.Migration.Templates.{update, update_entries, replace_trigger_vars}
use unifi_network_rules.Migration.Marks.{marked, text_eq-replace_trigger_vars}

pub text_eq_refl : (t : Text) → text_eq t t ≡ true
text_eq_refl t = (text_eq_iff t t).1 refl

pub get-put_same : (k : Text) (v : Yaml) (e : Entries) → get k (put k v e) ≡ some v
unfolding get put
get-put_same k v end_of_dict = rw (text_eq_refl k) refl
get-put_same k v (entry j w e) = elim (Bool-cases (text_eq j k)) [
  | inl h ↦ rw (put, h, get, h) refl
  | inr h ↦ rw (put, h, get, h) (get-put_same k v e)
]

pub get-put_ne :
    (k j : Text) (v : Yaml) (e : Entries) → text_eq k j ≡ false → get j (put k v e) ≡ get j e
unfolding get put
get-put_ne k j v end_of_dict n = rw n refl
get-put_ne k j v (entry i w e) n =
    ground (arith, text_eq_iff k j, text_eq_iff i k, text_eq_iff i j, get-put_ne k j v e n)

pub put-same : (k : Text) (v : Yaml) (e : Entries) → get k e ≡ some v → put k v e ≡ e
unfolding get put
put-same k v end_of_dict h = ground (arith, h)
put-same k v (entry j w e) h = ground (arith, h, put-same k v e)

-- The update of a value that may be missing.
abbrev pub updated : Option Yaml → Option Yaml
updated none = none
updated (some v) = some (update v)

pub get-update_entries : (k : Text) (e : Entries) → get k (update_entries e) ≡ updated (get k e)
unfolding get update_entries
get-update_entries k end_of_dict = refl
get-update_entries k (entry j v e) = elim (Bool-cases (text_eq j k)) [
  | inl h ↦ rw h refl
  | inr h ↦ rw h (get-update_entries k e)
]

is_text-updated :
    (k : Text) (o : Option Yaml) → marked k ≡ false → is_text k (updated o) ≡ is_text k o
unfolding update
is_text-updated k none h = refl
is_text-updated k (some (scalar n)) h = refl
is_text-updated k (some (text t)) h = text_eq-replace_trigger_vars k t h
is_text-updated k (some (seq s)) h = refl
is_text-updated k (some (dict e)) h = refl

abbrev Plain {ℓ} : {V : Type ℓ} → Text × V → Type 0
Plain (k, v) = marked k ≡ false

look_up-replace_trigger_vars {ℓ} :
    {V : Type ℓ} (t : Text) (m : List (Text × V))
    → All Plain m
    → look_up (replace_trigger_vars t) m ≡ look_up t m
unfolding look_up
look_up-replace_trigger_vars t [] h = refl
look_up-replace_trigger_vars t ((k, v) ∷ m) h =
    rw (text_eq-replace_trigger_vars k t h.0, look_up-replace_trigger_vars t m h.1) refl

look_up_value-updated {ℓ} :
    {V : Type ℓ} (o : Option Yaml) (m : List (Text × V))
    → All Plain m
    → look_up_value (updated o) m ≡ look_up_value o m
unfolding update
look_up_value-updated none m h = refl
look_up_value-updated (some (scalar n)) m h = refl
look_up_value-updated (some (text t)) m h = ap some (look_up-replace_trigger_vars t m h)
look_up_value-updated (some (seq s)) m h = refl
look_up_value-updated (some (dict e)) m h = refl

is_unifi-update_entries : (e : Entries) → is_unifi (update_entries e) ≡ is_unifi e
unfolding is_unifi marked
is_unifi-update_entries e =
    rw
      (
        get-update_entries (codes "platform") e,
        get-update_entries (codes "trigger") e,
        is_text-updated domain (get (codes "platform") e) refl,
        is_text-updated domain (get (codes "trigger") e) refl,
      )
      refl

-- A trigger is legacy after the update exactly if it is before, with the same configuration.
pub legacy_config-update_entries :
    (e : Entries) → legacy_config (update_entries e) ≡ legacy_config e
unfolding legacy_config marked
legacy_config-update_entries e =
    rw
      (
        is_unifi-update_entries e,
        get-update_entries (codes "type") e,
        look_up_value-updated (get (codes "type") e) trigger_migration_map
            (refl, (refl, (refl, (refl, (refl, tt))))),
      )
      refl

-- What a look-up finds has what all the values have.
pub look_up-rule {ℓ κ} :
    {V : Type ℓ} (P : V → Type κ) (t : Text) (m : List (Text × V)) (v : V)
    → All (λ e. P e.1) m
    → look_up t m ≡ some v
    → P v
unfolding look_up
look_up-rule P t [] v h e = ground (arith, e)
look_up-rule P t ((k, w) ∷ m) v h e = elim (Bool-cases (text_eq t k)) [
  | inl q ↦ some-rule P w v (sym (rw (look_up, q) refl) ∙ e) h.0
  | inr q ↦ look_up-rule P t m v h.1 (sym (rw (look_up, q) refl) ∙ e)
]

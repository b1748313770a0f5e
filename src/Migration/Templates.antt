-- ===== src/Migration/Templates.antt =====
-- scripts/migrate_triggers.py: `update_trigger_templates`, whose patterns for `re.sub` are literal
-- but for `\s*==\s*`.
use unifi_network_rules.Prelude.{
  ℕ, zero, suc, ◌+◌, ◌==◌, Bool, ◌&&◌, ◌||◌, Option, none, some, List, [], ◌∷◌, leb, length,
  if◌then◌else◌,
}
use unifi_network_rules.Text.{Text, codes, starts_with, sub_from}
use unifi_network_rules.Migration.{
  Yaml, Seq, Entries, scalar, text, seq, dict, end_of_seq, cons, end_of_dict, entry,
}

-- `\s` of a text.
abbrev is_space : ℕ → Bool
is_space c =
    (leb 9 c && leb c 13)
    || (leb 28 c && leb c 32)
    || c == 133
    || c == 160
    || c == 5760
    || (leb 8192 c && leb c 8202)
    || c == 8232
    || c == 8233
    || c == 8239
    || c == 8287
    || c == 12288

-- How many spaces a text starts with.
unfoldable pub spaces : Text → ℕ
spaces [] = 0
spaces (c ∷ s) = let rest = spaces s in if is_space c then suc rest else 0

unfoldable pub drop : ℕ → Text → Text
drop zero s = s
drop (suc n) [] = []
drop (suc n) (c ∷ s) = drop n s

-- A literal, or `\s*==\s*`.
pub data Part : Type 0 where
  literal : Text → Part
  equals : Part

abbrev pub longer : ℕ → Option ℕ → Option ℕ
longer n none = none
longer n (some m) = some (n + m)

abbrev equals_length : Text → Option ℕ
equals_length s =
    let n = spaces s in
    let t = drop n s in
    if starts_with (codes "==") t then some (n + 2 + spaces (drop 2 t)) else none

-- The length of the match of a pattern at the start of a text.
unfoldable pub match_length : List Part → Text → Option ℕ
unfolding starts_with spaces drop
match_length [] s = some 0
match_length (literal p ∷ ps) s =
    let rest = match_length ps (drop (length p) s) in
    if starts_with p s then longer (length p) rest else none
match_length (equals ∷ ps) s = elim (equals_length s) [
  | none ↦ none
  | some n ↦ longer n (match_length ps (drop n s))
]

-- A pattern begins with a literal.
pub record Replacement : Type 0 where
  pub first : Text
  pub rest : List Part
  pub new_value : Text

abbrev plain : Text → Text → Replacement
plain old new = record { first = old; rest = []; new_value = new }

abbrev pub replacements : List Replacement
replacements =
    record {
      first = codes "'connected' if trigger.event.trigger_type";
      rest = equals ∷ literal (codes "'rule_enabled' else 'disconnected'") ∷ [];
      new_value = codes "'connected' if trigger.change_action == 'enabled' else 'disconnected'";
    }
    ∷ record {
      first = codes "trigger.event.trigger_type";
      rest = equals ∷ literal (codes "'rule_enabled'") ∷ [];
      new_value = codes "trigger.change_action == 'enabled'";
    }
    ∷ record {
      first = codes "trigger.event.trigger_type";
      rest = equals ∷ literal (codes "'rule_disabled'") ∷ [];
      new_value = codes "trigger.change_action == 'disabled'";
    }
    ∷ plain (codes "trigger.event.trigger_type.replace('rule_', '')")
        (codes "trigger.change_action")
    ∷ plain (codes "trigger.event.rule_name") (codes "trigger.entity_name")
    ∷ plain (codes "trigger.event.trigger_type") (codes "trigger.change_action")
    ∷ plain (codes "trigger.event.rule_id") (codes "trigger.rule_id")
    ∷ plain (codes "trigger.event.rule_type") (codes "trigger.change_type")
    ∷ plain (codes "'rule_enabled'") (codes "'enabled'")
    ∷ plain (codes "'rule_disabled'") (codes "'disabled'")
    ∷ []

-- `re.sub(old_pattern, new_value, text)`
unfoldable pub sub : Replacement → Text → Text
unfolding match_length sub_from
sub r s = sub_from (match_length (literal r.first ∷ r.rest)) r.new_value 0 s

unfoldable pub sub_all : List Replacement → Text → Text
unfolding sub
sub_all [] s = s
sub_all (r ∷ rs) s = sub_all rs (sub r s)

unfoldable pub replace_trigger_vars : Text → Text
unfolding sub_all
replace_trigger_vars s = sub_all replacements s

-- `recursive_template_update`
unfoldable mutual
  unfolding replace_trigger_vars

  pub update : Yaml → Yaml
  update (scalar n) = scalar n
  update (text t) = text (replace_trigger_vars t)
  update (seq s) = seq (update_seq s)
  update (dict e) = dict (update_entries e)

  pub update_seq : Seq → Seq
  update_seq end_of_seq = end_of_seq
  update_seq (cons v s) = cons (update v) (update_seq s)

  pub update_entries : Entries → Entries
  update_entries end_of_dict = end_of_dict
  update_entries (entry k v e) = entry k (update v) (update_entries e)

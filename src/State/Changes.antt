-- ===== src/State/Changes.antt =====
-- When new data counts as changed.
use unifi_network_rules.Prelude.{
  String, ◌≡◌, refl, Bool, true, false, Option, none, some, List, [], ◌∷◌, arith, any, All,
  if_keeps,
}
use text.Mathlib.Text.{◌==◌ as str_eq}
use unifi_network_rules.Dict.{Dict, IsDistinct, Fits, Fits-self, put-IsDistinct}
use unifi_network_rules.State.{
  FetchedData, Rule, rules_of, counted_types, enabled_types, text_or, flag_or, with_flag,
  lookup_from, flag_eq, flags_changed, count_changed, enabled_changed, data_has_changes,
}

-- The two fetches have the same rules of these types.
abbrev pub Agree : List String → FetchedData → FetchedData → Type 0
Agree keys previous new = All (λ key. rules_of key previous ≡ rules_of key new) keys

flag_eq_refl : (flag : Option Bool) → flag_eq flag flag ≡ true
unfolding flag_eq
flag_eq_refl none = refl
flag_eq_refl (some true) = refl
flag_eq_refl (some false) = refl

with_flag-IsDistinct :
    (id : Option String) (flag : Option Bool) (m : Dict (Option Bool))
    → IsDistinct m
    → IsDistinct (with_flag id flag m)
with_flag-IsDistinct none flag m d = d
with_flag-IsDistinct (some id) flag m d =
    if_keeps IsDistinct (str_eq id "") d (put-IsDistinct id flag m d)

lookup_from-IsDistinct :
    (rules : List Rule) (m : Dict (Option Bool)) → IsDistinct m → IsDistinct (lookup_from m rules)
unfolding lookup_from
lookup_from-IsDistinct [] m d = d
lookup_from-IsDistinct (r ∷ rules) m d =
    lookup_from-IsDistinct rules _
      (with_flag-IsDistinct (text_or r.id r.raw_id) (flag_or r.enabled r.raw_enabled) m d)

flags_changed-Fits : (part m : Dict (Option Bool)) → Fits part m → flags_changed part m ≡ false
unfolding flags_changed
flags_changed-Fits [] m h = refl
flags_changed-Fits ((k, v) ∷ part) m h = rw (h.0, flag_eq_refl, flags_changed-Fits part m h.1)

enabled_changed_same :
    (key : String) (previous new : FetchedData)
    → rules_of key previous ≡ rules_of key new
    → enabled_changed previous new key ≡ false
unfolding enabled_changed
enabled_changed_same key previous new e =
    rw e (flags_changed-Fits _ _ (Fits-self _ (lookup_from-IsDistinct (rules_of key new) [] tt)))

any_enabled :
    (keys : List String) (previous new : FetchedData)
    → Agree keys previous new
    → any (enabled_changed previous new) keys ≡ false
unfolding any
any_enabled [] previous new h = refl
any_enabled (key ∷ keys) previous new h =
    rw (enabled_changed_same key previous new h.0, any_enabled keys previous new h.1)

any_count :
    (keys : List String) (previous new : FetchedData)
    → Agree keys previous new
    → any (count_changed previous new) keys ≡ false
unfolding any count_changed
any_count [] previous new h = refl
any_count (key ∷ keys) previous new h = ground (arith, h.0, any_count keys previous new h.1)

-- Two fetches that have the same rules of the fifteen counted types never count as changed,
-- whatever they have of any other type, such as `oon_policies`.
pub data_has_changes_same :
    (previous new : FetchedData)
    → Agree counted_types previous new
    → data_has_changes previous new ≡ false
unfolding data_has_changes
data_has_changes_same previous new h = ground (
  arith,
  any_count counted_types previous new h,
  any_enabled enabled_types previous new assumption,
)

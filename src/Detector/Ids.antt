-- ===== src/Detector/Ids.antt =====
-- The entity ids that the detector writes, read back by the id parser of the services.
use text.Mathlib.Text.{◌==◌}
use text.Mathlib.TextEquality.{eq_iff}
use unifi_network_rules.Prelude.{
  String, ◌≡◌, refl, ap, ◌∙◌, Bool, true, false, none, some, List, [], ◌∷◌, ◌++◌, any, all, not,
  arith, Bool-cases, inl, inr,
}
use unifi_network_rules.Text.{Text, codes, text_eq, text_eq_iff, starts_with}
use unifi_network_rules.Value.{str}
use unifi_network_rules.IdParser.{parse_rule_id, get_rule_type_from_hint, mapped}
use unifi_network_rules.IdParser.RoundTrip.{is_plain, parse_entity_id}
use unifi_network_rules.Detector.{is_kill_switch, ends_with}
use unifi_network_rules.Detector.Creation.{change_type_of, unique_id_of, prefixed}

-- The rule types whose unique ids are `unr_<type>_<id>`, with a type of their own.
abbrev pub readable_types : List String
readable_types =
    "port_forwards" ∷ "traffic_routes" ∷ "firewall_policies" ∷ "traffic_rules" ∷ "firewall_zones"
    ∷ "wlans" ∷ "qos_rules" ∷ "vpn_clients" ∷ "vpn_servers" ∷ "port_profiles" ∷ "networks"
    ∷ "nat_rules" ∷ "oon_policies" ∷ []

in_names :
    (p : String → Bool) (table : List String) (t : String)
    → all p table ≡ true
    → any (λ u. t == u) table ≡ true
    → p t ≡ true
unfolding all any
in_names p [] t h m = cc
in_names p (u ∷ table) t h m = elim (Bool-cases (t == u)) [
  | inl e ↦ rw ((eq_iff t u).0 e) (ground arith)
  | inr e ↦ in_names p table t (ground arith) (ground arith)
]

abbrev reads_back : String → Bool
reads_back t = text_eq (get_rule_type_from_hint (codes (change_type_of t))) (codes t)

all_read_back : all reads_back readable_types ≡ true
unfolding all get_rule_type_from_hint mapped text_eq change_type_of
all_read_back = refl

not_device : all (λ t. not (t == "devices")) readable_types ≡ true
unfolding all
not_device = refl

plain-ends_with : (s : Text) → is_plain s ≡ true → ends_with (codes "_kill_switch") s ≡ false
unfolding is_plain ends_with starts_with
plain-ends_with [] p = refl
plain-ends_with (c ∷ s) p = ground (arith, plain-ends_with s)

pub unique_id-prefixed :
    (rule_type s : String)
    → not (rule_type == "devices") ≡ true
    → is_plain (codes s) ≡ true
    → unique_id_of rule_type (str s) ≡ some (prefixed (change_type_of rule_type) (str s))
unfolding unique_id_of is_kill_switch
unique_id-prefixed rule_type s d p = ground (arith, plain-ends_with (codes s) p)

-- For each of these rule types and each rule id without an underscore, the unique id of an event is
-- `unr_<type>_<id>`, and the services' parser reads the rule id and the type of the data back from
-- the entity id `switch.unr_<type>_<id>`.
pub parse-unique_id :
    (rule_type s : String)
    → any (λ u. rule_type == u) readable_types ≡ true
    → is_plain (codes s) ≡ true
    → (unique_id_of rule_type (str s) ≡ some (prefixed (change_type_of rule_type) (str s)))
      × (parse_rule_id
            (codes "switch.unr_" ++ (codes (change_type_of rule_type) ++ b'_' ∷ codes s))
            none
          ≡ (codes s, some (codes rule_type)))
parse-unique_id rule_type s r p = (
  unique_id-prefixed rule_type s
      (in_names (λ t. not (t == "devices")) readable_types rule_type not_device r) p,
  parse_entity_id (codes (change_type_of rule_type)) (codes s) p
      ∙ ap (λ t. (codes s, some t))
          ((text_eq_iff _ _).0 (in_names reads_back readable_types rule_type all_read_back r)),
)

-- ===== src/IdParser/RoundTrip.antt =====
-- Parsing gives back what an entity id was made from.
use unifi_network_rules.Prelude.{
  ℕ, ◌≡◌, refl, ap, ◌∙◌, Bool, true, false, not, ◌&&◌, Option, none, some, List, [], ◌∷◌, ◌++◌,
  arith, length-append, any, all, ◌≢◌, Bool-cases, inl, inr, ◌==◌,
}
use unifi_network_rules.Text.{Text, codes, text_eq, text_eq_iff, starts_with, contains}
use unifi_network_rules.IdParser.{
  split, join, last, but_last, first, tail, mapped, hint_mapping, get_rule_type_from_hint,
  validate_rule_type, supported_types, generate_entity_id_from_rule, without_domain, from_parts,
  from_prefixed, parse_rule_id,
}

-- The text has no underscore.
unfoldable pub is_plain : Text → Bool
is_plain [] = true
is_plain (c ∷ s) = not (c == b'_') && is_plain s

split_plain : (s : Text) → is_plain s ≡ true → split s ≡ s ∷ []
unfolding split is_plain
split_plain [] h = refl
split_plain (c ∷ s) h = ground (arith, split_plain s)

-- A split has a first part.
split-cons : (s : Text) → (part : Text) × (parts : List Text) × (split s ≡ part ∷ parts)
unfolding split
split-cons [] = ([], [], refl)
split-cons (c ∷ s) =
    let (part, parts, e) = split-cons s in
    elim (Bool-cases (c == b'_')) [
      | inl under ↦ ([], split s, rw under)
      | inr other ↦ (c ∷ part, parts, rw (other, e))
    ]

split-append : (s t : Text) → split (s ++ b'_' ∷ t) ≡ split s ++ split t
unfolding split
split-append [] t = refl
split-append (c ∷ s) t = let (part, parts, e) = split-cons s in ground (arith, e, split-append s t)

join-cons_first :
    (c : ℕ) (part : Text) (parts : List Text) → join ((c ∷ part) ∷ parts) ≡ c ∷ join (part ∷ parts)
unfolding join
join-cons_first c part [] = refl
join-cons_first c part (next ∷ parts) = refl

join-split : (s : Text) → join (split s) ≡ s
unfolding split join
join-split [] = refl
join-split (c ∷ s) =
    let (part, parts, e) = split-cons s in
    ground (arith, e, join-split s, join-cons_first c part parts)

but_last-append : (xs : List Text) (x : Text) → but_last (xs ++ x ∷ []) ≡ xs
unfolding but_last
but_last-append [] x = refl
but_last-append (y ∷ []) x = refl
but_last-append (y ∷ z ∷ xs) x = rw (but_last-append (z ∷ xs) x)

last-append : (xs : List Text) (x : Text) → last (xs ++ x ∷ []) ≡ x
unfolding last
last-append [] x = refl
last-append (y ∷ []) x = refl
last-append (y ∷ z ∷ xs) x = last-append (z ∷ xs) x

-- The parts of `unr_<hint>_<id>`.
split_prefixed :
    (hint id : Text)
    → is_plain id ≡ true
    → split (codes "unr_" ++ (hint ++ b'_' ∷ id)) ≡ codes "unr" ∷ (split hint ++ id ∷ [])
unfolding split
split_prefixed hint id h =
    split-append (codes "unr") (hint ++ b'_' ∷ id)
    ∙ ap (λ parts. codes "unr" ∷ parts)
        (split-append hint id ∙ ap (λ r. split hint ++ r) (split_plain id h))

from_parts_lem :
    (hint id rule_id : Text)
    → from_parts (codes "unr" ∷ (split hint ++ id ∷ [])) rule_id none
      ≡ (id, some (get_rule_type_from_hint hint))
unfolding from_parts first tail text_eq
from_parts_lem hint id rule_id =
    let (part, parts, e) = split-cons hint in
    ground (
      arith,
      e,
      last-append (codes "unr" ∷ split hint) id,
      but_last-append (split hint) id,
      join-split hint,
      length-append (split hint) (id ∷ []),
    )

-- An entity id is taken apart into the rule's id and the type that its hint stands for, where the
-- id has no underscore.
pub parse_entity_id :
    (hint id : Text)
    → is_plain id ≡ true
    → parse_rule_id (codes "switch.unr_" ++ (hint ++ b'_' ∷ id)) none
      ≡ (id, some (get_rule_type_from_hint hint))
unfolding parse_rule_id without_domain from_prefixed contains
parse_entity_id hint id h =
    rw (split_prefixed hint id h) (from_parts_lem hint id (codes "unr_" ++ (hint ++ b'_' ∷ id)))

-- What holds of each text of a list by evaluation holds of a text that is in the list.
in_table :
    (p : Text → Bool) (table : List Text) (t : Text)
    → all p table ≡ true
    → any (λ u. text_eq t u) table ≡ true
    → p t ≡ true
unfolding all any
in_table p [] t h m = cc
in_table p (u ∷ table) t h m = elim (Bool-cases (text_eq t u)) [
  | inl e ↦ rw ((text_eq_iff t u).0 e) (ground arith)
  | inr e ↦ in_table p table t (ground arith) (ground arith)
]

abbrev returns : Text → Bool
returns t = text_eq (get_rule_type_from_hint (mapped hint_mapping t)) t

hints_return : all returns supported_types ≡ true
unfolding all get_rule_type_from_hint mapped text_eq
hints_return = refl

hint_of_type :
    (rule_type : Text)
    → validate_rule_type rule_type ≡ true
    → get_rule_type_from_hint (mapped hint_mapping rule_type) ≡ rule_type
unfolding validate_rule_type
hint_of_type rule_type h =
    (text_eq_iff (get_rule_type_from_hint (mapped hint_mapping rule_type)) rule_type).0
      (in_table returns supported_types rule_type hints_return h)

-- For each supported rule type and each id without an underscore, parsing the entity id that was
-- generated from them, with no type given, returns both.
pub parse-generate :
    (rule_id rule_type : Text)
    → is_plain rule_id ≡ true
    → validate_rule_type rule_type ≡ true
    → parse_rule_id (generate_entity_id_from_rule rule_id rule_type) none
      ≡ (rule_id, some rule_type)
unfolding generate_entity_id_from_rule
parse-generate rule_id rule_type p v =
    parse_entity_id (mapped hint_mapping rule_type) rule_id p
    ∙ ap (λ t. (rule_id, some t)) (hint_of_type rule_type v)

-- An id of UniFi, with no dot and no `unr_` in front, is returned as it is, with the given type.
pub parse-raw :
    (rule_id : Text) (rule_type : Option Text)
    → rule_id ≢ []
    → contains (codes ".") rule_id ≡ false
    → starts_with (codes "unr_") rule_id ≡ false
    → parse_rule_id rule_id rule_type ≡ (rule_id, rule_type)
unfolding parse_rule_id
parse-raw [] rule_type ne d u = absurd (ne refl)
parse-raw (c ∷ s) rule_type ne d u = rw (d, u)

-- The entity id of a static route, as the change detector writes it, is parsed to the type `route`,
-- which is not supported, and neither is `static_routes`.
pub parse-static_route :
    (rule_id : Text)
    → is_plain rule_id ≡ true
    → (parse_rule_id (codes "switch.unr_route_" ++ rule_id) none ≡ (rule_id, some (codes "route")))
      × (validate_rule_type (codes "route") ≡ false)
      × (validate_rule_type (codes "static_routes") ≡ false)
unfolding validate_rule_type any text_eq get_rule_type_from_hint mapped
parse-static_route rule_id p = (parse_entity_id (codes "route") rule_id p, refl, refl)

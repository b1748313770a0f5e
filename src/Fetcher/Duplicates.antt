-- ===== src/Fetcher/Duplicates.antt =====
-- What the filter of duplicates leaves.
use unifi_network_rules.Prelude.{
  ◌≤◌, String, Bool, false, not, ◌||◌, Option, none, some, List, [], ◌∷◌, ◌≡◌, refl, sym, ap, ◌∙◌,
  keep, any, length, length-keep-le, ltb, arith, Bool-cases, inl, inr,
}
use text.Mathlib.TextEquality.{eq_iff}
use text.Mathlib.Text.{◌==◌}
use unifi_network_rules.Text.{Text, text_eq}
use unifi_network_rules.Dict.{get, get-put}
use unifi_network_rules.IdSet.{IdSet, member, member-add}
use unifi_network_rules.Fetcher.{
  Item, RulesData, or_nil, normalized, add_name, oon_policy_names, policy_name, route_name,
  named_in, items_of, filter_type, filter_named, filter_oon_policy_duplicates,
}

module _ {A : Type 0} (p : A → Bool) where
  -- A filter that drops nothing leaves the list as it is.
  keep-same : (xs : List A) → length xs ≤ length (keep p xs) → keep p xs ≡ xs
  unfolding keep
  keep-same [] h = refl
  keep-same (x ∷ xs) h = elim (Bool-cases (p x)) [
    | inl e ↦ ground (arith, e, keep-same xs)
    | inr e ↦ absurd (ground (arith, e, length-keep-le p xs))
  ]

module _ {A : Type 0} (p q : A → Bool) (same : (x : A) → p x ≡ q x) where
  keep-ext : (xs : List A) → keep p xs ≡ keep q xs
  unfolding keep
  keep-ext [] = refl
  keep-ext (x ∷ xs) = ground (arith, same x, keep-ext xs)

module _ (key : String) (name_of : Item → Option Text) (names : IdSet) (d : RulesData) where
  abbrev pub kept : List Item
  kept = keep (λ i. not (named_in names (name_of i))) (items_of key d)

  items_of-filter_type : items_of key (filter_type key name_of names d) ≡ kept
  unfolding filter_type
  items_of-filter_type = elim (Bool-cases (ltb (length kept) (length (items_of key d)))) [
    | inl e ↦ rw (e, get-put key key kept d, (eq_iff key key).1 refl) refl
    | inr e ↦ rw e (
        sym
          (keep-same (λ i. not (named_in names (name_of i))) (items_of key d) (ground (arith, e))))
  ]

  get-filter_type :
      (j : String) → (key == j) ≡ false → get j (filter_type key name_of names d) ≡ get j d
  unfolding filter_type
  get-filter_type j other = ground (arith, get-put key j kept d, other)

module _ (names : IdSet) (d : RulesData) where
  abbrev first : RulesData
  first = filter_type "qos_rules" policy_name names d

  items_of-named_qos :
      items_of "qos_rules" (filter_type "traffic_routes" route_name names first)
      ≡ kept "qos_rules" policy_name names d
  items_of-named_qos =
      ap or_nil (get-filter_type "traffic_routes" route_name names first "qos_rules" refl)
      ∙ items_of-filter_type "qos_rules" policy_name names d

  items_of-named_routes :
      items_of "traffic_routes" (filter_type "traffic_routes" route_name names first)
      ≡ kept "traffic_routes" route_name names d
  items_of-named_routes =
      items_of-filter_type "traffic_routes" route_name names first
      ∙ ap (λ items. keep (λ i. not (named_in names (route_name i))) (or_nil items))
          (get-filter_type "qos_rules" policy_name names d "traffic_routes" refl)

-- The policy has the name that a normalized name comes from.
abbrev has_name : Text → Option Text → Bool
has_name k none = false
has_name k (some []) = false
has_name k (some (c ∷ s)) = text_eq (normalized (c ∷ s)) k

-- The two names are there, and the same but for case and spaces around them.
abbrev pub same_name : Option Text → Option Text → Bool
same_name name none = false
same_name name (some []) = false
same_name name (some (c ∷ s)) = has_name (normalized (c ∷ s)) name

-- Some policy has the name.
abbrev pub is_duplicate : List Item → Option Text → Bool
is_duplicate policies name = any (λ p. same_name (policy_name p) name) policies

member-add_name :
    (k : Text) (name : Option Text) (names : IdSet)
    → member k (add_name name names) ≡ (has_name k name || member k names)
member-add_name k none names = refl
member-add_name k (some []) names = refl
member-add_name k (some (c ∷ s)) names = member-add k (normalized (c ∷ s)) names

member-oon_policy_names :
    (k : Text) (policies : List Item) (names : IdSet)
    → member k (oon_policy_names policies names)
      ≡ (any (λ p. has_name k (policy_name p)) policies || member k names)
unfolding oon_policy_names any
member-oon_policy_names k [] names = refl
member-oon_policy_names k (p ∷ policies) names = ground (
  arith,
  member-add_name k (policy_name p) names,
  member-oon_policy_names k policies (add_name (policy_name p) names),
)

any-false : {A : Type 0} (xs : List A) → any (λ x. false) xs ≡ false
unfolding any
any-false [] = refl
any-false (x ∷ xs) = any-false xs

named_in-oon_policy_names :
    (policies : List Item) (name : Option Text)
    → named_in (oon_policy_names policies []) name ≡ is_duplicate policies name
unfolding member
named_in-oon_policy_names policies none = sym (any-false policies)
named_in-oon_policy_names policies (some []) = sym (any-false policies)
named_in-oon_policy_names policies (some (c ∷ s)) =
    ground (arith, member-oon_policy_names (normalized (c ∷ s)) policies [])

-- What is left of a list.
abbrev pub without_duplicates : List Item → (Item → Option Text) → List Item → List Item
without_duplicates policies name_of items =
    keep (λ i. not (is_duplicate policies (name_of i))) items

named_in-nil : (name : Option Text) → named_in [] name ≡ false
unfolding member
named_in-nil none = refl
named_in-nil (some []) = refl
named_in-nil (some (c ∷ s)) = refl

keep-named_in-nil :
    (name_of : Item → Option Text) (items : List Item)
    → keep (λ i. not (named_in [] (name_of i))) items ≡ items
unfolding keep
keep-named_in-nil name_of [] = refl
keep-named_in-nil name_of (i ∷ items) =
    ground (arith, named_in-nil (name_of i), keep-named_in-nil name_of items)

-- What the filter leaves under the keys.
record Filtered (names : IdSet) (d t : RulesData) : Type 0 where
  qos : items_of "qos_rules" t ≡ kept "qos_rules" policy_name names d
  routes : items_of "traffic_routes" t ≡ kept "traffic_routes" route_name names d
  others :
      (j : String)
      → ("qos_rules" == j) ≡ false
      → ("traffic_routes" == j) ≡ false
      → get j t ≡ get j d

filter_named-Filtered : (names : IdSet) (d : RulesData) → Filtered names d (filter_named names d)
filter_named-Filtered [] d = record {
  qos = sym (keep-named_in-nil policy_name (items_of "qos_rules" d));
  routes = sym (keep-named_in-nil route_name (items_of "traffic_routes" d));
  others = λ j a b. refl;
}
filter_named-Filtered (n ∷ names) d = record {
  qos = items_of-named_qos (n ∷ names) d;
  routes = items_of-named_routes (n ∷ names) d;
  others = λ j a b.
      get-filter_type "traffic_routes" route_name (n ∷ names) (first (n ∷ names) d) j b
      ∙ get-filter_type "qos_rules" policy_name (n ∷ names) d j a;
}

-- The filter takes from the QoS rules and from the traffic routes exactly those whose name is that
-- of an OON policy, but for case and spaces around it, and leaves the others in their order. It
-- changes no other type.
pub filter_oon_policy_duplicates_lem :
    (j : String) (d : RulesData)
    → ("qos_rules" == j) ≡ false
    → ("traffic_routes" == j) ≡ false
    → let t = filter_oon_policy_duplicates d in
      let policies = items_of "oon_policies" d in
      (items_of "qos_rules" t ≡ without_duplicates policies policy_name (items_of "qos_rules" d))
      × (items_of "traffic_routes" t
          ≡ without_duplicates policies route_name (items_of "traffic_routes" d))
      × (get j t ≡ get j d)
unfolding filter_oon_policy_duplicates
filter_oon_policy_duplicates_lem j d not_qos not_route =
    let policies = items_of "oon_policies" d in
    let names = oon_policy_names policies [] in
    let f = filter_named-Filtered names d in
    let same = named_in-oon_policy_names policies in
    (
      f.qos
          ∙ keep-ext (λ i. not (named_in names (policy_name i)))
              (λ i. not (is_duplicate policies (policy_name i)))
              (λ i. ap not (same (policy_name i))) (items_of "qos_rules" d),
      f.routes
          ∙ keep-ext (λ i. not (named_in names (route_name i)))
              (λ i. not (is_duplicate policies (route_name i))) (λ i. ap not (same (route_name i)))
              (items_of "traffic_routes" d),
      f.others j not_qos not_route,
    )

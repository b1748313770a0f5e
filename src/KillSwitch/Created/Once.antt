-- ===== src/KillSwitch/Created/Once.antt =====
-- custom_components/unifi_network_rules/switches/traffic_route.py: which kill switches a row of calls
-- of `create_traffic_route_kill_switch` gives out.
use unifi_network_rules.Prelude.{
  ◌≡◌, refl, sym, subst, ◌∙◌, true, false, ◌||◌, Option, none, some, List, [], ◌∷◌, All, arith,
  Bool-cases, inl, inr,
}
use unifi_network_rules.Text.{Text, text_eq, text_eq_iff}
use unifi_network_rules.IdSet.{IdSet, member, add, discard, member-add, member-discard}
use unifi_network_rules.RuleId.{get_rule_id}
use unifi_network_rules.KillSwitch.{kill_switch_id}
use unifi_network_rules.KillSwitch.Created.{
  Platform, missing, refuses, adds, Creation, is_there, add_to_platform, create_switch, create_for,
  create_traffic_route_kill_switch, put_id, create_all, NoneTwice,
}

-- What a call does to the set: it adds the id of the switch that it gives, which was not there.
abbrev Gives : IdSet → IdSet × Option Text → Type 0
Gives created (now, none) = (k : Text) → member k now ≡ member k created
Gives created (now, some id) =
    (member id created ≡ false) × ((k : Text) → member k now ≡ (text_eq id k || member k created))

text_eq_sym : (s t : Text) → text_eq s t ≡ text_eq t s
text_eq_sym s t = elim (Bool-cases (text_eq s t)) [
  | inl e ↦ rw ((text_eq_iff s t).0 e) refl
  | inr e ↦ ground (arith, text_eq_iff s t, text_eq_iff t s)
]

discard-absent :
    (id k : Text) (created : IdSet)
    → member id created ≡ false
    → member k (discard id created) ≡ member k created
discard-absent id k created h = elim (Bool-cases (text_eq id k)) [
  | inl e ↦
      let same = (text_eq_iff id k).0 e in
      ground (arith, member-discard k id created, subst (λ j. member j created ≡ false) same h)
  | inr e ↦ ground (arith, member-discard k id created, text_eq_sym id k)
]

discard-added :
    (id k : Text) (created : IdSet)
    → member id created ≡ false
    → member k (discard id (add id created)) ≡ member k created
discard-added id k created h = elim (Bool-cases (text_eq id k)) [
  | inl e ↦
      let same = (text_eq_iff id k).0 e in
      ground (
        arith,
        text_eq_sym id k,
        member-discard k id (add id created),
        subst (λ j. member j created ≡ false) same h,
      )
  | inr e ↦
      ground
        (arith, text_eq_sym id k, member-discard k id (add id created), member-add k id created)
]

added :
    (id : Text) (created : IdSet)
    → member id created ≡ false
    → Gives created (add id created, some id)
added id created h = (h, λ k. member-add k id created)

add_to_platform-Gives :
    (p : Platform) (id : Text) (created : IdSet)
    → member id created ≡ false
    → Gives created (add_to_platform p id created)
add_to_platform-Gives missing id created h = λ k. discard-added id k created h
add_to_platform-Gives refuses id created h = λ k. discard-added id k created h
add_to_platform-Gives adds id created h = added id created h

create_switch-Gives :
    (c : Creation) (id : Text) (created : IdSet)
    → c.registry_raises ≡ false
    → Gives created (create_switch c id created)
unfolding create_switch
create_switch-Gives c id created fine = elim (Bool-cases (member id created)) [
  | inl there ↦ rw (fine, there) (λ k. refl)
  | inr new ↦ elim (Bool-cases c.build_raises) [
    | inl fails ↦ rw (fine, new, fails) (λ k. discard-absent id k created new)
    | inr built ↦ elim (Bool-cases c.return_entity) [
      | inl returned ↦ rw (fine, new, built, returned) (added id created new)
      | inr on_platform ↦
          rw (fine, new, built, on_platform) (add_to_platform-Gives c.platform id created new)
    ]
  ]
]

create_for-Gives :
    (c : Creation) (parent : Option Text) (created : IdSet)
    → c.registry_raises ≡ false
    → Gives created (create_for c parent created)
create_for-Gives c none created fine = λ k. refl
create_for-Gives c (some []) created fine = λ k. refl
create_for-Gives c (some (x ∷ parent)) created fine =
    create_switch-Gives c (kill_switch_id (x ∷ parent)) created fine

create-Gives :
    (c : Creation) (created : IdSet)
    → c.registry_raises ≡ false
    → Gives created (create_traffic_route_kill_switch c created)
unfolding create_traffic_route_kill_switch
create-Gives c created fine = elim (Bool-cases (is_there c.route.raw)) [
  | inl there ↦ rw there (create_for-Gives c (get_rule_id c.route.rule) created fine)
  | inr gone ↦ rw gone (λ k. refl)
]

abbrev pub RegistryWorks : Creation → Type 0
RegistryWorks c = c.registry_raises ≡ false

-- What the calls give are switches that were not there, each once; their ids are the new ones.
record Counts (created : IdSet) (r : IdSet × List Text) : Type 0 where
  once : NoneTwice r.1
  all_new : (k : Text) → member k r.1 ≡ true → member k created ≡ false
  kept : (k : Text) → member k r.0 ≡ (member k created || member k r.1)

-- A switch that was given is not given again.
not_again :
    (created now later : IdSet) (ids : List Text) (id : Text)
    → Gives created (now, some id)
    → Counts now (later, ids)
    → member id ids ≡ false
not_again created now later ids id g r = elim (Bool-cases (member id ids)) [
  | inl again ↦ absurd (ground (arith, r.all_new id again, g.1 id, (text_eq_iff id id).1 refl))
  | inr e ↦ e
]

first_or_later :
    (created now later : IdSet) (ids : List Text) (id : Text)
    → Gives created (now, some id)
    → Counts now (later, ids)
    → (k : Text) → member k (id ∷ ids) ≡ true
    → member k created ≡ false
unfolding member
first_or_later created now later ids id g r k h = elim (Bool-cases (text_eq id k)) [
  | inl e ↦ subst (λ j. member j created ≡ false) ((text_eq_iff id k).0 e) g.0
  | inr e ↦ ground (arith, r.all_new k, g.1 k, h, e)
]

put_id-Counts :
    (created : IdSet) (now : IdSet × Option Text) (later : IdSet × List Text)
    → Gives created now
    → Counts now.0 later
    → Counts created (later.0, put_id now.1 later.1)
unfolding member
put_id-Counts created (now, none) (later, ids) g r = record {
  once = r.once;
  all_new = λ k h. sym (g k) ∙ r.all_new k h;
  kept = λ k. ground (arith, g k, r.kept k);
}
put_id-Counts created (now, some id) (later, ids) g r = record {
  once = (not_again created now later ids id g r, r.once);
  all_new = λ k h. first_or_later created now later ids id g r k h;
  kept = λ k. ground (arith, g.1 k, r.kept k);
}

create_all-Counts :
    (cs : List Creation) (created : IdSet)
    → All RegistryWorks cs
    → Counts created (create_all cs created)
unfolding create_all member
create_all-Counts [] created h = record {
  once = tt;
  all_new = λ k h. absurd (ground (arith, h));
  kept = λ k. ground arith;
}
create_all-Counts (c ∷ cs) created h =
    put_id-Counts created (create_traffic_route_kill_switch c created)
      (create_all cs (create_traffic_route_kill_switch c created).0) (create-Gives c created h.0)
      (create_all-Counts cs (create_traffic_route_kill_switch c created).0 h.1)

-- If the entity registry never raises, then however the other steps of a row of calls end, the calls
-- give out no kill switch twice and none whose id was in the set before, and afterwards the set has,
-- besides the ids from before, just those of the switches that were given out.
pub create_all-NoneTwice :
    (cs : List Creation) (created : IdSet)
    → All RegistryWorks cs
    → let (now, ids) = create_all cs created in
      NoneTwice ids
      × ((k : Text) → member k ids ≡ true → member k created ≡ false)
      × ((k : Text) → member k now ≡ (member k created || member k ids))
create_all-NoneTwice cs created h =
    let counts = create_all-Counts cs created h in (counts.once, counts.all_new, counts.kept)

-- ===== src/Entities/Removals.antt =====
-- Which entities the check for deleted rules removes.
use unifi_network_rules.Prelude.{
  ℕ, ◌+◌, ◌*◌, ◌≡◌, refl, Bool, true, false, not, ◌&&◌, ◌||◌, [], ◌∷◌, keep, length, length-append,
  ltb, arith, if◌then◌else◌, Bool-cases, inl, inr,
}
use unifi_network_rules.Text.{Text, text_eq_iff}
use unifi_network_rules.IdSet.{IdSet, member, minus, member-append, member-minus, member-discard}
use unifi_network_rules.Entities.{EntityData}
use unifi_network_rules.Entities.Creation.{Manager}
use unifi_network_rules.Entities.Deletion.{
  all_rule_sources_types, process_deleted_rules, is_empty, present_ids, remove_entity,
  remove_entities, check_for_deleted_rules,
}
use unifi_network_rules.Entities.Loops.{is_rule_in, is_device_in}
use unifi_network_rules.Entities.Present.{member-present_ids, member-first_of, length-first_of}

-- More than ten ids are missing, and more than a quarter of those that were tracked.
abbrev pub is_mass_removal : IdSet → IdSet → Bool
is_mass_removal missing tracked =
    ltb 10 (length missing) && ltb (length tracked) (length missing * 4)

member-process_deleted_rules :
    (k : Text) (missing : IdSet) (total : ℕ)
    → member k (process_deleted_rules missing total) ≡ true
    → member k missing ≡ true
unfolding process_deleted_rules
member-process_deleted_rules k missing total h = ground (arith, member-first_of k 5 missing)

length-process_deleted_rules :
    (missing tracked : IdSet)
    → length (process_deleted_rules missing (length tracked))
      ≡ (if is_mass_removal missing tracked then 5 else length missing)
unfolding process_deleted_rules
length-process_deleted_rules missing tracked = ground (arith, length-first_of 5 missing)

empty-minus : (ids others : IdSet) → is_empty ids ≡ true → minus ids others ≡ []
unfolding minus keep
empty-minus [] others h = refl
empty-minus (id ∷ ids) others h = cc

-- What the tasks of some ids change.
pub record Removed (k : Text) (ids : IdSet) (s t : Manager) : Type 0 where
  pub forgotten : member k t.known ≡ (member k s.known && not (member k ids))
  pub begun : member k t.removals ≡ (member k s.removals || member k ids)
  pub counted : length t.removals ≡ length s.removals + length ids
  pub callback : t.callback_set ≡ s.callback_set

pub remove_entities-Removed :
    (k : Text) (ids : IdSet) (s : Manager) → Removed k ids s (remove_entities ids s)
unfolding remove_entities remove_entity member
remove_entities-Removed k [] s = record {
  forgotten = ground arith;
  begun = ground arith;
  counted = omega arith;
  callback = refl;
}
remove_entities-Removed k (id ∷ ids) s =
    let r = remove_entities-Removed k ids (remove_entity id s) in
    record {
      forgotten =
          ground
            (arith, r.forgotten, member-discard k id s.known, text_eq_iff k id, text_eq_iff id k);
      begun = ground (arith, r.begun, member-append k s.removals (id ∷ []));
      counted = omega (arith, r.counted, length-append s.removals (id ∷ []));
      callback = r.callback;
    }

-- The check for deleted rules begins the removal only of ids that were tracked and that it finds
-- under none of its thirteen rule types and at no device.
pub check-scheduled :
    (k : Text) (initial_update_done : Bool) (fetched : EntityData) (s : Manager)
    → member k s.removals ≡ false
    → member k (check_for_deleted_rules initial_update_done fetched s).removals ≡ true
    → (member k s.known ≡ true)
      × (is_rule_in k all_rule_sources_types fetched ≡ false)
      × (is_device_in k fetched ≡ false)
unfolding check_for_deleted_rules
check-scheduled k false fetched s old new = cc
check-scheduled k true fetched s old new =
    let missing = minus s.known (present_ids fetched) in
    let total = length s.known in
    let p = member-process_deleted_rules k missing total in
    let q = (remove_entities-Removed k (process_deleted_rules missing total) s).begun in
    let m = member-minus k s.known (present_ids fetched) in
    let c = member-present_ids k fetched in
    (ground (arith, p, q, m, c), ground (arith, p, q, m, c), ground (arith, p, q, m, c))

-- After the initial update, the check for deleted rules begins as many removals as tracked ids are
-- missing in the data; but if more than ten are missing, and more than a quarter of those tracked, it
-- begins exactly five. Before the initial update is done it does nothing.
pub check-limited :
    (fetched : EntityData) (s : Manager)
    → let t = check_for_deleted_rules true fetched s in
      let missing = minus s.known (present_ids fetched) in
      (length t.removals
        ≡ length s.removals + (if is_mass_removal missing s.known then 5 else length missing))
      × (check_for_deleted_rules false fetched s ≡ s)
unfolding check_for_deleted_rules
check-limited fetched s = elim (Bool-cases (is_empty s.known)) [
  | inl e ↦ rw (e, empty-minus s.known (present_ids fetched) e) (omega arith, refl)
  | inr e ↦
      let missing = minus s.known (present_ids fetched) in
      let gone = process_deleted_rules missing (length s.known) in
      rw e (
        omega (
          arith,
          (remove_entities-Removed [] gone s).counted,
          length-process_deleted_rules missing s.known,
        ),
        refl,
      )
]

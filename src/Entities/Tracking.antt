-- ===== src/Entities/Tracking.antt =====
-- The ids that are tracked after a discovery, those that were added and those to be removed.
use unifi_network_rules.Prelude.{
  ◌≡◌, refl, Bool, true, false, not, ◌&&◌, ◌||◌, some, [], ◌∷◌, ◌++◌, arith, if◌then◌else◌,
  Bool-cases, inl, inr,
}
use unifi_network_rules.Text.{Text, text_eq, text_eq_iff}
use unifi_network_rules.IdSet.{IdSet, member, minus, member-append, member-minus, member-update}
use unifi_network_rules.Entities.{
  EntityData, Candidate, Candidates, Discovery, process_entity_types, process_devices_for_discovery,
  rule_type_entity_map,
}
use unifi_network_rules.Entities.Creation.{
  Answers, Manager, create_entities, ids_of, establish_parent_child_links, cleanup_stale_known_ids,
  add_entities_to_home_assistant, discover_and_add_new_entities,
}
use unifi_network_rules.Entities.Loops.{is_candidate, is_current, loops-Finds}

-- Each class gives its entity the unique id that it was chosen for.
abbrev pub BuildsAsked : Answers → Type 0
BuildsAsked a = (id : Text) (c : Candidate) → a.build id c ≡ some id

module _ (k : Text) where
  member-ids_of :
      (made : Candidates) (id : Text) (c : Candidate)
      → member k (ids_of (made ++ (id, c) ∷ [])) ≡ (member k (ids_of made) || text_eq id k)
  unfolding member
  member-ids_of [] id c = ground arith
  member-ids_of ((j, d) ∷ made) id c = ground (arith, member-ids_of made id c)

  abbrev next_made : Bool → IdSet → Candidates → Text → Candidate → Candidates
  next_made built known made id c =
      if member id known || member id (ids_of made)
      then made
      else if built
      then made ++ (id, c) ∷ []
      else made

  member-next_made :
      (known : IdSet) (made : Candidates) (id : Text) (c : Candidate)
      → member k (ids_of (next_made true known made id c))
        ≡ (member k (ids_of made) || (text_eq id k && not (member k known)))
  member-next_made known made id c = elim (Bool-cases (text_eq id k)) [
    | inl e ↦ rw ((text_eq_iff id k).0 e) (ground (arith, member-ids_of made k c, text_eq_iff k k))
    | inr e ↦ ground (arith, member-ids_of made id c)
  ]

module _ (k : Text) (a : Answers) (builds : BuildsAsked a) where
  member-create_entities :
      (known : IdSet) (made m : Candidates)
      → member k (ids_of (create_entities a known made m))
        ≡ (member k (ids_of made) || (is_candidate k m && not (member k known)))
  unfolding create_entities is_candidate
  member-create_entities known made [] = ground arith
  member-create_entities known made ((id, c) ∷ m) =
      rw (builds id c, (text_eq_iff id id).1 refl)
        (ground (
          arith,
          member-next_made k known made id c,
          member-create_entities known (next_made k true known made id c) m,
        ))

module _ (k : Text) where
  -- What was found, by the ids that were known at the start.
  record Accounted (known current : IdSet) (s t : Manager) (new : Bool) : Type 0 where
    tracked : member k t.known ≡ ((member k known && member k current) || new)
    created : member k t.added ≡ (member k s.added || new)
    to_remove :
        member k t.removals ≡ (member k s.removals || (member k known && not (member k current)))

  cleanup-Accounted :
      (current : IdSet) (s : Manager)
      → Accounted s.known current s (cleanup_stale_known_ids current s) false
  unfolding cleanup_stale_known_ids
  cleanup-Accounted current s =
      let stale = minus s.known current in
      record {
        tracked = ground (arith, member-minus k s.known stale, member-minus k s.known current);
        created = ground arith;
        to_remove =
            ground (arith, member-append k s.removals stale, member-minus k s.known current);
      }

  add_entities-Accounted :
      (a : Answers) (made : Candidates) (known current : IdSet) (s t : Manager)
      → t.callback_set ≡ true
      → a.accepts ≡ true
      → Accounted known current s t false
      → Accounted known current s (add_entities_to_home_assistant a made t) (member k (ids_of made))
  unfolding add_entities_to_home_assistant member
  add_entities-Accounted a [] known current s t c y h = record {
    tracked = ground (arith, h.tracked);
    created = ground (arith, h.created);
    to_remove = h.to_remove;
  }
  add_entities-Accounted a ((id, e) ∷ made) known current s t c y h =
      let new = ids_of ((id, e) ∷ made) in
      rw (c, y)
        (record {
          tracked = ground (arith, h.tracked, member-update k t.known new);
          created = ground (arith, h.created, member-append k t.added new);
          to_remove = h.to_remove;
        })

-- With the callback set, where it accepts the new entities and each class gives the unique id that
-- it was chosen for, a discovery leaves exactly the ids tracked that the fetched data has switches
-- for. It adds an entity for exactly those of them that were not tracked and that the registry does
-- not have, and begins the removal of exactly the tracked ids that the data no longer has.
pub discover_lem :
    (k : Text) (a : Answers) (fetched : EntityData) (s : Manager)
    → s.callback_set ≡ true
    → a.accepts ≡ true
    → BuildsAsked a
    → let t = discover_and_add_new_entities a fetched s in
      (member k t.known ≡ is_current k fetched)
      × (member k t.added ≡ (
          member k s.added || (is_current k fetched && not (member k s.known || a.in_registry k))))
      × (member k t.removals
          ≡ (member k s.removals || (member k s.known && not (is_current k fetched))))
unfolding discover_and_add_new_entities member is_candidate
discover_lem k a fetched s set accepts builds =
    let before : Discovery = record { known = s.known; potential = []; current = [] } in
    let d : Discovery =
      process_devices_for_discovery a.in_registry fetched.devices
        (process_entity_types a.in_registry rule_type_entity_map fetched before) in
    let f = loops-Finds k a.in_registry s.known fetched in
    let m = record s { known = d.known } in
    let c = cleanup_stale_known_ids d.current m in
    let made = create_entities a c.known [] d.potential in
    let linked = record c { links = c.links ++ establish_parent_child_links a made made } in
    let e = cleanup-Accounted k d.current m in
    let g : Accounted k d.known d.current m linked false = record {
      tracked = e.tracked;
      created = e.created;
      to_remove = e.to_remove;
    } in
    let done =
      add_entities-Accounted k a made d.known d.current m linked
        (unfold cleanup_stale_known_ids in set) accepts g in
    let new = member-create_entities k a builds c.known [] d.potential in
    ground (
      arith, f.current, f.split.known, f.split.potential, e.tracked, done.tracked, done.created,
      done.to_remove, new,
    )

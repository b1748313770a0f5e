-- ===== src/Detector/Events.antt =====
-- Which events a new snapshot raises.
use unifi_network_rules.Prelude.{
  ℕ, ◌+◌, String, ◌≡◌, refl, Bool, false, [], ◌∷◌, length, arith, All,
}
use unifi_network_rules.Dict.{get, IsDistinct, Fits, Fits-self, has-of_get}
use unifi_network_rules.Detector.{EntityState}
use unifi_network_rules.Detector.Actions.{IsJsonState, determine_change_action-same}
use unifi_network_rules.Detector.Detection.{
  Entities, Snapshot, nothing, detect_entities, detect_types, deleted_entities, deleted_types,
  detect_changes,
}

-- The number of the entities of a snapshot.
unfoldable pub count_entities : Snapshot → ℕ
count_entities [] = 0
count_entities ((rule_type, entities) ∷ rest) = length entities + count_entities rest

startup_entities :
    (rule_type : String) (entities : Entities)
    → detect_entities false rule_type [] entities
      ≡ record { changes = []; suppressed = length entities; checked = [] }
unfolding detect_entities get
startup_entities rule_type [] = refl
startup_entities rule_type ((id, state) ∷ rest) = ground (arith, startup_entities rule_type rest)

startup_types :
    (current : Snapshot)
    → detect_types false [] current
      ≡ record { changes = []; suppressed = count_entities current; checked = [] }
unfolding detect_types count_entities get
startup_types [] = refl
startup_types ((rule_type, entities) ∷ rest) =
    ground (arith, startup_entities rule_type entities, startup_types rest)

-- The first snapshot, before the initial update is done, raises no event: every entity in it is
-- counted as suppressed, and no flag of an operation is consumed.
pub detect_changes-startup :
    (current : Snapshot)
    → detect_changes false [] current
      ≡ record { changes = []; suppressed = count_entities current; checked = [] }
unfolding detect_changes deleted_types
detect_changes-startup current = ground (arith, startup_types current)

-- No key stands twice, and the values are JSON values.
abbrev pub IsProper : Snapshot → Type 0
IsProper snapshot =
    IsDistinct snapshot
    × All
        (λ (e : String × Entities).
          IsDistinct e.1 × All (λ (x : String × EntityState). IsJsonState x.1) e.1)
        snapshot

module _ (done : Bool) where
  same_entities :
      (rule_type : String) (part entities : Entities)
      → Fits part entities
      → All (λ (x : String × EntityState). IsJsonState x.1) part
      → detect_entities done rule_type entities part ≡ nothing
  unfolding detect_entities
  same_entities rule_type [] entities f j = refl
  same_entities rule_type ((id, state) ∷ part) entities f j =
      rw
        (f.0, determine_change_action-same state j.0, same_entities rule_type part entities f.1 j.1)

  kept_entities :
      (rule_type : String) (part entities : Entities)
      → Fits part entities
      → deleted_entities rule_type entities part ≡ nothing
  unfolding deleted_entities
  kept_entities rule_type [] entities f = refl
  kept_entities rule_type ((id, state) ∷ part) entities f =
      rw (has-of_get id state entities f.0, kept_entities rule_type part entities f.1)

  same_types :
      (part snapshot : Snapshot)
      → Fits part snapshot
      → All
          (λ (e : String × Entities).
            IsDistinct e.1 × All (λ (x : String × EntityState). IsJsonState x.1) e.1)
          part
      → detect_types done snapshot part ≡ nothing
  unfolding detect_types
  same_types [] snapshot f p = refl
  same_types ((rule_type, entities) ∷ part) snapshot f p = rw (
    f.0,
    same_entities rule_type entities entities (Fits-self entities p.0.0) p.0.1,
    same_types part snapshot f.1 p.1,
  )

  kept_types :
      (part snapshot : Snapshot)
      → Fits part snapshot
      → All
          (λ (e : String × Entities).
            IsDistinct e.1 × All (λ (x : String × EntityState). IsJsonState x.1) e.1)
          part
      → deleted_types snapshot part ≡ nothing
  unfolding deleted_types
  kept_types [] snapshot f p = refl
  kept_types ((rule_type, entities) ∷ part) snapshot f p = rw (
    f.0,
    kept_entities rule_type entities entities (Fits-self entities p.0.0),
    kept_types part snapshot f.1 p.1,
  )

-- A snapshot that is the same as the one before raises no event, suppresses none and consumes no
-- flag of an operation, before the initial update is done and after it.
pub detect_changes-same :
    (initial_update_done : Bool) (snapshot : Snapshot)
    → IsProper snapshot
    → detect_changes initial_update_done snapshot snapshot ≡ nothing
unfolding detect_changes
detect_changes-same initial_update_done snapshot p =
    let f = Fits-self snapshot p.0 in
    rw (
      same_types initial_update_done snapshot snapshot f p.1,
      kept_types initial_update_done snapshot snapshot f p.1,
    )

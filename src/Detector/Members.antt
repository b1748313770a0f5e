-- ===== src/Detector/Members.antt =====
-- No change is missed: the events that a comparison of snapshots must contain.
use unifi_network_rules.Prelude.{
  String, ◌≡◌, refl, sym, ◌⊎◌, inl, inr, Bool, true, false, not, any, Option, none, some, List, [],
  ◌∷◌, ◌++◌, arith, if◌then◌else◌, Bool-cases,
}
use mathlib.Core.Path.{subst}
use text.Mathlib.Text.{◌==◌}
use text.Mathlib.TextEquality.{eq_iff}
use unifi_network_rules.Dict.{Dict, has, get}
use unifi_network_rules.Value.{bool, py_eq}
use unifi_network_rules.Detector.{
  EntityState, ChangeAction, created, deleted, enabled, disabled, modified, get_or, get_null,
  significant_fields, field_differs, is_kill_switch_child,
}
use unifi_network_rules.Detector.Creation.{ChangeEvent, create_change_event}
use unifi_network_rules.Detector.Detection.{
  Entities, Snapshot, nothing, found, entities_of, detect_types, deleted_entities, deleted_types,
  detect_changes,
}

-- The event is one of the list.
abbrev pub Has : ChangeEvent → List ChangeEvent → Type 0
Has e [] = ⊥
Has e (x ∷ xs) = (e ≡ x) ⊎ Has e xs

Has-left : (e : ChangeEvent) (xs ys : List ChangeEvent) → Has e xs → Has e (xs ++ ys)
Has-left e [] ys h = absurd h
Has-left e (x ∷ xs) ys (inl p) = inl p
Has-left e (x ∷ xs) ys (inr h) = inr (Has-left e xs ys h)

Has-right : (e : ChangeEvent) (xs ys : List ChangeEvent) → Has e ys → Has e (xs ++ ys)
Has-right e [] ys h = h
Has-right e (x ∷ xs) ys h = inr (Has-right e xs ys h)

module _ {ℓ} {V : Type ℓ} (k : String) (v : V) where
  -- The value at a key, at the head of the entries or below it.
  head_or_rest :
      (j : String) (w : V) (m : Dict V)
      → get k ((j, w) ∷ m) ≡ some v
      → (◌≡◌ {A = String × V} (j, w) (k, v)) ⊎ (get k m ≡ some v)
  unfolding get
  head_or_rest j w m g = elim (Bool-cases (j == k)) [
    | inl same ↦ inl (ground (arith, eq_iff j k, g))
    | inr other ↦ inr (rw other at g)
  ]

module _ (e : ChangeEvent) (entity_id rule_type : String) where
  Has-deleted_entities :
      (current entities : Entities) (state : EntityState)
      → get entity_id entities ≡ some state
      → has entity_id current ≡ false
      → create_change_event entity_id rule_type (some state) none deleted ≡ some e
      → Has e (deleted_entities rule_type current entities).changes
  unfolding deleted_entities
  Has-deleted_entities current [] state g a c = unfold get in cc
  Has-deleted_entities current ((id, s) ∷ rest) state g a c =
      elim (head_or_rest entity_id state id s rest g) [
        | inl here ↦ Has-left e _ _ (
            subst
              (λ (p : String × EntityState).
                Has e
                  (if not (has p.0 current)
                    then found (create_change_event p.0 rule_type (some p.1) none deleted)
                    else nothing).changes)
              (sym here) (rw (a, c) (inl refl)))
        | inr there ↦
            Has-right e
              (if not (has id current)
                then found (create_change_event id rule_type (some s) none deleted)
                else nothing).changes
              _ (Has-deleted_entities current rest state there a c)
      ]

  Has-deleted_types :
      (current previous : Snapshot) (entities : Entities)
      → get rule_type previous ≡ some entities
      → Has e (deleted_entities rule_type (entities_of (get rule_type current)) entities).changes
      → Has e (deleted_types current previous).changes
  unfolding deleted_types
  Has-deleted_types current [] entities g h = unfold get in cc
  Has-deleted_types current ((type_, part) ∷ rest) entities g h =
      elim (head_or_rest rule_type entities type_ part rest g) [
        | inl here ↦ Has-left e _ _ (
            subst
              (λ (p : String × Entities).
                Has e (deleted_entities p.0 (entities_of (get p.0 current)) p.1).changes)
              (sym here) h)
        | inr there ↦
            Has-right e (deleted_entities type_ (entities_of (get type_ current)) part).changes _
              (Has-deleted_types current rest entities there h)
      ]

-- What is to be reported of an entity, by its state before, if it had one, and its state now: it
-- appeared; it was turned on or off; or it was edited, if neither its state nor that of its LED
-- changed, it is no kill switch, and one of the significant fields differs.
pub data Reports : Option EntityState → EntityState → ChangeAction → Type 0 where
  appeared : (new : EntityState) → Reports none new created
  turned_on :
      (old new : EntityState)
      → get_or "enabled" (bool false) old ≡ bool false
      → get_or "enabled" (bool false) new ≡ bool true
      → Reports (some old) new enabled
  turned_off :
      (old new : EntityState)
      → get_or "enabled" (bool false) old ≡ bool true
      → get_or "enabled" (bool false) new ≡ bool false
      → Reports (some old) new disabled
  edited :
      (old new : EntityState)
      → py_eq (get_or "enabled" (bool false) old) (get_or "enabled" (bool false) new) ≡ true
      → py_eq (get_null "led_override" old) (get_null "led_override" new) ≡ true
      → is_kill_switch_child old new ≡ false
      → any (field_differs old new) significant_fields ≡ true
      → Reports (some old) new modified

-- An entity of the last snapshot that the new one does not have under its type, for which an event
-- can be made, is reported as deleted, before the initial update is done and after it.
pub detect_changes-deleted :
    (initial_update_done : Bool) (e : ChangeEvent) (entity_id rule_type : String)
    (previous current : Snapshot) (entities : Entities) (state : EntityState)
    → get rule_type previous ≡ some entities
    → get entity_id entities ≡ some state
    → has entity_id (entities_of (get rule_type current)) ≡ false
    → create_change_event entity_id rule_type (some state) none deleted ≡ some e
    → Has e (detect_changes initial_update_done previous current).changes
unfolding detect_changes
detect_changes-deleted initial_update_done e entity_id rule_type previous current entities state t g
      a c =
    Has-right e (detect_types initial_update_done previous current).changes _ (
      Has-deleted_types e entity_id rule_type current previous entities t (
        Has-deleted_entities e entity_id rule_type (entities_of (get rule_type current)) entities
          state g a c))

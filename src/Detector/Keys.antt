-- ===== src/Detector/Keys.antt =====
-- _build_state_snapshot of unified_change_detector.py: which entities a snapshot has.
use text.Mathlib.Text.{◌==◌}
use text.Mathlib.TextEquality.{eq_iff}
use unifi_network_rules.Prelude.{
  String, ◌≡◌, refl, ◌∙◌, subst, Bool, true, false, ◌||◌, Option, none, some, List, [], ◌∷◌, any,
  arith, Bool-cases, inl, inr, if◌then◌else◌,
}
use unifi_network_rules.Dict.{Dict, has, get, put, has-put, get-put, IsDistinct}
use unifi_network_rules.Value.{Value}
use unifi_network_rules.Detector.{EntityState}
use unifi_network_rules.Detector.Creation.{rule_type_mapping}
use unifi_network_rules.Detector.Detection.{Entities, Snapshot, entities_of}
use unifi_network_rules.Detector.Snapshot.{
  Entity, entity_data_of, child_of, put_child, add_data, add_entity, add_entities, add_types,
  build_state_snapshot,
}

abbrev child_key : String → Option (String × EntityState) → Bool
child_key k none = false
child_key k (some (id, m)) = id == k

has-put_child :
    (k : String) (c : Option (String × EntityState)) (m : Entities)
    → has k (put_child c m) ≡ (child_key k c || has k m)
has-put_child k none m = refl
has-put_child k (some (id, s)) m = has-put id k s m

module _ (format : Value → String) (rule_type : String) where
  abbrev pub data_key : String → Option String → Option String × EntityState → Bool
  data_key k rule_id (none, m) = false
  data_key k rule_id (some entity_id, m) =
      entity_id == k || child_key k (child_of format rule_type entity_id rule_id m)

  -- Whether the key is the id of the entity, or that of its kill switch.
  abbrev pub is_key_of : String → Entity → Bool
  is_key_of k entity = data_key k entity.rule_id (entity_data_of rule_type entity.form)

  has-add_data :
      (k : String) (rule_id : Option String) (d : Option String × EntityState) (m : Entities)
      → has k (add_data format rule_type rule_id d m) ≡ (data_key k rule_id d || has k m)
  has-add_data k rule_id (none, s) m = refl
  has-add_data k rule_id (some entity_id, s) m =
      let c = child_of format rule_type entity_id rule_id s in
      ground (arith, has-put_child k c (put entity_id s m), has-put entity_id k s m)

  has-add_entities :
      (k : String) (es : List Entity) (m : Entities)
      → has k (add_entities format rule_type es m) ≡ (any (is_key_of k) es || has k m)
  unfolding add_entities any add_entity
  has-add_entities k [] m = refl
  has-add_entities k (e ∷ es) m = ground (
    arith,
    has-add_entities k es (add_entity format rule_type e m),
    has-add_data k e.rule_id (entity_data_of rule_type e.form) m,
  )

some_inj {ℓ} : {A : Type ℓ} (a b : A) → some a ≡ some b → a ≡ b
some_inj a b h = ground (arith, h)

module _ {ℓ} {V : Type ℓ} where
  get-put_if :
      (b : Bool) (u t : String) (x : V) (m : Dict V)
      → (u == t) ≡ false
      → get t (if b then put u x m else m) ≡ get t m
  get-put_if true u t x m n = get-put u t x m ∙ rw n refl
  get-put_if false u t x m n = refl

  get-put_same : (t : String) (x : V) (m : Dict V) → get t (put t x m) ≡ some x
  get-put_same t x m = get-put t t x m ∙ rw ((eq_iff t t).1 refl) refl

-- A type that comes once is put there once.
get-add_types_absent :
    (format : Value → String) (t : String) (current : Dict (List Entity)) (snapshot : Snapshot)
    → has t current ≡ false
    → get t (add_types format current snapshot) ≡ get t snapshot
unfolding add_types has
get-add_types_absent format t [] snapshot h = refl
get-add_types_absent format t ((u, es) ∷ rest) snapshot h =
    let b = has u rule_type_mapping in
    let x = add_entities format u es [] in
    get-add_types_absent format t rest (if b then put u x snapshot else snapshot)
      (ground (arith, h))
    ∙ get-put_if b u t x snapshot (ground (arith, h))

add_types-known :
    (format : Value → String) (t : String) (es : List Entity) (rest : Dict (List Entity))
    (snapshot : Snapshot)
    → has t rule_type_mapping ≡ true
    → add_types format ((t, es) ∷ rest) snapshot
      ≡ add_types format rest (put t (add_entities format t es []) snapshot)
unfolding add_types
add_types-known format t es rest snapshot h = rw (add_types, h) refl

here :
    (format : Value → String) (t : String) (es : List Entity) (rest : Dict (List Entity))
    (snapshot : Snapshot)
    → has t rest ≡ false
    → has t rule_type_mapping ≡ true
    → get t (add_types format ((t, es) ∷ rest) snapshot) ≡ some (add_entities format t es [])
here format t es rest snapshot d h = rw (add_types-known format t es rest snapshot h) (
    get-add_types_absent format t rest (put t (add_entities format t es []) snapshot) d
    ∙ get-put_same t (add_entities format t es []) snapshot)

get-add_types :
    (format : Value → String) (t : String) (es : List Entity) (current : Dict (List Entity))
    (snapshot : Snapshot)
    → IsDistinct current
    → get t current ≡ some es
    → has t rule_type_mapping ≡ true
    → get t (add_types format current snapshot) ≡ some (add_entities format t es [])
unfolding add_types get
get-add_types format t es [] snapshot d g h = cc g
get-add_types format t es ((u, fs) ∷ rest) snapshot d g h = elim (Bool-cases (u == t)) [
  | inl e ↦
      let p = (eq_iff u t).0 e in
      rw (p, some_inj fs es (rw e at g))
        (here format t es rest snapshot (subst (λ v. has v rest ≡ false) p d.0) h)
  | inr e ↦
      get-add_types format t es rest
        (if has u rule_type_mapping then put u (add_entities format u fs []) snapshot else snapshot)
        d.1 (rw e at g) h
]

-- The entities of a snapshot's rule type, if the data have the type once and it is one of the
-- mapping: a key is there exactly if it is the id of an entity or that of the kill switch of one.
has-build_state_snapshot :
    (format : Value → String) (current : Dict (List Entity)) (t k : String) (es : List Entity)
    → IsDistinct current
    → get t current ≡ some es
    → has t rule_type_mapping ≡ true
    → has k (entities_of (get t (build_state_snapshot format current)))
      ≡ any (is_key_of format t k) es
unfolding build_state_snapshot
has-build_state_snapshot format current t k es d g h =
    rw (get-add_types format t es current [] d g h)
      (has-add_entities format t k es [] ∙ ground arith)

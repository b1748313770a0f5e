-- ===== src/Switch/SelfRemoval/Once.antt =====
-- A removal of a switch ends, and removes each switch that it begins to remove once.
use unifi_network_rules.Prelude.{
  ℕ, zero, suc, ◌+◌, ◌≤◌, ◌<◌, ◌≡◌, refl, ap, ◌∙◌, true, false, not, ◌&&◌, Option, some, List, [],
  ◌∷◌, length, length-keep-le, arith, Bool-cases, inl, inr,
}
use unifi_network_rules.Text.{Text, text_eq_iff}
use unifi_network_rules.IdSet.{member, add, minus}
use unifi_network_rules.Switch.SelfRemoval.{
  World, begin_removal, remove_directly, unlink_child, remove_self, map_world, then_world,
  remove_child, remove_children, initiate_self_removal,
}
use unifi_network_rules.Switch.SelfRemoval.Settled.{
  pending, length-minus-discard, length-minus-add-le, length-minus-add, times_removed, begun,
  begun-begin, Returns, Settled-refl, Settled-trans, remove_directly-Settled, unlink_child-Settled,
  remove_self-Settled,
}

Returns-refl : (w : World) → Returns w (some w)
Returns-refl w = record {
  result = w;
  returned = refl;
  fewer = omega arith;
  settled = λ k. Settled-refl k w;
}

-- The removals of entities return while fewer than `depth` are pending.
abbrev AllReturn : ℕ → (Text → World → Option World) → Type 0
AllReturn depth recurse =
    (id : Text) (w : World)
    → pending w < depth
    → member id w.entities ≡ true
    → Returns w (recurse id w)

remove_child-Returns :
    (depth : ℕ) (recurse : Text → World → Option World)
    → AllReturn depth recurse
    → (child : Text) (w : World) → pending w < depth
    → Returns w (remove_child recurse child w)
unfolding remove_directly
remove_child-Returns depth recurse ok child w few =
    elim (Bool-cases (member child w.registry && member child w.entities)) [
      | inl e ↦ rw e (ok child w few (ground (arith, e)))
      | inr e ↦ rw e (record {
        result = remove_directly child w;
        returned = refl;
        fewer = omega arith;
        settled = λ k. remove_directly-Settled k child w;
      })
    ]

remove_children-Returns :
    (depth : ℕ) (recurse : Text → World → Option World)
    → AllReturn depth recurse
    → (parent : Text) (children : List Text) (w : World) → pending w < depth
    → Returns w (remove_children recurse parent children w)
unfolding remove_children unlink_child
remove_children-Returns depth recurse ok parent [] w few = Returns-refl w
remove_children-Returns depth recurse ok parent (child ∷ rest) w few =
    let one = remove_child-Returns depth recurse ok child w few in
    let v = unlink_child parent child one.result in
    let more =
      remove_children-Returns depth recurse ok parent rest v (omega (arith, few, one.fewer)) in
    record {
      result = more.result;
      returned =
          ap
            (λ r.
              then_world r (λ u. remove_children recurse parent rest (unlink_child parent child u)))
            one.returned
          ∙ more.returned;
      fewer = omega (arith, one.fewer, more.fewer);
      settled = λ k.
          Settled-trans k w v more.result
            (unlink_child-Settled k parent child w one.result (one.settled k)) (more.settled k);
    }

initiate-new :
    (depth : ℕ) (id : Text) (w : World)
    → member id w.initiated ≡ false
    → initiate_self_removal (suc depth) id w
      ≡ map_world
          (remove_self id)
          (remove_children (initiate_self_removal depth) id (w.children id) (begin_removal id w))
unfolding initiate_self_removal
initiate-new depth id w new = rw new refl

record Began (id : Text) (w : World) (r : Option World) : Type 0 where
  returns : Returns w r
  begins : begun id returns.result ≡ 1

begun-Returns :
    (depth : ℕ) (id : Text) (w : World)
    → AllReturn depth (initiate_self_removal depth)
    → member id w.initiated ≡ false
    → pending (begin_removal id w) < depth
    → Began id w (initiate_self_removal (suc depth) id w)
unfolding begin_removal remove_self
begun-Returns depth id w ok new few =
    let b = begin_removal id w in
    let r =
      remove_children-Returns depth (initiate_self_removal depth) ok id (w.children id) b few in
    let u = remove_self id r.result in
    let returns : Returns w (initiate_self_removal (suc depth) id w) = record {
      result = u;
      returned = initiate-new depth id w new ∙ ap (map_world (remove_self id)) r.returned;
      fewer = omega (
        arith,
        r.fewer,
        length-minus-discard id r.result.entities r.result.initiated,
        length-minus-add-le id w.entities w.initiated,
      );
      settled = λ k. remove_self-Settled k id w r.result new (r.settled k);
    } in
    record {
      returns = returns;
      begins = ground (arith, (r.settled id).started, begun-begin id id w new, text_eq_iff id id);
    }

initiate-Returns : (depth : ℕ) → AllReturn depth (initiate_self_removal depth)
unfolding initiate_self_removal begin_removal
initiate-Returns zero id w few h = absurd (omega (arith, few))
initiate-Returns (suc depth) id w few h = elim (Bool-cases (member id w.initiated)) [
  | inl e ↦ rw e (Returns-refl w)
  | inr new ↦
      (begun-Returns depth id w (initiate-Returns depth) new
        (omega (arith, few, length-minus-add id w.entities w.initiated h new))).returns
]

-- The removal of a switch ends, however its children are linked, also in circles: a depth of two
-- more than the number of entities is enough. The switch's removal has then begun, and each entity
-- is removed once if its removal began in it, and not at all if not or if it had begun before.
pub initiate_self_removal_lem :
    (k id : Text) (depth : ℕ) (w : World)
    → length w.entities + 2 ≤ depth
    → (u : World) × (initiate_self_removal depth id w ≡ some u)
      × (begun id u ≡ 1)
      × (times_removed k u + begun k w ≡ times_removed k w + begun k u)
unfolding initiate_self_removal begin_removal minus
initiate_self_removal_lem k id zero w enough = absurd (omega (arith, enough))
initiate_self_removal_lem k id (suc depth) w enough = elim (Bool-cases (member id w.initiated)) [
  | inl e ↦ (w, rw e refl, ground (arith, e), refl)
  | inr new ↦
      let few = length-keep-le (λ j. not (member j (add id w.initiated))) w.entities in
      let r = begun-Returns depth id w (initiate-Returns depth) new (omega (arith, few, enough)) in
      (r.returns.result, r.returns.returned, r.begins, (r.returns.settled k).balance)
]

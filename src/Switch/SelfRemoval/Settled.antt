-- ===== src/Switch/SelfRemoval/Settled.antt =====
-- What a step of a removal does to the entities that are pending, and to one entity.
use unifi_network_rules.Prelude.{
  ℕ, ◌+◌, ◌≤◌, ◌<◌, ◌≡◌, sym, ◌∙◌, Bool, true, false, not, Option, some, List, [], ◌∷◌, ◌++◌, keep,
  length, arith, if◌then◌else◌, Bool-cases, inl, inr,
}
use unifi_network_rules.Text.{Text, text_eq, text_eq_iff}
use unifi_network_rules.IdSet.{IdSet, member, add, discard, minus, member-add, member-discard}
use unifi_network_rules.Switch.SelfRemoval.{
  World, begin_removal, remove_directly, unlink_child, remove_self,
}

module _ {A : Type 0} (p q : A → Bool) where
  length-keep-keep : (xs : List A) → length (keep p (keep q xs)) ≤ length (keep p xs)
  unfolding keep
  length-keep-keep [] = omega arith
  length-keep-keep (x ∷ xs) = ground (arith, length-keep-keep xs)

module _ {A : Type 0} (p : A → Bool) where
  length-keep-append :
      (xs ys : List A) → length (keep p (xs ++ ys)) ≡ length (keep p xs) + length (keep p ys)
  unfolding keep
  length-keep-append [] ys = omega arith
  length-keep-append (x ∷ xs) ys = ground (arith, length-keep-append xs ys)

  length-keep-one : (x : A) → length (keep p (x ∷ [])) ≡ (if p x then 1 else 0)
  unfolding keep
  length-keep-one x = ground arith

-- The entities whose removal has not begun.
abbrev pub pending : World → ℕ
pending w = length (minus w.entities w.initiated)

pub length-minus-discard :
    (id : Text) (ids others : IdSet)
    → length (minus (discard id ids) others) ≤ length (minus ids others)
unfolding minus discard
length-minus-discard id ids others =
    length-keep-keep (λ k. not (member k others)) (λ k. not (text_eq k id)) ids

pub length-minus-add-le :
    (id : Text) (ids others : IdSet)
    → length (minus ids (add id others)) ≤ length (minus ids others)
unfolding minus keep
length-minus-add-le id [] others = omega arith
length-minus-add-le id (x ∷ ids) others =
    ground (arith, length-minus-add-le id ids others, member-add x id others)

pub length-minus-add :
    (id : Text) (ids others : IdSet)
    → member id ids ≡ true
    → member id others ≡ false
    → length (minus ids (add id others)) < length (minus ids others)
unfolding minus keep member
length-minus-add id [] others h n = cc
length-minus-add id (x ∷ ids) others h n = elim (Bool-cases (text_eq x id)) [
  | inl e ↦ rw ((text_eq_iff x id).0 e) (
      ground
        (arith, length-minus-add-le id ids others, member-add id id others, text_eq_iff id id, n))
  | inr e ↦ ground (arith, length-minus-add id ids others, member-add x id others, h, n, e)
]

-- How often the entity was removed.
abbrev pub times_removed : Text → World → ℕ
times_removed k w = length (keep (λ id. text_eq id k) w.removed)

abbrev pub begun : Text → World → ℕ
begun k w = if member k w.initiated then 1 else 0

-- What a whole removal does for one entity.
pub record Settled (k : Text) (w u : World) : Type 0 where
  pub balance : times_removed k u + begun k w ≡ times_removed k w + begun k u
  pub started : begun k w ≤ begun k u
  pub unknown : member k w.known ≡ false → member k u.known ≡ false

pub record Returns (w : World) (r : Option World) : Type 0 where
  pub result : World
  pub returned : r ≡ some result
  pub fewer : pending result ≤ pending w
  pub settled : (k : Text) → Settled k w result

module _ (k : Text) where
  pub Settled-refl : (w : World) → Settled k w w
  Settled-refl w = record { balance = omega arith; started = omega arith; unknown = λ h. h }

  pub Settled-trans : (w v u : World) → Settled k w v → Settled k v u → Settled k w u
  Settled-trans w v u g h = record {
    balance = omega (arith, g.balance, h.balance, g.started, h.started);
    started = omega (arith, g.started, h.started);
    unknown = λ n. h.unknown (g.unknown n);
  }

  pub remove_directly-Settled : (child : Text) (w : World) → Settled k w (remove_directly child w)
  unfolding remove_directly
  remove_directly-Settled child w = record {
    balance = omega arith;
    started = omega arith;
    unknown = λ n. member-discard k child w.known ∙ ground (arith, n);
  }

  pub unlink_child-Settled :
      (parent child : Text) (w u : World)
      → Settled k w u
      → Settled k w (unlink_child parent child u)
  unfolding unlink_child
  unlink_child-Settled parent child w u h = record {
    balance = h.balance;
    started = h.started;
    unknown = h.unknown;
  }

  times_removed-remove_self :
      (id : Text) (u : World)
      → times_removed k (remove_self id u) ≡ times_removed k u + (if text_eq id k then 1 else 0)
  unfolding remove_self keep
  times_removed-remove_self id u = omega (
    arith,
    length-keep-append (λ x. text_eq x k) u.removed (id ∷ []),
    length-keep-one (λ x. text_eq x k) id,
  )

  pub begun-begin :
      (id : Text) (w : World)
      → member id w.initiated ≡ false
      → begun k (begin_removal id w) ≡ begun k w + (if text_eq id k then 1 else 0)
  unfolding begin_removal
  begun-begin id w new = elim (Bool-cases (text_eq id k)) [
    | inl e ↦
        rw (sym ((text_eq_iff id k).0 e))
          (ground (arith, member-add id id w.initiated, text_eq_iff id id, new))
    | inr e ↦ ground (arith, member-add k id w.initiated, e)
  ]

  pub remove_self-Settled :
      (id : Text) (w u : World)
      → member id w.initiated ≡ false
      → Settled k (begin_removal id w) u
      → Settled k w (remove_self id u)
  unfolding begin_removal remove_self
  remove_self-Settled id w u new h = record {
    balance = omega (arith, h.balance, begun-begin id w new, times_removed-remove_self id u);
    started = omega (arith, h.started, begun-begin id w new);
    unknown = λ n. h.unknown (member-discard k id w.known ∙ ground (arith, n));
  }

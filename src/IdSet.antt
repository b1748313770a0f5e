-- ===== src/IdSet.antt =====
-- Python's sets of ids, as lists of texts. The order of a set is not specified; nothing that is
-- proved depends on it.
use unifi_network_rules.Prelude.{
  ◌≡◌, refl, Bool, false, not, ◌&&◌, ◌||◌, List, [], ◌∷◌, ◌++◌, keep, arith, if◌then◌else◌,
  Bool-cases, inl, inr,
}
use unifi_network_rules.Text.{Text, text_eq, text_eq_iff}

abbrev pub IdSet : Type 0
IdSet = List Text

-- `id in ids`
unfoldable pub member : Text → IdSet → Bool
member k [] = false
member k (id ∷ ids) = text_eq id k || member k ids

-- `ids.add(id)`
unfoldable pub add : Text → IdSet → IdSet
add id ids = if member id ids then ids else ids ++ id ∷ []

-- `ids.discard(id)`
unfoldable pub discard : Text → IdSet → IdSet
discard id ids = keep (λ k. not (text_eq k id)) ids

-- `ids - others`
unfoldable pub minus : IdSet → IdSet → IdSet
minus ids others = keep (λ k. not (member k others)) ids

-- `ids.update(others)`
unfoldable pub update : IdSet → IdSet → IdSet
update ids [] = ids
update ids (id ∷ others) = update (add id ids) others

pub member-append :
    (k : Text) (ids others : IdSet) → member k (ids ++ others) ≡ (member k ids || member k others)
unfolding member
member-append k [] others = refl
member-append k (id ∷ ids) others = ground (arith, member-append k ids others)

pub member-add :
    (k id : Text) (ids : IdSet) → member k (add id ids) ≡ (text_eq id k || member k ids)
unfolding add member
member-add k id ids = ground (arith, member-append k ids (id ∷ []), text_eq_iff id k)

-- A condition that agrees on equal texts is kept by the members that meet it.
pub member-keep :
    (k : Text) (p : Text → Bool) (ids : IdSet) → member k (keep p ids) ≡ (member k ids && p k)
unfolding member keep
member-keep k p [] = refl
member-keep k p (id ∷ ids) = elim (Bool-cases (text_eq id k)) [
  | inl e ↦ rw ((text_eq_iff id k).0 e) (ground (arith, member-keep k p ids, text_eq_iff k k))
  | inr e ↦ ground (arith, member-keep k p ids)
]

pub member-discard :
    (k id : Text) (ids : IdSet) → member k (discard id ids) ≡ (member k ids && not (text_eq k id))
unfolding discard
member-discard k id ids = member-keep k (λ j. not (text_eq j id)) ids

pub member-minus :
    (k : Text) (ids others : IdSet)
    → member k (minus ids others) ≡ (member k ids && not (member k others))
unfolding minus
member-minus k ids others = member-keep k (λ j. not (member j others)) ids

pub member-update :
    (k : Text) (ids others : IdSet)
    → member k (update ids others) ≡ (member k ids || member k others)
unfolding update member
member-update k ids [] = ground arith
member-update k ids (id ∷ others) =
    ground (arith, member-update k (add id ids) others, member-add k id ids)

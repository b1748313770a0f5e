-- ===== src/Dict.antt =====
-- Python dictionaries with text keys, as the list of their entries in order of insertion: an
-- assignment to a key that is there keeps its place.
use text.Mathlib.Text.{◌==◌}
use text.Mathlib.TextEquality.{eq_iff}
use unifi_network_rules.Prelude.{
  String, ◌≡◌, refl, Bool, true, false, ◌||◌, Option, none, some, List, [], ◌∷◌, arith, Bool-cases,
  inl, inr, if◌then◌else◌,
}

abbrev pub Dict {ℓ} : Type ℓ → Type ℓ
Dict V = List (String × V)

module _ {ℓ} {V : Type ℓ} where
  unfoldable pub has : String → Dict V → Bool
  has k [] = false
  has k ((j, v) ∷ m) = j == k || has k m

  unfoldable pub get : String → Dict V → Option V
  get k [] = none
  get k ((j, v) ∷ m) = if j == k then some v else get k m

  unfoldable pub put : String → V → Dict V → Dict V
  put k v [] = (k, v) ∷ []
  put k v ((j, w) ∷ m) = if j == k then (j, v) ∷ m else (j, w) ∷ put k v m

  unfoldable pub delete : String → Dict V → Dict V
  delete k [] = []
  delete k ((j, v) ∷ m) = let rest = delete k m in if j == k then rest else (j, v) ∷ rest

  pub has-put : (k j : String) (v : V) (m : Dict V) → has j (put k v m) ≡ (k == j || has j m)
  unfolding has put
  has-put k j v [] = refl
  has-put k j v ((i, w) ∷ m) = ground (arith, eq_iff k j, eq_iff i k, eq_iff i j, has-put k j v m)

  pub has-delete :
      (k j : String) (m : Dict V) → has j (delete k m) ≡ (if k == j then false else has j m)
  unfolding has delete
  has-delete k j [] = ground arith
  has-delete k j ((i, w) ∷ m) = ground (arith, eq_iff k j, eq_iff i k, eq_iff i j, has-delete k j m)

  pub get-put :
      (k j : String) (v : V) (m : Dict V) → get j (put k v m) ≡ (if k == j then some v else get j m)
  unfolding get put
  get-put k j v [] = refl
  get-put k j v ((i, w) ∷ m) = ground (arith, eq_iff k j, eq_iff i k, eq_iff i j, get-put k j v m)

  -- No key stands twice.
  abbrev pub IsDistinct : Dict V → Type 0
  IsDistinct [] = Unit
  IsDistinct ((k, v) ∷ m) = (has k m ≡ false) × IsDistinct m

  -- The dictionary gives back each entry of the part.
  abbrev pub Fits : Dict V → Dict V → Type ℓ
  Fits [] m = Unit
  Fits ((k, v) ∷ part) m = (get k m ≡ some v) × Fits part m

  pub put-IsDistinct : (k : String) (v : V) (m : Dict V) → IsDistinct m → IsDistinct (put k v m)
  unfolding put has
  put-IsDistinct k v [] d = (refl, tt)
  put-IsDistinct k v ((j, w) ∷ m) d = elim (Bool-cases (j == k)) [
    | inl e ↦ rw e d
    | inr e ↦
        rw e (ground (arith, has-put k j v m, eq_iff j k, eq_iff k j), put-IsDistinct k v m d.1)
  ]

  Fits-cons :
      (k : String) (v : V) (part m : Dict V)
      → has k part ≡ false
      → Fits part m
      → Fits part ((k, v) ∷ m)
  unfolding get has
  Fits-cons k v [] m h f = tt
  Fits-cons k v ((j, w) ∷ part) m h f =
      (ground (arith, f.0, eq_iff k j, eq_iff j k), Fits-cons k v part m (ground arith) f.1)

  pub Fits-self : (m : Dict V) → IsDistinct m → Fits m m
  unfolding get
  Fits-self [] d = tt
  Fits-self ((k, v) ∷ m) d = (ground (arith, eq_iff k k), Fits-cons k v m m d.0 (Fits-self m d.1))

  pub has-of_get : (k : String) (v : V) (m : Dict V) → get k m ≡ some v → has k m ≡ true
  unfolding get has
  has-of_get k v [] h = cc
  has-of_get k v ((j, w) ∷ m) h = ground (arith, has-of_get k v m)

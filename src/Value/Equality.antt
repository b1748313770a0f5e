-- ===== src/Value/Equality.antt =====
-- A value equals itself, where no dictionary in it has a key twice.
use text.Mathlib.TextEquality.{eq_iff}
use unifi_network_rules.Prelude.{String, ◌≡◌, refl, true, false, none, some, arith}
use unifi_network_rules.Value.{
  Value, null, bool, num, negative, str, arr, obj, Items, no_items, item, Fields, no_fields, field,
  find, py_eq, items_eq, fields_eq,
}

abbrev mutual
  pub IsJson : Value → Type 0
  IsJson null = Unit
  IsJson (bool b) = Unit
  IsJson (num n) = Unit
  IsJson (negative n) = Unit
  IsJson (str s) = Unit
  IsJson (arr xs) = IsJsonItems xs
  IsJson (obj f) = IsJsonFields f

  pub IsJsonItems : Items → Type 0
  IsJsonItems no_items = Unit
  IsJsonItems (item x xs) = IsJson x × IsJsonItems xs

  pub IsJsonFields : Fields → Type 0
  IsJsonFields no_fields = Unit
  IsJsonFields (field k v f) = (find k f ≡ none) × IsJson v × IsJsonFields f

-- The dictionary gives back each entry of the part.
abbrev Fits : Fields → Fields → Type 0
Fits no_fields g = Unit
Fits (field k v f) g = (find k g ≡ some v) × Fits f g

Fits-field :
    (k : String) (v : Value) (f g : Fields) → find k f ≡ none → Fits f g → Fits f (field k v g)
unfolding find
Fits-field k v no_fields g h fits = tt
Fits-field k v (field j w f) g h fits =
    (ground (arith, fits.0, eq_iff k j, eq_iff j k), Fits-field k v f g (ground arith) fits.1)

Fits-self : (f : Fields) → IsJsonFields f → Fits f f
unfolding find
Fits-self no_fields d = tt
Fits-self (field k v f) d = (ground (arith, eq_iff k k), Fits-field k v f f d.0 (Fits-self f d.2))

mutual
  unfolding py_eq items_eq fields_eq

  eq_refl : (v : Value) → IsJson v → py_eq v v ≡ true
  eq_refl null j = refl
  eq_refl (bool true) j = refl
  eq_refl (bool false) j = refl
  eq_refl (num n) j = ground arith
  eq_refl (negative n) j = ground arith
  eq_refl (str s) j = ground (arith, eq_iff s s)
  eq_refl (arr xs) j = eq_refl_items xs j
  eq_refl (obj f) j = ground (arith, eq_refl_fields f f (Fits-self f j) j)

  eq_refl_items : (xs : Items) → IsJsonItems xs → items_eq xs xs ≡ true
  eq_refl_items no_items j = refl
  eq_refl_items (item x xs) j = ground (arith, eq_refl x j.0, eq_refl_items xs j.1)

  eq_refl_fields : (f g : Fields) → Fits f g → IsJsonFields f → fields_eq f g ≡ true
  eq_refl_fields no_fields g fits j = refl
  eq_refl_fields (field k v f) g fits j =
      ground (arith, fits.0, eq_refl v j.1, eq_refl_fields f g fits.1 j.2)

pub py_eq_refl : (v : Value) → IsJson v → py_eq v v ≡ true
py_eq_refl v j = eq_refl v j

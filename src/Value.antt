-- ===== src/Value.antt =====
-- JSON values as the code holds them: Python's `None`, Booleans, integers, texts, lists and
-- dictionaries, with `==` and truth. A number with a fraction is not modelled.
pub mod Equality
use text.Mathlib.Text.{◌==◌ as str_eq}
use unifi_network_rules.Prelude.{
  ℕ, suc, String, Bool, true, false, not, ◌&&◌, Option, none, some, List, [], ◌∷◌, ltb, ◌==◌,
  if◌then◌else◌,
}

-- `negative n` is -(n + 1).
mutual
  pub data Value : Type 0 where
    null : Value
    bool : Bool → Value
    num : ℕ → Value
    negative : ℕ → Value
    str : String → Value
    arr : Items → Value
    obj : Fields → Value

  pub data Items : Type 0 where
    no_items : Items
    item : Value → Items → Items

  pub data Fields : Type 0 where
    no_fields : Fields
    field : String → Value → Fields → Fields

unfoldable pub size : Fields → ℕ
size no_fields = 0
size (field k v f) = suc (size f)

unfoldable pub find : String → Fields → Option Value
find k no_fields = none
find k (field j v f) = if str_eq j k then some v else find k f

abbrev pub of_bool : Bool → ℕ
of_bool true = 1
of_bool false = 0

abbrev same_bool : Bool → Bool → Bool
same_bool true b = b
same_bool false b = not b

-- `==`: a Boolean equals the number that it stands for, and dictionaries are equal in any order.
unfoldable mutual
  pub py_eq : Value → Value → Bool
  py_eq null v = elim v [ null ↦ true | _ ↦ false ]
  py_eq (bool b) v = elim v [ bool c ↦ same_bool b c | num n ↦ of_bool b == n | _ ↦ false ]
  py_eq (num n) v = elim v [ bool c ↦ n == of_bool c | num m ↦ n == m | _ ↦ false ]
  py_eq (negative n) v = elim v [ negative m ↦ n == m | _ ↦ false ]
  py_eq (str s) v = elim v [ str t ↦ str_eq s t | _ ↦ false ]
  py_eq (arr xs) v = elim v [ arr ys ↦ items_eq xs ys | _ ↦ false ]
  py_eq (obj f) v = elim v [ obj g ↦ (size f == size g) && fields_eq f g | _ ↦ false ]

  pub items_eq : Items → Items → Bool
  items_eq no_items ys = elim ys [ no_items ↦ true | _ ↦ false ]
  items_eq (item x xs) ys = elim ys [ no_items ↦ false | item y ys' ↦ py_eq x y && items_eq xs ys' ]

  -- Each entry of the first is in the second.
  pub fields_eq : Fields → Fields → Bool
  fields_eq no_fields g = true
  fields_eq (field k v f) g =
      (elim (find k g) [ none ↦ false | some w ↦ py_eq v w ]) && fields_eq f g

-- `if value:`
unfoldable pub truthy : Value → Bool
truthy null = false
truthy (bool b) = b
truthy (num n) = ltb 0 n
truthy (negative n) = true
truthy (str s) = not (str_eq s "")
truthy (arr no_items) = false
truthy (arr (item x xs)) = true
truthy (obj no_fields) = false
truthy (obj (field k v f)) = true

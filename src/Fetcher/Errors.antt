-- ===== src/Fetcher/Errors.antt =====
-- Which errors end a fetch, and what each type has after it.
use unifi_network_rules.Prelude.{
  String, Bool, true, false, ◌&&◌, ◌||◌, some, List, [], ◌∷◌, ◌≡◌, refl, sym, ap, ◌∙◌, any, arith,
  if◌then◌else◌, Bool-cases, inl, inr,
}
use text.Mathlib.TextEquality.{eq_iff}
use text.Mathlib.Text.{◌==◌}
use unifi_network_rules.Dict.{get, put, get-put}
use unifi_network_rules.Session.{Session}
use unifi_network_rules.Fetcher.{
  Item, RulesData, Answer, returned, raised, Fetched, fetched, auth_failed, is_auth_error,
  is_not_found, typed_items, store, raise_first, retry_with_path_fix, fetch_entity_type_safe,
  fetch_standard_entities_parallel, fetch_special,
}
use unifi_network_rules.Fetcher.Cycle.{Answers, entity_types, requests_of, and_then}

-- The call raises an authentication error.
abbrev pub is_refused : Answer → Bool
is_refused (returned items) = false
is_refused (raised error) = is_auth_error error

-- So does the first call for a type, or the second one after an error 404.
abbrev pub type_fails : Answer → Answer → Bool
type_fails (returned items) again = false
type_fails (raised error) again = is_auth_error error || (is_not_found error && is_refused again)

abbrev pub fails : Answers → Bool
fails a =
    any (λ key. type_fails (a.of_type key) (a.again key)) entity_types
    || (is_refused a.devices || is_refused a.port_profiles)

abbrev or_none : Answer → List Item
or_none (returned items) = items
or_none (raised error) = []

-- The objects of a type: none after an error, but for those of the second call after an error 404.
abbrev pub obtained : Answer → Answer → List Item
obtained (returned items) again = typed_items items
obtained (raised error) again = if is_not_found error then or_none again else []

module _ {ℓ} {A : Type ℓ} where
  abbrev pub has_failed : Fetched A → Bool
  has_failed (fetched x) = false
  has_failed (auth_failed error) = true

abbrev pub data_of : Fetched RulesData → RulesData
data_of (fetched d) = d
data_of (auth_failed error) = []

has_failed-fetch_entity_type_safe :
    (first again : Answer) (s : Session)
    → has_failed (fetch_entity_type_safe first again s).0 ≡ type_fails first again
unfolding fetch_entity_type_safe retry_with_path_fix
has_failed-fetch_entity_type_safe (returned items) again s = refl
has_failed-fetch_entity_type_safe (raised error) (returned items) s = ground arith
has_failed-fetch_entity_type_safe (raised error) (raised other) s = ground arith

store-fetch_entity_type_safe :
    (key : String) (first again : Answer) (d : RulesData) (s : Session)
    → type_fails first again ≡ false
    → store key (fetch_entity_type_safe first again s).0 d ≡ put key (obtained first again) d
unfolding fetch_entity_type_safe retry_with_path_fix
store-fetch_entity_type_safe key (returned items) again d s h = refl
store-fetch_entity_type_safe key (raised error) (returned items) d s h = ground (arith, h)
store-fetch_entity_type_safe key (raised error) (raised other) d s h = ground (arith, h)

has_failed-raise_first :
    (one : Fetched (List Item)) (rest : Fetched RulesData)
    → has_failed (raise_first one rest) ≡ (has_failed one || has_failed rest)
has_failed-raise_first (fetched items) rest = refl
has_failed-raise_first (auth_failed error) rest = refl

data_of-raise_first :
    (one : Fetched (List Item)) (rest : Fetched RulesData)
    → has_failed one ≡ false
    → data_of (raise_first one rest) ≡ data_of rest
data_of-raise_first (fetched items) rest h = refl
data_of-raise_first (auth_failed error) rest h = cc

module _ (a : Answers) where
  abbrev pub fails_at : String → Bool
  fails_at key = type_fails (a.of_type key) (a.again key)

  abbrev pub standard : List String → RulesData → Session → Fetched RulesData
  standard keys d s = (fetch_standard_entities_parallel (requests_of a keys) d s).0

  abbrev one : String → Session → Fetched (List Item) × Session
  one key s = fetch_entity_type_safe (a.of_type key) (a.again key) s

  pub has_failed-standard :
      (keys : List String) (d : RulesData) (s : Session)
      → has_failed (standard keys d s) ≡ any fails_at keys
  unfolding fetch_standard_entities_parallel requests_of any
  has_failed-standard [] d s = refl
  has_failed-standard (key ∷ keys) d s =
      let e = store key (one key s).0 d in
      has_failed-raise_first (one key s).0 (standard keys e (one key s).1)
      ∙ ground (
        arith,
        has_failed-fetch_entity_type_safe (a.of_type key) (a.again key) s,
        has_failed-standard keys e (one key s).1,
      )

  abbrev obtained_at : String → List Item
  obtained_at key = obtained (a.of_type key) (a.again key)

  get-put-obtained :
      (k key : String) (d : RulesData)
      → get k (put key (obtained_at key) d) ≡ (if key == k then some (obtained_at k) else get k d)
  get-put-obtained k key d = elim (Bool-cases (key == k)) [
    | inl e ↦ rw (sym ((eq_iff key k).0 e)) (get-put key key (obtained_at key) d)
    | inr e ↦ ground (arith, get-put key k (obtained_at key) d, e)
  ]

  pub get-standard :
      (k : String) (keys : List String) (d : RulesData) (s : Session)
      → any fails_at keys ≡ false
      → get k (data_of (standard keys d s))
        ≡ (if any (λ key. key == k) keys then some (obtained_at k) else get k d)
  unfolding fetch_standard_entities_parallel requests_of any
  get-standard k [] d s h = refl
  get-standard k (key ∷ keys) d s h =
      let e = store key (one key s).0 d in
      let here : fails_at key ≡ false = ground (arith, h) in
      let later : any fails_at keys ≡ false = ground (arith, h) in
      let stored : get k e ≡ (if key == k then some (obtained_at k) else get k d) =
        ap (get k) (store-fetch_entity_type_safe key (a.of_type key) (a.again key) d s here)
        ∙ get-put-obtained k key d in
      let rest = get-standard k keys e (one key s).1 later in
      ap (get k) (
        data_of-raise_first (one key s).0 (standard keys e (one key s).1)
          (has_failed-fetch_entity_type_safe (a.of_type key) (a.again key) s ∙ here))
      ∙ ground (arith, rest, stored)

pub has_failed-fetch_special :
    (key : String) (answer : Answer) (d : RulesData)
    → has_failed (fetch_special key answer d) ≡ is_refused answer
unfolding fetch_special
has_failed-fetch_special key (returned items) d = refl
has_failed-fetch_special key (raised error) d = ground arith

pub get-fetch_special :
    (k key : String) (answer : Answer) (d : RulesData)
    → (key == k) ≡ false
    → is_refused answer ≡ false
    → get k (data_of (fetch_special key answer d)) ≡ get k d
unfolding fetch_special
get-fetch_special k key (returned items) d other h = ground (arith, get-put key k items d, other)
get-fetch_special k key (raised error) d other h = ground (arith, get-put key k [] d, other, h)

pub has_failed-and_then :
    (r : Fetched RulesData) (next : RulesData → Fetched RulesData) (b : Bool)
    → ((d : RulesData) → has_failed (next d) ≡ b)
    → has_failed (and_then r next) ≡ (has_failed r || b)
has_failed-and_then (fetched d) next b h = h d
has_failed-and_then (auth_failed error) next b h = refl

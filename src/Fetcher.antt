-- ===== src/Fetcher.antt =====
-- custom_components/unifi_network_rules/coordination/data_fetcher.py: `CoordinatorDataFetcher`. How the
-- calls of the API end is given by arguments; the tasks that fetch in parallel share nothing but the
-- base path of the session, and are taken one after the other.
pub mod Cycle
pub mod Duplicates
pub mod Errors
pub mod Isolation
mod Tests
use unifi_network_rules.Prelude.{
  ℕ, ◌+◌, String, Bool, true, false, not, ◌&&◌, ◌||◌, Option, none, some, List, [], ◌∷◌, keep, any,
  length, leb, ltb, ◌==◌, if◌then◌else◌,
}
use unifi_network_rules.Text.{Text, codes, contains, lower, text_eq}
use unifi_network_rules.Dict.{Dict, get, put}
use unifi_network_rules.IdSet.{IdSet, member, add}
use unifi_network_rules.Session.{Session, ensure_proxy_prefix_in_path}

-- What is read of a fetched object: whether it has an `id`, its `name` and its `description`, and
-- the same keys of its `raw` data; `none` where there is none.
pub record Item : Type 0 where
  pub has_id : Bool
  pub name : Option Text
  pub raw_name : Option Text
  pub description : Option Text
  pub raw_description : Option Text

abbrev pub RulesData : Type 0
RulesData = Dict (List Item)

-- How a call ends; `None` is the empty list.
pub data Answer : Type 0 where
  returned : List Item → Answer
  raised : Text → Answer

-- A value, or the exception that is raised again.
pub data Fetched {ℓ} (A : Type ℓ) : Type ℓ where
  fetched : A → Fetched A
  auth_failed : Text → Fetched A

unfoldable pub is_auth_error : Text → Bool
is_auth_error error =
    contains (codes "401 unauthorized") (lower error)
    || contains (codes "403 forbidden") (lower error)

abbrev pub is_not_found : Text → Bool
is_not_found error = contains (codes "404 not found") (lower error)

-- The call that is made again.
unfoldable pub retry_with_path_fix : Answer → Session → Fetched (List Item) × Session
retry_with_path_fix (returned items) s = (fetched items, ensure_proxy_prefix_in_path s)
retry_with_path_fix (raised error) s =
    (if is_auth_error error then auth_failed error else fetched [], ensure_proxy_prefix_in_path s)

-- Objects that are not typed are refused, by the first of them.
abbrev pub typed_items : List Item → List Item
typed_items [] = []
typed_items (item ∷ items) = if item.has_id then item ∷ items else []

unfoldable pub fetch_entity_type_safe : Answer → Answer → Session → Fetched (List Item) × Session
unfolding retry_with_path_fix
fetch_entity_type_safe (returned items) again s = (fetched (typed_items items), s)
fetch_entity_type_safe (raised error) again s =
    if is_auth_error error
    then (auth_failed error, s)
    else if is_not_found error
    then retry_with_path_fix again s
    else (fetched [], s)

-- A type with the answers of its call and of the call that is made again.
pub record Request : Type 0 where
  pub key : String
  pub first : Answer
  pub again : Answer

abbrev pub store : String → Fetched (List Item) → RulesData → RulesData
store key (fetched items) d = put key items d
store key (auth_failed error) d = put key [] d

abbrev pub raise_first : Fetched (List Item) → Fetched RulesData → Fetched RulesData
raise_first (auth_failed error) rest = auth_failed error
raise_first (fetched items) rest = rest

-- The loop over the results, which ends at the first authentication error.
unfoldable pub fetch_standard_entities_parallel :
    List Request → RulesData → Session → Fetched RulesData × Session
fetch_standard_entities_parallel [] d s = (fetched d, s)
fetch_standard_entities_parallel (r ∷ requests) d s =
    let one = fetch_entity_type_safe r.first r.again s in
    let rest = fetch_standard_entities_parallel requests (store r.key one.0 d) one.1 in
    (raise_first one.0 rest.0, rest.1)

-- `_fetch_devices` and `_fetch_port_profiles`.
unfoldable pub fetch_special : String → Answer → RulesData → Fetched RulesData
fetch_special key (returned items) d = fetched (put key items d)
fetch_special key (raised error) d =
    if is_auth_error error then auth_failed error else fetched (put key [] d)

-- `str.strip()`, of ASCII spaces.
abbrev is_space : ℕ → Bool
is_space c = (leb 9 c && leb c 13) || (leb 28 c && leb c 32)

unfoldable pub strip_left : Text → Text
strip_left [] = []
strip_left (c ∷ s) = let rest = strip_left s in if is_space c then rest else c ∷ s

abbrev push_stripped : ℕ → Text → Text
push_stripped c [] = if is_space c then [] else c ∷ []
push_stripped c (d ∷ s) = c ∷ d ∷ s

unfoldable pub strip_right : Text → Text
strip_right [] = []
strip_right (c ∷ s) = push_stripped c (strip_right s)

-- `name.strip().lower()`
unfoldable pub normalized : Text → Text
unfolding strip_left strip_right
normalized name = lower (strip_right (strip_left name))

-- `a or b`
abbrev or_name : Option Text → Option Text → Option Text
or_name none b = b
or_name (some []) b = b
or_name (some (c ∷ s)) b = some (c ∷ s)

abbrev pub policy_name : Item → Option Text
policy_name i = or_name i.name i.raw_name

abbrev pub route_name : Item → Option Text
route_name i = or_name (or_name (or_name i.name i.raw_name) i.description) i.raw_description

abbrev pub add_name : Option Text → IdSet → IdSet
add_name none names = names
add_name (some []) names = names
add_name (some (c ∷ s)) names = add (normalized (c ∷ s)) names

unfoldable pub oon_policy_names : List Item → IdSet → IdSet
unfolding add
oon_policy_names [] names = names
oon_policy_names (p ∷ policies) names = oon_policy_names policies (add_name (policy_name p) names)

abbrev pub named_in : IdSet → Option Text → Bool
named_in names none = false
named_in names (some []) = false
named_in names (some (c ∷ s)) = member (normalized (c ∷ s)) names

abbrev pub or_nil : Option (List Item) → List Item
or_nil none = []
or_nil (some items) = items

-- `data.get(key, [])`
abbrev pub items_of : String → RulesData → List Item
items_of key d = or_nil (get key d)

-- The items of one type whose names are not among the names.
unfoldable pub filter_type : String → (Item → Option Text) → IdSet → RulesData → RulesData
unfolding keep
filter_type key name_of names d =
    let items = items_of key d in
    let kept = keep (λ i. not (named_in names (name_of i))) items in
    if ltb (length kept) (length items) then put key kept d else d

abbrev pub filter_named : IdSet → RulesData → RulesData
filter_named [] d = d
filter_named (n ∷ names) d =
    filter_type "traffic_routes" route_name (n ∷ names)
      (filter_type "qos_rules" policy_name (n ∷ names) d)

unfoldable pub filter_oon_policy_duplicates : RulesData → RulesData
unfolding oon_policy_names filter_type
filter_oon_policy_duplicates d = filter_named (oon_policy_names (items_of "oon_policies" d) []) d

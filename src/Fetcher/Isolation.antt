-- ===== src/Fetcher/Isolation.antt =====
-- A whole fetch: the errors that end it, and what each type has after it.
use unifi_network_rules.Prelude.{
  ℕ, String, true, false, ◌||◌, none, some, [], ◌≡◌, refl, ap, ◌∙◌, any, arith, if◌then◌else◌,
  Bool-cases, inl, inr,
}
use text.Mathlib.TextEquality.{eq_iff}
use text.Mathlib.Text.{◌==◌}
use unifi_network_rules.Dict.{get}
use unifi_network_rules.Session.{Session}
use unifi_network_rules.Fetcher.{
  RulesData, Fetched, fetched, auth_failed, fetch_special, filter_oon_policy_duplicates,
}
use unifi_network_rules.Fetcher.Cycle.{
  Answers, Fetcher, entity_types, no_rules, and_then, refresh_session_if_needed, is_rate_limited,
  fetch_all_entity_data,
}
use unifi_network_rules.Fetcher.Duplicates.{filter_oon_policy_duplicates_lem}
use unifi_network_rules.Fetcher.Errors.{
  is_refused, fails, obtained, has_failed, data_of, standard, fails_at, has_failed-standard,
  get-standard, has_failed-fetch_special, get-fetch_special, has_failed-and_then,
}

data_of-failed : (r : Fetched RulesData) → has_failed r ≡ true → data_of r ≡ []
data_of-failed (fetched d) h = cc
data_of-failed (auth_failed error) h = refl

data_of-and_then :
    (r : Fetched RulesData) (next : RulesData → Fetched RulesData)
    → has_failed r ≡ false
    → data_of (and_then r next) ≡ data_of (next (data_of r))
data_of-and_then (fetched d) next h = refl
data_of-and_then (auth_failed error) next h = cc

module _ (a : Answers) (s : Session) where
  abbrev filtered : RulesData → Fetched RulesData
  filtered d = fetched (filter_oon_policy_duplicates d)

  abbrev with_profiles : RulesData → Fetched RulesData
  with_profiles d = and_then (fetch_special "port_profiles" a.port_profiles d) filtered

  abbrev with_devices : RulesData → Fetched RulesData
  with_devices d = and_then (fetch_special "devices" a.devices d) with_profiles

  abbrev whole : Fetched RulesData
  whole = and_then (standard a entity_types no_rules s) with_devices

  has_failed-with_profiles :
      (d : RulesData) → has_failed (with_profiles d) ≡ is_refused a.port_profiles
  has_failed-with_profiles d =
      has_failed-and_then (fetch_special "port_profiles" a.port_profiles d) filtered false
        (λ e. refl)
      ∙ ground (arith, has_failed-fetch_special "port_profiles" a.port_profiles d)

  has_failed-with_devices :
      (d : RulesData)
      → has_failed (with_devices d) ≡ (is_refused a.devices || is_refused a.port_profiles)
  has_failed-with_devices d =
      has_failed-and_then (fetch_special "devices" a.devices d) with_profiles
        (is_refused a.port_profiles) has_failed-with_profiles
      ∙ ground (arith, has_failed-fetch_special "devices" a.devices d)

  has_failed-whole : has_failed whole ≡ fails a
  has_failed-whole =
      has_failed-and_then (standard a entity_types no_rules s) with_devices
        (is_refused a.devices || is_refused a.port_profiles) has_failed-with_devices
      ∙ ap (λ b. b || (is_refused a.devices || is_refused a.port_profiles))
          (has_failed-standard a entity_types no_rules s)

  module _ (k : String) (not_devices : ("devices" == k) ≡ false)
      (not_profiles : ("port_profiles" == k) ≡ false) where
    get-with_profiles :
        (d : RulesData)
        → ("qos_rules" == k) ≡ false
        → ("traffic_routes" == k) ≡ false
        → is_refused a.port_profiles ≡ false
        → get k (data_of (with_profiles d)) ≡ get k d
    get-with_profiles d q t h =
        let e = data_of (fetch_special "port_profiles" a.port_profiles d) in
        ap (get k) (
          data_of-and_then (fetch_special "port_profiles" a.port_profiles d) filtered
            (has_failed-fetch_special "port_profiles" a.port_profiles d ∙ h))
        ∙ ((filter_oon_policy_duplicates_lem k e q t).2
            ∙ get-fetch_special k "port_profiles" a.port_profiles d not_profiles h)

    get-with_devices :
        (d : RulesData)
        → ("qos_rules" == k) ≡ false
        → ("traffic_routes" == k) ≡ false
        → is_refused a.devices ≡ false
        → is_refused a.port_profiles ≡ false
        → get k (data_of (with_devices d)) ≡ get k d
    get-with_devices d q t g h =
        let e = data_of (fetch_special "devices" a.devices d) in
        ap (get k) (
          data_of-and_then (fetch_special "devices" a.devices d) with_profiles
            (has_failed-fetch_special "devices" a.devices d ∙ g))
        ∙ (get-with_profiles e q t h ∙ get-fetch_special k "devices" a.devices d not_devices g)

apart :
    (j k : String)
    → any (λ key. key == j) entity_types ≡ false
    → any (λ key. key == k) entity_types ≡ true
    → (j == k) ≡ false
apart j k absent there = elim (Bool-cases (j == k)) [
  | inl e ↦
      let same = ap (λ i. any (λ key. key == i) entity_types) ((eq_iff j k).0 e) in
      cc (same, absent, there)
  | inr e ↦ e
]

-- The types of the standard fetch are not those that are fetched apart.
standard_only :
    (k : String)
    → any (λ key. key == k) entity_types ≡ true
    → (("devices" == k) ≡ false) × (("port_profiles" == k) ≡ false)
unfolding any
standard_only k there = (apart "devices" k refl there, apart "port_profiles" k refl there)

get-whole :
    (k : String) (a : Answers) (s : Session)
    → any (λ key. key == k) entity_types ≡ true
    → ("qos_rules" == k) ≡ false
    → ("traffic_routes" == k) ≡ false
    → fails a ≡ false
    → get k (data_of (whole a s)) ≡ some (obtained (a.of_type k) (a.again k))
get-whole k a s there q t h =
    let only = standard_only k there in
    let none_fails : any (fails_at a) entity_types ≡ false = ground (arith, h) in
    let no_device : is_refused a.devices ≡ false = ground (arith, h) in
    let no_profile : is_refused a.port_profiles ≡ false = ground (arith, h) in
    let d = data_of (standard a entity_types no_rules s) in
    ap (get k) (
      data_of-and_then (standard a entity_types no_rules s) (with_devices a s)
        (has_failed-standard a entity_types no_rules s ∙ none_fails))
    ∙ (get-with_devices a s k only.0 only.1 d q t no_device no_profile
        ∙ (get-standard a k entity_types no_rules s none_fails ∙ rw there refl))

-- A fetch that is not held back by the rate limit fails exactly if some call for a type, the call for
-- the devices or that for the port profiles ends in an authentication error; for a type, the call
-- that is made again after an error 404 counts too. Any other error is its type's own: where the
-- fetch does not fail, each standard type that the filter of duplicates leaves alone has the objects
-- of its own calls.
pub fetch_all_entity_data_lem :
    (k : String) (now : ℕ) (a : Answers) (f : Fetcher)
    → is_rate_limited now (refresh_session_if_needed now a.refresh f) ≡ false
    → any (λ key. key == k) entity_types ≡ true
    → ("qos_rules" == k) ≡ false
    → ("traffic_routes" == k) ≡ false
    → let r = (fetch_all_entity_data now a f).0 in
      (has_failed r ≡ fails a)
      × (get k (data_of r) ≡ (if fails a then none else some (obtained (a.of_type k) (a.again k))))
unfolding fetch_all_entity_data get
fetch_all_entity_data_lem k now a f free there q t =
    let s = (refresh_session_if_needed now a.refresh f).session in
    rw free (
      has_failed-whole a s,
      elim (Bool-cases (fails a)) [
        | inl e ↦ rw e (ap (get k) (data_of-failed (whole a s) (has_failed-whole a s ∙ e)))
        | inr e ↦ rw e (get-whole k a s there q t e)
      ],
    )

-- ===== src/Fetcher/Cycle.antt =====
-- custom_components/unifi_network_rules/coordination/data_fetcher.py: `fetch_all_entity_data`, with the
-- refresh of the session and the rate limit that come before it. Times are in seconds.
use unifi_network_rules.Prelude.{
  ℕ, ◌+◌, String, Bool, true, ◌&&◌, Option, some, List, [], ◌∷◌, any, length, ltb, if◌then◌else◌,
}
use unifi_network_rules.Dict.{put}
use unifi_network_rules.Session.{Session}
use unifi_network_rules.Fetcher.{
  RulesData, items_of, Answer, Fetched, fetched, auth_failed, Request,
  fetch_standard_entities_parallel, fetch_special, filter_oon_policy_duplicates,
}

abbrev pub entity_types : List String
entity_types =
    "firewall_policies" ∷ "traffic_routes" ∷ "firewall_zones" ∷ "wlans" ∷ "traffic_rules"
    ∷ "networks" ∷ "vpn_clients" ∷ "vpn_servers" ∷ "static_routes" ∷ "nat_rules"
    ∷ "legacy_firewall_rules" ∷ "qos_rules" ∷ "port_forwards" ∷ "oon_policies" ∷ []

-- How the calls end: of a type, the first one and the one that is made again; of the devices and of
-- the port profiles; and `refresh_session`, `none` where it raises.
pub record Answers : Type 0 where
  pub of_type : String → Answer
  pub again : String → Answer
  pub devices : Answer
  pub port_profiles : Answer
  pub refresh : Option Bool

-- `_rate_limited` and `_rate_limit_until` of the API, `_last_session_refresh` and
-- `_last_successful_data` of the coordinator, and the session.
pub record Fetcher : Type 0 where
  pub rate_limited : Bool
  pub rate_limit_until : ℕ
  pub last_session_refresh : ℕ
  pub last_successful_data : RulesData
  pub session : Session

unfoldable pub refresh_session_if_needed : ℕ → Option Bool → Fetcher → Fetcher
refresh_session_if_needed now (some true) f =
    if ltb (f.last_session_refresh + 300) now then record f { last_session_refresh = now } else f
refresh_session_if_needed now _ f = f

unfoldable pub is_rate_limited : ℕ → Fetcher → Bool
is_rate_limited now f = f.rate_limited && ltb now f.rate_limit_until

unfoldable pub with_empty : List String → RulesData → RulesData
with_empty [] d = d
with_empty (key ∷ keys) d = with_empty keys (put key [] d)

abbrev pub no_rules : RulesData
no_rules =
    with_empty ("firewall_zones" ∷ "devices" ∷ "port_profiles" ∷ []) (with_empty entity_types [])

unfoldable pub requests_of : Answers → List String → List Request
requests_of a [] = []
requests_of a (key ∷ keys) =
    record { key = key; first = a.of_type key; again = a.again key } ∷ requests_of a keys

abbrev pub and_then : Fetched RulesData → (RulesData → Fetched RulesData) → Fetched RulesData
and_then (fetched d) next = next d
and_then (auth_failed error) next = auth_failed error

abbrev or_cached : RulesData → RulesData
or_cached [] = no_rules
or_cached (e ∷ d) = e ∷ d

unfoldable pub fetch_all_entity_data : ℕ → Answers → Fetcher → Fetched RulesData × Fetcher
unfolding refresh_session_if_needed with_empty requests_of
fetch_all_entity_data now a f =
    let g = refresh_session_if_needed now a.refresh f in
    if is_rate_limited now g
    then (fetched (or_cached g.last_successful_data), g)
    else let standard =
        fetch_standard_entities_parallel (requests_of a entity_types) no_rules g.session in
      (
        and_then standard.0 (λ d. and_then (fetch_special "devices" a.devices d) (λ e.
            and_then (fetch_special "port_profiles" a.port_profiles e)
              (λ h. fetched (filter_oon_policy_duplicates h)))),
        record g { session = standard.1 },
      )

abbrev pub key_categories : List String
key_categories =
    "firewall_policies" ∷ "traffic_rules" ∷ "port_forwards" ∷ "qos_rules" ∷ "traffic_routes"
    ∷ "static_routes" ∷ "legacy_firewall_rules" ∷ "port_profiles" ∷ "networks" ∷ "devices" ∷ []

unfoldable validate_fetched_data : RulesData → Bool
unfolding any
validate_fetched_data d = any (λ key. ltb 0 (length (items_of key d))) key_categories

-- ===== src/Coordinator/Cycles.antt =====
-- What an update returns, and when it lets switches be removed.
use unifi_network_rules.Prelude.{◌≡◌, refl, Bool, true, false, not, ◌&&◌, any, arith}
use unifi_network_rules.State.{
  FetchedData, is_empty, has_rules, validated_types, preserved_types, track_error_state,
  validate_data_and_handle_errors,
}
use unifi_network_rules.Coordinator.{
  Coordinator, FetchEnd, got, failed, Found, Outcome, updated, update_failed, fetch_and_handle,
  handle_fetched, handle_error, async_update_data,
}

abbrev pub has_failed : Outcome → Bool
has_failed (updated d) = false
has_failed (update_failed error) = true

abbrev pub fetch_failed : FetchEnd → Bool
fetch_failed (got d) = false
fetch_failed (failed error) = true

has_failed-fetch_and_handle :
    (found : Found) (end : FetchEnd) (c : Coordinator)
    → has_failed (fetch_and_handle found end c).0 ≡ (fetch_failed end && is_empty c.data_now)
unfolding handle_fetched handle_error
has_failed-fetch_and_handle found (got d) c = ground arith
has_failed-fetch_and_handle found (failed error) c = ground arith

-- An update that has the lock fails exactly if its fetch raises an exception and the coordinator has
-- no data, unless an authentication is under way and there is data of an earlier fetch.
pub has_failed-async_update_data :
    (found : Found) (c : Coordinator)
    → has_failed (async_update_data found c).0 ≡ (
        fetch_failed found.fetch
        && (is_empty c.data_now
            && not
                (c.auth.authentication_in_progress && not (is_empty c.state.last_successful_data))))
unfolding async_update_data
has_failed-async_update_data found c =
    ground (arith, has_failed-fetch_and_handle found found.fetch c)

-- Where the fetched data has no rules of the types that are looked at, although the coordinator has
-- rules of the types that are preserved, and data was accepted before, an update returns the data
-- that was accepted last. It calls no other part, so no switch is removed, and it counts one more
-- error in a row.
async_update_data-empty :
    (d : FetchedData) (found : Found) (c : Coordinator)
    → found.fetch ≡ got d
    → c.auth.authentication_in_progress ≡ false
    → any (has_rules d) validated_types ≡ false
    → is_empty c.data_now ≡ false
    → any (has_rules c.data_now) preserved_types ≡ true
    → is_empty c.state.last_successful_data ≡ false
    → let r = async_update_data found c in
      (r.0 ≡ updated c.state.last_successful_data)
      × (r.1.calls ≡ c.calls)
      × (r.1.state ≡ track_error_state true c.state)
unfolding async_update_data handle_fetched validate_data_and_handle_errors track_error_state
async_update_data-empty d found c fetch free invalid some_data preserved some_last =
    rw (fetch, free, invalid, some_data, preserved, some_last) (refl, refl, refl)

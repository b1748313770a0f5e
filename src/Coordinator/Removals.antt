-- ===== src/Coordinator/Removals.antt =====
-- The data on which switches are added and removed in a run of updates.
use unifi_network_rules.Prelude.{
  ◌≡◌, refl, Bool, true, false, not, ◌&&◌, List, [], ◌∷◌, any, All, All-append, arith, Bool-cases,
  inl, inr,
}
use unifi_network_rules.Dict.{get}
use unifi_network_rules.State.{
  FetchedData, StateManager, rules_of, is_empty, has_rules, validated_types, track_error_state,
  validate_data_and_handle_errors, mark_initial_update_done,
}
use unifi_network_rules.Coordinator.{
  Call, check_for_deleted_rules, discover_and_add_new_entities, external_change, cached,
  Coordinator, FetchEnd, got, failed, Found, Outcome, updated, update_failed, process_data,
  fetch_and_handle, handle_fetched, handle_error, async_update_data,
}

-- The data has rules of the types that are looked at.
abbrev pub is_valid : FetchedData → Bool
is_valid d = any (has_rules d) validated_types

-- Switches are added and removed on valid data.
abbrev pub OnValid : Call → Type 0
OnValid (check_for_deleted_rules d) = is_valid d ≡ true
OnValid (discover_and_add_new_entities d) = is_valid d ≡ true
OnValid _ = Unit

not_empty : (d : FetchedData) → is_valid d ≡ true → is_empty d ≡ false
unfolding any rules_of get
not_empty [] h = cc
not_empty (e ∷ d) h = refl

module _ (d previous : FetchedData) (s : StateManager) where
  validate-valid :
      (validate_data_and_handle_errors d previous s).answer ≡ true
      → is_valid (validate_data_and_handle_errors d previous s).fetched ≡ true
  unfolding validate_data_and_handle_errors
  validate-valid h = ground (arith, h)

  validate-last :
      is_empty s.last_successful_data ≡ false
      → is_empty (validate_data_and_handle_errors d previous s).state.last_successful_data ≡ false
  unfolding validate_data_and_handle_errors track_error_state
  validate-last h = ground (arith, h, not_empty d)

-- Data was accepted before, and the calls so far were on valid data.
record Sound (c : Coordinator) : Type 0 where
  last : is_empty c.state.last_successful_data ≡ false
  calls : All OnValid c.calls

-- The class of Home Assistant keeps what an update returns.
unfoldable pub refreshed : Outcome × Coordinator → Coordinator
refreshed (updated d, c) = record c { data_now = d }
refreshed (update_failed error, c) = c

unfoldable pub run : List Found → Coordinator → Coordinator
run [] c = c
run (found ∷ rest) c = run rest (refreshed (async_update_data found c))

external_change-OnValid : (b : Bool) → All OnValid (external_change b)
external_change-OnValid true = (tt, tt)
external_change-OnValid false = tt

process_data-Sound :
    (found : Found) (d : FetchedData) (c : Coordinator)
    → is_valid d ≡ true
    → Sound c
    → Sound (process_data found d c)
unfolding process_data mark_initial_update_done
process_data-Sound found d c valid h = record {
  last = ground (arith, h.last);
  calls = All-append OnValid c.calls _ h.calls (tt, (valid, (valid, external_change-OnValid _)));
}

refreshed-Sound : (r : Outcome) (c : Coordinator) → Sound c → Sound (refreshed (r, c))
unfolding refreshed
refreshed-Sound (updated d) c h = record { last = h.last; calls = h.calls }
refreshed-Sound (update_failed error) c h = h

fetch_and_handle-Sound :
    (found : Found) (end : FetchEnd) (c : Coordinator)
    → Sound c
    → Sound (fetch_and_handle found end c).1
unfolding handle_fetched handle_error
fetch_and_handle-Sound found (got d) c h =
    let v = validate_data_and_handle_errors d c.data_now c.state in
    let last = validate-last d c.data_now c.state h.last in
    let t : Sound (record c { state = v.state }) = record { last = last; calls = h.calls } in
    elim (Bool-cases v.answer) [
      | inl e ↦ rw e (
          process_data-Sound found v.fetched (record c { state = v.state })
            (validate-valid d c.data_now c.state e) t)
      | inr e ↦ rw (e, last) t
    ]
fetch_and_handle-Sound found (failed error) c h = record { last = h.last; calls = h.calls }

async_update_data-Sound :
    (found : Found) (c : Coordinator) → Sound c → Sound (async_update_data found c).1
unfolding async_update_data
async_update_data-Sound found c h =
    elim (Bool-cases (c.auth.authentication_in_progress && not (is_empty (cached c)))) [
      | inl e ↦ rw e h
      | inr e ↦ rw e (fetch_and_handle-Sound found found.fetch c h)
    ]

run-Sound : (finds : List Found) (c : Coordinator) → Sound c → Sound (run finds c)
unfolding run
run-Sound [] c h = h
run-Sound (found ∷ rest) c h =
    let r = async_update_data found c in
    run-Sound rest (refreshed r) (refreshed-Sound r.0 r.1 (async_update_data-Sound found c h))

-- Once data was accepted, every run of updates checks for deleted rules and adds switches only on
-- data that has rules of the types that are looked at, whatever the fetches give.
pub run-OnValid :
    (finds : List Found) (c : Coordinator)
    → is_empty c.state.last_successful_data ≡ false
    → c.calls ≡ []
    → All OnValid (run finds c).calls
run-OnValid finds c accepted none_yet =
    (run-Sound finds c (record { last = accepted; calls = rw none_yet tt })).calls

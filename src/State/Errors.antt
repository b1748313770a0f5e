-- ===== src/State/Errors.antt =====
-- Failed updates: the counters, and the data that stands in.
use unifi_network_rules.Prelude.{
  ◌+◌, ◌≤◌, ◌<◌, String, ◌≡◌, refl, Bool, true, false, not, ◌&&◌, List, [], ◌∷◌, arith, any, ltb,
  if◌then◌else◌,
}
use text.Mathlib.Text.{◌==◌}
use text.Mathlib.TextEquality.{eq_iff}
use unifi_network_rules.Dict.{has, get, put, get-put, has-put}
use unifi_network_rules.State.{
  FetchedData, Rule, StateManager, rules_of, track_error_state, reset_error_state, preserved_types,
  validated_types, has_rules, use_last_valid, preserve, validate_data_and_handle_errors,
  mark_initial_update_done, init, is_empty,
}

pub data Call : Type 0 where
  tracked : Bool → Call
  validated : FetchedData → FetchedData → Call
  marked reset : Call

unfoldable pub step : Call → StateManager → StateManager
step (tracked is_error) s = track_error_state is_error s
step (validated fetched previous) s = (validate_data_and_handle_errors fetched previous s).state
step marked s = mark_initial_update_done s
step reset s = reset_error_state s

unfoldable pub run : List Call → StateManager → StateManager
run [] s = s
run (c ∷ cs) s = run cs (step c s)

record IsConsistent (s : StateManager) : Type 0 where
  state : s.in_error_state ≡ ltb 0 s.consecutive_errors
  count : s.consecutive_errors ≤ s.api_errors

step-IsConsistent : (c : Call) (s : StateManager) → IsConsistent s → IsConsistent (step c s)
unfolding step track_error_state validate_data_and_handle_errors mark_initial_update_done
    reset_error_state
step-IsConsistent (tracked true) s h = ground arith
step-IsConsistent (tracked false) s h = ground arith
step-IsConsistent (validated fetched previous) s h = ground arith
step-IsConsistent marked s h = ground arith
step-IsConsistent reset s h = ground arith

run-IsConsistent : (cs : List Call) (s : StateManager) → IsConsistent s → IsConsistent (run cs s)
unfolding run
run-IsConsistent [] s h = h
run-IsConsistent (c ∷ cs) s h = run-IsConsistent cs (step c s) (step-IsConsistent c s h)

-- After any calls on a new manager, it is in its error state exactly if errors have followed one
-- another up to now, and it has counted at least as many errors as those.
pub run-init-errors :
    (cs : List Call)
    → ((run cs init).in_error_state ≡ ltb 0 (run cs init).consecutive_errors)
      × ((run cs init).consecutive_errors ≤ (run cs init).api_errors)
run-init-errors cs =
    let h = run-IsConsistent cs init (record { state = refl; count = omega arith }) in
    (h.state, h.count)

module _ (previous : FetchedData) (k : String) where
  rules_of-put :
      (key : String) (rules : List Rule) (fetched : FetchedData)
      → rules_of k (put key rules fetched) ≡ (if key == k then rules else rules_of k fetched)
  unfolding rules_of
  rules_of-put key rules fetched = ground (arith, get-put key k rules fetched)

  -- The rules of a type are kept from the previous data exactly where the new data has none.
  rules_of-preserve :
      (keys : List String) (fetched : FetchedData)
      → rules_of k (preserve previous keys fetched) ≡ (
          if any (λ key. key == k) keys && (not (has_rules fetched k) && has_rules previous k)
          then rules_of k previous
          else rules_of k fetched)
  unfolding preserve any
  rules_of-preserve [] fetched = ground arith
  rules_of-preserve (key ∷ keys) fetched =
      let put_back = put key (rules_of key previous) fetched in
      ground (
        arith,
        eq_iff key k,
        rules_of-put key (rules_of key previous) fetched,
        rules_of-preserve keys put_back,
        rules_of-preserve keys fetched,
      )

not_empty :
    (previous : FetchedData) (keys : List String)
    → any (has_rules previous) keys ≡ true
    → is_empty previous ≡ false
unfolding any rules_of get
not_empty (e ∷ m) keys h = refl
not_empty [] [] h = cc
not_empty [] (key ∷ keys) h = not_empty [] keys h

-- Data with no rule in any validated type, after data with rules of a preserved type, counts as
-- one more error and is answered with `False`. At the first and the second such error in a row,
-- each preserved type that the previous data has rules of has those rules again, and any other type
-- has what was fetched.
pub validate-preserves :
    (fetched previous : FetchedData) (k : String) (s : StateManager)
    → any (has_rules fetched) validated_types ≡ false
    → any (has_rules previous) preserved_types ≡ true
    → s.consecutive_errors < 2
    → let v = validate_data_and_handle_errors fetched previous s in
      (v.answer ≡ false)
      × (v.state.consecutive_errors ≡ s.consecutive_errors + 1)
      × (v.state.last_successful_data ≡ s.last_successful_data)
      × (rules_of k v.fetched ≡ (
          if any (λ key. key == k) preserved_types
            && (not (has_rules fetched k) && has_rules previous k)
          then rules_of k previous
          else rules_of k fetched))
unfolding validate_data_and_handle_errors track_error_state
validate-preserves fetched previous k s bad good few =
    let e = not_empty previous preserved_types good in
    (
      ground arith,
      ground arith,
      ground arith,
      ground (arith, rules_of-preserve previous k preserved_types fetched),
    )

-- Data with a rule in some validated type is accepted as it is: it ends the row of errors and
-- becomes the data that later failures fall back on.
validate-accepts :
    (fetched previous : FetchedData) (s : StateManager)
    → any (has_rules fetched) validated_types ≡ true
    → let v = validate_data_and_handle_errors fetched previous s in
      (v.answer ≡ true)
      × (v.fetched ≡ fetched)
      × (v.state.consecutive_errors ≡ 0)
      × (v.state.last_successful_data ≡ fetched)
unfolding validate_data_and_handle_errors track_error_state
validate-accepts fetched previous s good = rw good (refl, refl, refl, refl)

has-use_last_valid :
    (last : FetchedData) (k : String) (fetched : FetchedData)
    → has k (use_last_valid last fetched) ≡ has k fetched
unfolding use_last_valid
has-use_last_valid [] k fetched = refl
has-use_last_valid ((key, value) ∷ last) k fetched = ground (
  arith,
  eq_iff key k,
  has-put key k value fetched,
  has-use_last_valid last k (put key value fetched),
  has-use_last_valid last k fetched,
)

-- From the third such error in a row on, the last accepted data stands in for the types that were
-- fetched: no type comes in or goes out, and the last accepted data stays as it is.
pub validate-falls_back :
    (fetched previous : FetchedData) (k : String) (s : StateManager)
    → any (has_rules fetched) validated_types ≡ false
    → any (has_rules previous) preserved_types ≡ true
    → 2 ≤ s.consecutive_errors
    → let v = validate_data_and_handle_errors fetched previous s in
      (v.fetched ≡ use_last_valid s.last_successful_data fetched)
      × (has k v.fetched ≡ has k fetched)
      × (v.state.last_successful_data ≡ s.last_successful_data)
unfolding validate_data_and_handle_errors track_error_state
validate-falls_back fetched previous k s bad good many =
    let e = not_empty previous preserved_types good in
    (
      ground arith,
      ground (arith, has-use_last_valid s.last_successful_data k fetched),
      ground arith,
    )

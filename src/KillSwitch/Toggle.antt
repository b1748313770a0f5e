-- ===== src/KillSwitch/Toggle.antt =====
-- custom_components/unifi_network_rules/switches/traffic_route.py: the toggle of a kill switch, with
-- the call that it queues (udm/api.py, udm/routes.py) and the coordinator updates after it.
use unifi_network_rules.Prelude.{
  ℕ, ◌≡◌, ◌≢◌, refl, Bool, true, false, not, Option, none, some, List, [], ◌∷◌, ◌++◌, ◌>>=◌, ◌∙◌,
  All, Option-cases, arith, inl, inr,
}
use unifi_network_rules.Text.{Text}
use unifi_network_rules.Switch
use unifi_network_rules.RuleId.{get_rule_id}
use unifi_network_rules.Switch.{
  Switch, Completion, succeeded, refused, raised, CurrentRule, matches_actual,
  clear_optimistic_state,
}
use unifi_network_rules.Api.Wrapper
use unifi_network_rules.Api.Wrapper.{CallEnd, Script, Caller, is_done, wrapper_operation}
use unifi_network_rules.Api.Retry.{first_error-plain}
use unifi_network_rules.Services.{call_end, missing_arguments}
use unifi_network_rules.Services.Toggle.{missing_arguments-plain}
use unifi_network_rules.KillSwitch.{
  Route, KillSwitch, init, get_current_rule, async_toggle_rule, handle_operation_complete,
  kill_switch_call, set_pending, kill_switch_operation_id, handle_coordinator_update, is_on,
  raw_state, get_actual_state_from_rule, or_parent_state,
}

abbrev pub missing_state : Text
missing_state = missing_arguments "toggle_traffic_route_kill_switch"

-- A toggle of a kill switch whose route is found queues its call without the state that
-- `toggle_traffic_route_kill_switch` needs, and returns. Whatever the controller would have
-- answered, the future gets the error for the missing argument. The end of the operation then has
-- the switch show the opposite of what was asked for and leaves the operation among the pending
-- ones.
pub kill_switch_call-missing :
    (now later : ℕ) (enable : Bool) (routes : Option (List Route)) (route : Route) (k : KillSwitch)
    (s : Script) (c : Caller) (end : CallEnd)
    → get_current_rule routes k ≡ some route
    → s.first ≡ call_end (kill_switch_call route) end
    → is_done c.future ≡ false
    → let (begun, returns) = async_toggle_rule now none enable routes k in
      let after = handle_operation_complete later enable (Switch.raised missing_state) begun in
      (returns ≡ true)
      × (begun.calls ≡ k.calls ++ kill_switch_call route ∷ [])
      × ((wrapper_operation s c).0.future ≡ Wrapper.failed missing_state)
      × (after.base.optimistic_state ≡ some (not enable))
      × (after.pending_operations
          ≡ set_pending (kill_switch_operation_id k) (some enable) k.pending_operations)
unfolding async_toggle_rule handle_operation_complete
kill_switch_call-missing now later enable routes route k s c end found first waits =
    let plain = missing_arguments-plain "toggle_traffic_route_kill_switch" in
    rw (found, first_error-plain s missing_state c first waits plain.0 plain.1)
      (refl, refl, refl, refl, refl)

-- A coordinator update: its time, and the traffic routes.
pub record Update : Type 0 where
  pub now : ℕ
  pub routes : List Route

unfoldable pub update_all : List Update → KillSwitch → KillSwitch
update_all [] k = k
update_all (u ∷ us) k = update_all us (handle_coordinator_update u.now true (some u.routes) k)

-- In the update, the raw data of the switch's route have the state.
unfoldable pub HasState : KillSwitch → Bool → Update → Type 0
HasState k b u = (get_current_rule (some u.routes) k >>= raw_state) ≡ some b

kept_base :
    (now : ℕ) (b : Bool) (rule : CurrentRule) (s : Switch)
    → s.optimistic_state ≡ some b
    → rule.actual_state ≡ some (not b)
    → (Switch.handle_coordinator_update now true (some rule) s).optimistic_state ≡ some b
unfolding Switch.handle_coordinator_update clear_optimistic_state
kept_base now true rule s h other = ground (arith, h, other)
kept_base now false rule s h other = ground (arith, h, other)

kept :
    (b : Bool) (u : Update) (k : KillSwitch)
    → k.base.optimistic_state ≡ some b
    → HasState k (not b) u
    → (handle_coordinator_update u.now true (some u.routes) k).base.optimistic_state ≡ some b
unfolding HasState handle_coordinator_update get_actual_state_from_rule
kept b u k h other = elim (Option-cases (get_current_rule (some u.routes) k)) [
  | inl gone ↦ absurd (ground (arith, gone, other))
  | inr (route, e) ↦ rw e (
      kept_base u.now b
        (record { actual_state = get_actual_state_from_rule (some route); enabled = route.enabled })
        k.base h (ground (arith, e, other)))
]

-- The updates change neither of the ids.
HasState-update :
    (b : Bool) (u : Update) (us : List Update) (k : KillSwitch)
    → All (HasState k b) us
    → All (HasState (handle_coordinator_update u.now true (some u.routes) k) b) us
unfolding HasState handle_coordinator_update get_current_rule
HasState-update b u [] k h = tt
HasState-update b u (v ∷ us) k h = (h.0, HasState-update b u us k h.1)

update_all-kept :
    (us : List Update) (b : Bool) (k : KillSwitch)
    → k.base.optimistic_state ≡ some b
    → All (HasState k (not b)) us
    → (update_all us k).base.optimistic_state ≡ some b
unfolding update_all
update_all-kept [] b k h other = h
update_all-kept (u ∷ us) b k h other =
    update_all-kept us b (handle_coordinator_update u.now true (some u.routes) k)
      (kept b u k h other.0) (HasState-update (not b) u us k other.1)

init-optimistic_state :
    (now : ℕ) (pending : Option (Text → Option Bool)) (route : Route) (k : KillSwitch)
    → init now pending route ≡ some k
    → k.base.optimistic_state ≡ raw_state route
unfolding init
init-optimistic_state now pending route k h = elim (Option-cases (get_rule_id route.rule)) [
  | inl e ↦ absurd (ground (arith, h, e))
  | inr ([], e) ↦ absurd (ground (arith, h, e))
  | inr (c ∷ id, e) ↦ ground (arith, h, e)
]

-- A kill switch that was built while its route's raw data had one state goes on to show that state
-- through every row of coordinator updates in which the route has the other one, however late they
-- come.
pub is_on-init :
    (now : ℕ) (pending : Option (Text → Option Bool)) (route : Route) (k : KillSwitch) (b : Bool)
    (us : List Update) (routes : Option (List Route))
    → init now pending route ≡ some k
    → raw_state route ≡ some b
    → All (HasState k (not b)) us
    → is_on routes (update_all us k) ≡ b
unfolding is_on
is_on-init now pending route k b us routes built state other =
    let from = init-optimistic_state now pending route k built in
    rw (update_all-kept us b k (from ∙ state) other) refl

-- The optimistic state is the one given, if there is one.
abbrev agrees : Bool → Option Bool → Bool
agrees b none = true
agrees true (some state) = state
agrees false (some state) = not state

handle_coordinator_update-agrees :
    (b : Bool) (u : Update) (k : KillSwitch)
    → agrees b k.base.optimistic_state ≡ true
    → agrees b (handle_coordinator_update u.now true (some u.routes) k).base.optimistic_state ≡ true
unfolding handle_coordinator_update Switch.handle_coordinator_update clear_optimistic_state
handle_coordinator_update-agrees b u k h =
    elim (Option-cases (get_current_rule (some u.routes) k)) [
      | inl gone ↦ rw gone (ground (arith, h))
      | inr (route, e) ↦ rw e (ground (arith, h))
    ]

update_all-agrees :
    (us : List Update) (b : Bool) (k : KillSwitch)
    → agrees b k.base.optimistic_state ≡ true
    → agrees b (update_all us k).base.optimistic_state ≡ true
unfolding update_all
update_all-agrees [] b k h = h
update_all-agrees (u ∷ us) b k h =
    update_all-agrees us b (handle_coordinator_update u.now true (some u.routes) k)
      (handle_coordinator_update-agrees b u k h)

update_all-rule :
    (us : List Update) (routes : Option (List Route)) (k : KillSwitch)
    → get_current_rule routes (update_all us k) ≡ get_current_rule routes k
unfolding update_all handle_coordinator_update get_current_rule
update_all-rule [] routes k = refl
update_all-rule (u ∷ us) routes k =
    update_all-rule us routes (handle_coordinator_update u.now true (some u.routes) k)

or_parent_state-agrees :
    (b : Bool) (optimistic : Option Bool) (route : Option Route)
    → agrees b optimistic ≡ true
    → (route >>= raw_state) ≡ some b
    → or_parent_state optimistic route ≡ b
or_parent_state-agrees b none none h e = absurd (ground (arith, e))
or_parent_state-agrees b none (some route) h e = ground (arith, e)
or_parent_state-agrees true (some state) route h e = h
or_parent_state-agrees false (some state) route h e = ground (arith, h)

completed-rule :
    (now : ℕ) (enable : Bool) (failure : Completion) (routes : Option (List Route)) (k : KillSwitch)
    → get_current_rule routes (handle_operation_complete now enable failure k)
      ≡ get_current_rule routes k
unfolding handle_operation_complete get_current_rule
completed-rule now enable succeeded routes k = refl
completed-rule now enable refused routes k = refl
completed-rule now enable (raised message) routes k = refl

failed-agrees :
    (now : ℕ) (enable : Bool) (failure : Completion) (k : KillSwitch)
    → failure ≢ succeeded
    → agrees (not enable) (handle_operation_complete now enable failure k).base.optimistic_state
      ≡ true
unfolding handle_operation_complete
failed-agrees now enable succeeded k failed = absurd (failed refl)
failed-agrees now true refused k failed = refl
failed-agrees now false refused k failed = refl
failed-agrees now true (raised message) k failed = refl
failed-agrees now false (raised message) k failed = refl

-- A kill switch whose operation fails shows the opposite of what was asked for, after every row of
-- coordinator updates, if the raw data of its route have that state at last.
is_on-not_toggled :
    (us : List Update) (now : ℕ) (enable : Bool) (failure : Completion) (k : KillSwitch)
    (routes : Option (List Route))
    → failure ≢ succeeded
    → (get_current_rule routes k >>= raw_state) ≡ some (not enable)
    → is_on routes (update_all us (handle_operation_complete now enable failure k)) ≡ not enable
unfolding is_on
is_on-not_toggled us now enable failure k routes failed state =
    let after = handle_operation_complete now enable failure k in
    let agreed =
      update_all-agrees us (not enable) after (failed-agrees now enable failure k failed) in
    let rule = update_all-rule us routes after ∙ completed-rule now enable failure routes k in
    rw rule (
      or_parent_state-agrees (not enable) (update_all us after).base.optimistic_state
        (get_current_rule routes k) agreed state)

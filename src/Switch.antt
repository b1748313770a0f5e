-- ===== src/Switch.antt =====
-- custom_components/unifi_network_rules/switches/base.py: `UnifiRuleSwitch`, the switch of a rule,
-- with the timers and tasks that it has in the event loop. Times are in milliseconds.
pub mod Runs
pub mod Debounce
pub mod Optimistic
pub mod SelfRemoval
mod Tests
use unifi_network_rules.Prelude.{
  ℕ, ◌+◌, ◌-◌, String, Bool, true, false, not, ◌&&◌, ◌||◌, Option, none, some, List, [], ◌∷◌, ◌++◌,
  any, keep, ltb, ◌==◌, if◌then◌else◌,
}
use unifi_network_rules.Text.{Text, codes, contains, lower}

-- What is read of the rule in the coordinator's data: `_get_actual_state_from_rule` and
-- `get_rule_enabled`.
pub record CurrentRule : Type 0 where
  pub actual_state : Option Bool
  pub enabled : Bool

-- The switch's fields and its entry in `_pending_operations`; then the handles that the event loop
-- holds for its debounce timer, the tasks of `_execute_toggle_operation` that have not begun, the
-- target states of the operations that were queued, the flags that were registered, the delayed
-- verifications under way, the refreshes that were asked for and the removals that were begun.
pub record Switch : Type 0 where
  pub is_device : Bool
  pub optimistic_state : Option Bool
  pub optimistic_timestamp : ℕ
  pub optimistic_max_age : ℕ
  pub operation_pending : Bool
  pub last_auth_failure_time : ℕ
  pub debounce_timer : Option ℕ
  pub debounce_target_state : Option Bool
  pub has_rule_data : Bool
  pub marked_unavailable : Bool
  pub pending_operation : Option Bool
  pub next_handle : ℕ
  pub pending_timers : List ℕ
  pub execute_tasks : ℕ
  pub submitted : List Bool
  pub registered : ℕ
  pub verifications : ℕ
  pub refreshes : ℕ
  pub removals : ℕ

unfoldable pub init : Bool → Switch
init is_device = record {
  is_device = is_device;
  optimistic_state = none;
  optimistic_timestamp = 0;
  optimistic_max_age = 5000;
  operation_pending = false;
  last_auth_failure_time = 0;
  debounce_timer = none;
  debounce_target_state = none;
  has_rule_data = true;
  marked_unavailable = false;
  pending_operation = none;
  next_handle = 0;
  pending_timers = [];
  execute_tasks = 0;
  submitted = [];
  registered = 0;
  verifications = 0;
  refreshes = 0;
  removals = 0;
}

abbrev cleared : Switch → Switch
cleared s = record s {
  optimistic_state = none;
  optimistic_timestamp = 0;
  operation_pending = false;
}

abbrev pub is_set : Option Bool → Bool
is_set none = false
is_set (some b) = true

unfoldable pub clear_optimistic_state : ℕ → Bool → Switch → Switch
clear_optimistic_state now force s =
    if is_set s.optimistic_state
      && (force || ltb s.optimistic_max_age (now - s.optimistic_timestamp))
    then cleared s
    else s

unfoldable pub mark_pending_operation : ℕ → Bool → Switch → Switch
mark_pending_operation now target_state s = record s {
  optimistic_state = some target_state;
  optimistic_timestamp = now;
  operation_pending = true;
}

unfoldable pub handle_auth_failure : ℕ → Switch → Switch
handle_auth_failure now s = record s {
  last_auth_failure_time = now;
  optimistic_max_age = if is_set s.optimistic_state then 2000 else s.optimistic_max_age;
}

abbrev same_state : Option Bool → Option Bool → Bool
same_state none none = true
same_state (some true) (some b) = b
same_state (some false) (some b) = not b
same_state _ _ = false

-- `self._optimistic_state == actual_state or actual_state is None`
abbrev pub matches_actual : Option Bool → Option Bool → Bool
matches_actual optimistic actual = same_state optimistic actual || not (is_set actual)

-- The part for a rule that was found.
unfoldable pub update_from_rule : ℕ → CurrentRule → Switch → Switch
unfolding clear_optimistic_state
update_from_rule now rule s =
    let expired =
      is_set s.optimistic_state && ltb s.optimistic_max_age (now - s.optimistic_timestamp) in
    let t =
      if expired && matches_actual s.optimistic_state rule.actual_state
      then clear_optimistic_state now true (record s { has_rule_data = true })
      else record s { has_rule_data = true } in
    record t { operation_pending = t.operation_pending && is_set t.optimistic_state }

abbrev handle_rule : ℕ → Option CurrentRule → Switch → Switch
handle_rule now none s =
    record (clear_optimistic_state now true (record s { has_rule_data = false })) {
      marked_unavailable = true;
      removals = s.removals + 1;
    }
handle_rule now (some rule) s = update_from_rule now rule s

-- `has_data` is whether the coordinator has data, and `rule` is what `_get_current_rule` finds.
unfoldable pub handle_coordinator_update : ℕ → Bool → Option CurrentRule → Switch → Switch
unfolding update_from_rule
handle_coordinator_update now has_data rule s = if has_data then handle_rule now rule s else s

abbrev enabled_in : Option CurrentRule → Bool
enabled_in none = false
enabled_in (some rule) = rule.enabled

abbrev shown : Option Bool → Option CurrentRule → Bool
shown none rule = enabled_in rule
shown (some b) rule = b

unfoldable pub is_on : Option CurrentRule → Switch → Bool
is_on rule s = shown s.optimistic_state rule

unfoldable pub cancel : Option ℕ → List ℕ → List ℕ
unfolding keep
cancel none timers = timers
cancel (some h) timers = keep (λ t. not (t == h)) timers

unfoldable pub async_toggle_rule : ℕ → Bool → Switch → Switch
unfolding mark_pending_operation cancel
async_toggle_rule now enable s = record (mark_pending_operation now enable s) {
  pending_timers = cancel s.debounce_timer s.pending_timers ++ s.next_handle ∷ [];
  debounce_timer = some s.next_handle;
  debounce_target_state = some enable;
  next_handle = s.next_handle + 1;
}

-- The part of `_execute_toggle_operation` for a rule that is there; `queued` is whether
-- `queue_api_operation` returns.
unfoldable pub submit : ℕ → Bool → Bool → Switch → Switch
unfolding mark_pending_operation
submit now queued enable s =
    let registered = record s { pending_operation = some enable; registered = s.registered + 1 } in
    if queued
    then record registered { submitted = s.submitted ++ enable ∷ [] }
    else mark_pending_operation now (not enable) (record registered { pending_operation = none })

abbrev execute_target : ℕ → Bool → Bool → Option Bool → Switch → Switch
execute_target now found queued none s = s
execute_target now found queued (some enable) s =
    let taken = record s { debounce_target_state = none } in
    if found then submit now queued enable taken else mark_pending_operation now (not enable) taken

unfoldable pub execute_toggle_operation : ℕ → Bool → Bool → Switch → Switch
unfolding submit mark_pending_operation
execute_toggle_operation now found queued s =
    execute_target now found queued s.debounce_target_state (record s { debounce_timer = none })

-- How the future of a queued operation ends.
pub data Completion : Type 0 where
  succeeded refused : Completion
  raised : Text → Completion

abbrev pub is_auth_error : Text → Bool
is_auth_error message =
    contains (codes "401 unauthorized") (lower message)
    || contains (codes "403 forbidden") (lower message)

abbrev completed : ℕ → Bool → Completion → Switch → Switch
completed now enable succeeded s = record s {
  optimistic_timestamp = now;
  verifications = if s.is_device then s.verifications else s.verifications + 1;
}
completed now enable refused s = mark_pending_operation now (not enable) s
completed now enable (raised message) s =
    mark_pending_operation now (not enable)
      (if is_auth_error message then handle_auth_failure now s else s)

unfoldable pub handle_operation_complete : ℕ → Bool → Completion → Switch → Switch
unfolding mark_pending_operation handle_auth_failure
handle_operation_complete now enable result s = record (completed now enable result s) {
  pending_operation = none;
}

-- The end of the verification's sleep; `flagged` is the answer to
-- `check_and_consume_ha_initiated_operation`.
unfoldable pub delayed_verification : Bool → Switch → Switch
delayed_verification flagged s = record s {
  verifications = s.verifications - 1;
  refreshes = if flagged then s.refreshes + 1 else s.refreshes;
}

unfoldable pub handle_auth_restored_event : ℕ → Switch → Switch
unfolding clear_optimistic_state
handle_auth_restored_event now s =
    let t = record s { last_auth_failure_time = 0; optimistic_max_age = 5000 } in
    if s.operation_pending && is_set s.optimistic_state
    then record t { optimistic_timestamp = now }
    else clear_optimistic_state now false t

abbrev is_handle : Option ℕ → Bool
is_handle none = false
is_handle (some h) = true

unfoldable pub async_will_remove_from_hass : Switch → Switch
unfolding cancel
async_will_remove_from_hass s = record s {
  pending_timers = cancel s.debounce_timer s.pending_timers;
  debounce_timer = none;
  debounce_target_state = if is_handle s.debounce_timer then none else s.debounce_target_state;
}

-- ===== src/Switch/Runs.antt =====
-- custom_components/unifi_network_rules/switches/base.py: what can happen to a switch, and its runs.
use unifi_network_rules.Prelude.{
  ℕ, ◌+◌, ◌-◌, Bool, Option, some, List, [], ◌∷◌, any, ltb, ◌==◌, if◌then◌else◌,
}
use unifi_network_rules.Switch.{
  Switch, CurrentRule, Completion, cancel, async_toggle_rule, execute_toggle_operation,
  handle_operation_complete, delayed_verification, handle_coordinator_update, handle_auth_failure,
  handle_auth_restored_event, async_will_remove_from_hass,
}

-- The event loop calls the timer's function, which creates the task.
unfoldable pub fire_debounce : ℕ → Switch → Switch
unfolding any cancel
fire_debounce h s =
    if any (λ t. t == h) s.pending_timers
    then record s {
      pending_timers = cancel (some h) s.pending_timers;
      execute_tasks = s.execute_tasks + 1;
    }
    else s

pub data Event : Type 0 where
  toggled : ℕ → Bool → Event
  debounce_fired : ℕ → Event
  executed : ℕ → Bool → Bool → Event
  completed : ℕ → Bool → Completion → Event
  verified : Bool → Event
  updated : ℕ → Bool → Option CurrentRule → Event
  auth_failed auth_restored : ℕ → Event
  removed : Event

-- A task step does nothing where there is no such task.
unfoldable pub step : Event → Switch → Switch
step (toggled now enable) s = async_toggle_rule now enable s
step (debounce_fired h) s = fire_debounce h s
step (executed now found queued) s =
    if ltb 0 s.execute_tasks
    then execute_toggle_operation now found queued
        (record s { execute_tasks = s.execute_tasks - 1 })
    else s
step (completed now enable result) s = handle_operation_complete now enable result s
step (verified flagged) s = if ltb 0 s.verifications then delayed_verification flagged s else s
step (updated now has_data rule) s = handle_coordinator_update now has_data rule s
step (auth_failed now) s = handle_auth_failure now s
step (auth_restored now) s = handle_auth_restored_event now s
step removed s = async_will_remove_from_hass s

unfoldable pub run : List Event → Switch → Switch
run [] s = s
run (e ∷ es) s = run es (step e s)

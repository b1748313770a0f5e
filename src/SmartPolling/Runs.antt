-- ===== src/SmartPolling/Runs.antt =====
-- custom_components/unifi_network_rules/smart_polling.py: `_execute_debounced_poll` and
-- `_execute_smart_poll`, cut at the refresh that they await, and the runs of a manager.
use unifi_network_rules.Prelude.{
  ℕ, ◌+◌, ◌-◌, String, Bool, true, false, none, some, List, [], ◌∷◌, any, ltb, ◌==◌, if◌then◌else◌,
}
use unifi_network_rules.SmartPolling.{
  SmartPollingConfig, Timer, Manager, cancel, schedule_next_smart_poll, register_entity_change,
  register_external_change_detected, get_current_interval, cleanup,
}

-- How `coordinator.async_refresh()` ends.
pub data Refresh : Type 0 where
  refreshed raised cancelled : Refresh

unfoldable pub scheduled : ℕ → List Timer → Bool
unfolding any
scheduled h timers = any (λ (t : Timer). t.handle == h) timers

-- The loop calls a timer's function, which creates the task.
unfoldable pub fire_debounce : ℕ → Manager → Manager
unfolding scheduled
fire_debounce h s =
    if scheduled h s.pending_debounces
    then record s {
      pending_debounces = cancel (some h) s.pending_debounces;
      debounce_tasks = s.debounce_tasks + 1;
    }
    else s

unfoldable pub fire_poll : ℕ → Manager → Manager
unfolding scheduled
fire_poll h s =
    if scheduled h s.pending_polls
    then record s { pending_polls = cancel (some h) s.pending_polls; poll_tasks = s.poll_tasks + 1 }
    else s

-- `_execute_debounced_poll` up to the refresh, and from its end on.
unfoldable pub begin_debounced_poll : Manager → Manager
begin_debounced_poll s = record s {
  debounce_tasks = s.debounce_tasks - 1;
  debounce_timer = none;
  activity_entities = [];
  in_smart_poll_cycle = true;
  debounce_refreshes = s.debounce_refreshes + 1;
}

unfoldable pub end_debounced_poll : Manager → Manager
end_debounced_poll s = record s {
  debounce_refreshes = s.debounce_refreshes - 1;
  in_smart_poll_cycle = false;
}

-- `_execute_smart_poll` up to the refresh, and from its end on.
unfoldable pub begin_smart_poll : Manager → Manager
begin_smart_poll s = record s {
  poll_tasks = s.poll_tasks - 1;
  in_smart_poll_cycle = true;
  poll_refreshes = s.poll_refreshes + 1;
}

unfoldable pub end_smart_poll : SmartPollingConfig → ℕ → Refresh → Manager → Manager
end_smart_poll config now result s =
    let s' = record s { poll_refreshes = s.poll_refreshes - 1; in_smart_poll_cycle = false } in
    elim result [
      | cancelled ↦ record s' { timer_active = false }
      | _ ↦ schedule_next_smart_poll config now s'
    ]

pub data Event : Type 0 where
  entity_changed : ℕ → String → Event
  external_change : ℕ → Event
  debounce_fired poll_fired : ℕ → Event
  debounce_begun debounce_ended poll_begun cleaned_up : Event
  poll_ended : ℕ → Refresh → Event
  status_read : ℕ → Event

-- A task step does nothing where there is no such task.
unfoldable pub step : SmartPollingConfig → Event → Manager → Manager
step config (entity_changed now entity_id) s = register_entity_change config now entity_id s
step config (external_change now) s = register_external_change_detected config now s
step config (debounce_fired h) s = fire_debounce h s
step config (poll_fired h) s = fire_poll h s
step config debounce_begun s = if ltb 0 s.debounce_tasks then begin_debounced_poll s else s
step config debounce_ended s = if ltb 0 s.debounce_refreshes then end_debounced_poll s else s
step config poll_begun s = if ltb 0 s.poll_tasks then begin_smart_poll s else s
step config cleaned_up s = cleanup s
step config (poll_ended now result) s =
    if ltb 0 s.poll_refreshes then end_smart_poll config now result s else s
step config (status_read now) s = (get_current_interval config now s).0

unfoldable pub run : SmartPollingConfig → List Event → Manager → Manager
run config [] s = s
run config (e ∷ es) s = run config es (step config e s)

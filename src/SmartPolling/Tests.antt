-- ===== src/SmartPolling/Tests.antt =====
-- Runs of the polling manager, and its theorems at concrete inputs.
use unifi_network_rules.Prelude.{◌≤◌, ◌≡◌, refl, true, List, [], ◌∷◌, length, keep, any}
use unifi_network_rules.SmartPolling.{
  default_config, Manager, init, add_entity, cancel, interval_at, get_current_interval,
  schedule_next_smart_poll, ensure_smart_polling_active, schedule_debounce, register_entity_change,
  register_external_change_detected, cleanup,
}
use unifi_network_rules.SmartPolling.Runs.{
  Event, entity_changed, debounce_fired, poll_fired, debounce_begun, debounce_ended, poll_begun,
  scheduled, fire_debounce, fire_poll, begin_debounced_poll, end_debounced_poll, begin_smart_poll,
  end_smart_poll, step, run,
}
use unifi_network_rules.SmartPolling.Timers.{OnePoll, run-init-polls}

program : Unit {0}
unfolding any keep init add_entity cancel interval_at get_current_interval schedule_next_smart_poll
    ensure_smart_polling_active schedule_debounce register_entity_change
    register_external_change_detected cleanup scheduled fire_debounce fire_poll begin_debounced_poll
    end_debounced_poll begin_smart_poll end_smart_poll step run
program = tt

-- A change at the time 1000; the debounce timer fires and its refresh is under way.
abbrev one_change : List Event
one_change = entity_changed 1000 "switch.a" ∷ debounce_fired 1 ∷ debounce_begun ∷ []

abbrev refreshing : Manager
refreshing = run default_config one_change (init default_config)

-- The first smart poll has ended within the debounce window.
abbrev polled : Manager
polled = run default_config (debounce_ended ∷ poll_fired 0 ∷ poll_begun ∷ []) refreshing

polled_runs :
    (refreshing.in_smart_poll_cycle ≡ true)
    × (refreshing.activity_entities ≡ [])
    × (polled.timer_active ≡ true)
    × (polled.poll_refreshes ≡ 1)
    × (polled.pending_polls ≡ [])
unfolding program
polled_runs = (refl, refl, refl, refl, refl)

run-init-polls_example :
    (length (run default_config one_change (init default_config)).pending_polls ≤ 1)
    × (cancel
          (run default_config one_change (init default_config)).polling_timer
          (run default_config one_change (init default_config)).pending_polls
        ≡ [])
run-init-polls_example = run-init-polls default_config one_change

abbrev polled-OnePoll : OnePoll polled
unfolding program
polled-OnePoll = record { only = tt }

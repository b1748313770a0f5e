-- ===== src/SmartPolling/Cycles.antt =====
-- The flag of a polling cycle, the shutdown, and two interleavings that the code does not foresee.
use unifi_network_rules.Prelude.{
  ℕ, ◌+◌, ◌<◌, ◌≡◌, refl, true, false, Option, none, some, keep, List, [], ◌∷◌, arith, String,
  length, if_keeps, not,
}
use unifi_network_rules.SmartPolling.{
  SmartPollingConfig, Manager, init, cancel, get_current_interval, schedule_next_smart_poll,
  ensure_smart_polling_active, schedule_debounce, register_entity_change,
  register_external_change_detected, cleanup,
}
use unifi_network_rules.SmartPolling.Runs.{
  Event, Refresh, refreshed, raised, cancelled, entity_changed, external_change, debounce_fired,
  poll_fired, debounce_begun, debounce_ended, poll_begun, cleaned_up, poll_ended, status_read,
  scheduled, fire_debounce, fire_poll, begin_debounced_poll, end_debounced_poll, begin_smart_poll,
  end_smart_poll, step, run,
}
use unifi_network_rules.SmartPolling.Timers.{OnePoll, cancel-Only}

pub record FlagIsBacked (s : Manager) : Type 0 where
  pub backed : s.in_smart_poll_cycle ≡ true → 0 < s.debounce_refreshes + s.poll_refreshes

module _ (config : SmartPollingConfig) where
  schedule-FlagIsBacked :
      (now : ℕ) (s : Manager)
      → FlagIsBacked s
      → FlagIsBacked (schedule_next_smart_poll config now s)
  unfolding schedule_next_smart_poll
  schedule-FlagIsBacked now s h = ground (arith, h.backed)

  ensure-FlagIsBacked :
      (now : ℕ) (s : Manager)
      → FlagIsBacked s
      → FlagIsBacked (ensure_smart_polling_active config now s)
  unfolding ensure_smart_polling_active
  ensure-FlagIsBacked now s h =
      if_keeps FlagIsBacked (not s.timer_active)
        (schedule-FlagIsBacked now _ (record { backed = h.backed })) h

  end-FlagIsBacked :
      (now : ℕ) (result : Refresh) (s : Manager) → FlagIsBacked (end_smart_poll config now result s)
  unfolding end_smart_poll
  end-FlagIsBacked now refreshed s = schedule-FlagIsBacked now _ (record { backed = λ e. cc })
  end-FlagIsBacked now raised s = schedule-FlagIsBacked now _ (record { backed = λ e. cc })
  end-FlagIsBacked now cancelled s = record { backed = λ e. cc }

  step-FlagIsBacked : (e : Event) (s : Manager) → FlagIsBacked s → FlagIsBacked (step config e s)
  unfolding step begin_debounced_poll end_debounced_poll begin_smart_poll get_current_interval
      register_external_change_detected register_entity_change schedule_debounce fire_debounce
      fire_poll cleanup
  step-FlagIsBacked (entity_changed now entity_id) s h = record {
    backed = (ensure-FlagIsBacked now _ (record { backed = h.backed })).backed;
  }
  step-FlagIsBacked (external_change now) s h =
      ensure-FlagIsBacked now _ (record { backed = h.backed })
  step-FlagIsBacked (debounce_fired g) s h = ground (arith, h.backed)
  step-FlagIsBacked (poll_fired g) s h = ground (arith, h.backed)
  step-FlagIsBacked debounce_begun s h = ground (arith, h.backed)
  step-FlagIsBacked debounce_ended s h = ground (arith, h.backed)
  step-FlagIsBacked poll_begun s h = ground (arith, h.backed)
  step-FlagIsBacked cleaned_up s h = record { backed = λ e. cc }
  step-FlagIsBacked (poll_ended now result) s h =
      if_keeps FlagIsBacked _ (end-FlagIsBacked now result s) h
  step-FlagIsBacked (status_read now) s h = record { backed = h.backed }

  run-FlagIsBacked :
      (es : List Event) (s : Manager) → FlagIsBacked s → FlagIsBacked (run config es s)
  unfolding run
  run-FlagIsBacked [] s h = h
  run-FlagIsBacked (e ∷ es) s h = run-FlagIsBacked es (step config e s) (step-FlagIsBacked e s h)

-- Whatever happens to a new manager, the flag that keeps the coordinator from taking its own poll
-- for an external change is on only while a refresh of the manager is under way: no end of a
-- refresh, by an error either, leaves it on.
pub run-init-flag :
    (config : SmartPollingConfig) (es : List Event)
    → (run config es (init config)).in_smart_poll_cycle ≡ true
    → 0
      < (run config es (init config)).debounce_refreshes
        + (run config es (init config)).poll_refreshes
run-init-flag config es =
    (run-FlagIsBacked config es (init config) (unfold init in record { backed = λ e. cc })).backed

pub record IsOff (s : Manager) : Type 0 where
  pub inactive : s.timer_active ≡ false
  pub no_polls : s.pending_polls ≡ []

-- Nobody registers a change.
abbrev pub Passive : List Event → Type 0
Passive [] = Unit
Passive (entity_changed now entity_id ∷ es) = ⊥
Passive (external_change now ∷ es) = ⊥
Passive (_ ∷ es) = Passive es

module _ (config : SmartPollingConfig) where
  end-IsOff :
      (now : ℕ) (result : Refresh) (s : Manager)
      → IsOff s
      → IsOff (end_smart_poll config now result s)
  unfolding end_smart_poll schedule_next_smart_poll
  end-IsOff now refreshed s h = ground (arith, h.no_polls, h.inactive)
  end-IsOff now raised s h = ground (arith, h.no_polls, h.inactive)
  end-IsOff now cancelled s h = ground (arith, h.no_polls, h.inactive)

  run-IsOff : (es : List Event) (s : Manager) → Passive es → IsOff s → IsOff (run config es s)
  unfolding run step begin_debounced_poll end_debounced_poll begin_smart_poll get_current_interval
      fire_debounce fire_poll cleanup scheduled cancel
  run-IsOff [] s p h = h
  run-IsOff (entity_changed now entity_id ∷ es) s p h = elim p [ ]
  run-IsOff (external_change now ∷ es) s p h = elim p [ ]
  run-IsOff (poll_ended now result ∷ es) s p h =
      run-IsOff es _ p (if_keeps IsOff _ (end-IsOff now result s h) h)
  run-IsOff (debounce_fired g ∷ es) s p h =
      run-IsOff es _ p (ground (arith, h.no_polls, h.inactive))
  run-IsOff (poll_fired g ∷ es) s p h = run-IsOff es _ p (ground (arith, h.no_polls, h.inactive))
  run-IsOff (debounce_begun ∷ es) s p h = run-IsOff es _ p (ground (arith, h.no_polls, h.inactive))
  run-IsOff (debounce_ended ∷ es) s p h = run-IsOff es _ p (ground (arith, h.no_polls, h.inactive))
  run-IsOff (poll_begun ∷ es) s p h = run-IsOff es _ p (ground (arith, h.no_polls, h.inactive))
  run-IsOff (cleaned_up ∷ es) s p h = run-IsOff es _ p (ground (arith, h.no_polls, h.inactive))
  run-IsOff (status_read now ∷ es) s p h =
      run-IsOff es _ p (record { inactive = h.inactive; no_polls = h.no_polls })

-- After `cleanup`, where at most one timer for a smart poll was pending, no such timer is set again
-- by anything but a registered change: polls and refreshes that were under way end without it.
pub run-cleanup :
    (config : SmartPollingConfig) (es : List Event) (s : Manager)
    → OnePoll s
    → Passive es
    → ((run config es (cleanup s)).pending_polls ≡ [])
      × ((run config es (cleanup s)).timer_active ≡ false)
run-cleanup config es s h p =
    let off : IsOff (cleanup s) =
      unfold cleanup in
      record { inactive = refl; no_polls = cancel-Only s.polling_timer s.pending_polls h.only } in
    let r = run-IsOff config es (cleanup s) p off in (r.no_polls, r.inactive)

cancel-nil : (h : Option ℕ) → cancel h [] ≡ []
unfolding cancel keep
cancel-nil none = refl
cancel-nil (some h) = refl

ensure-debounces :
    (config : SmartPollingConfig) (now : ℕ) (s : Manager)
    → (ensure_smart_polling_active config now s).pending_debounces ≡ s.pending_debounces
unfolding ensure_smart_polling_active schedule_next_smart_poll
ensure-debounces config now s = ground arith

register-debounces :
    (config : SmartPollingConfig) (now : ℕ) (entity_id : String) (s : Manager)
    → s.pending_debounces ≡ []
    → length (register_entity_change config now entity_id s).pending_debounces ≡ 1
unfolding register_entity_change schedule_debounce
register-debounces config now entity_id s h = rw (ensure-debounces, h, cancel-nil)

-- A change that is registered after the debounce timer has fired and before its task begins leaves
-- a timer in the loop that the manager no longer names: `cleanup` does not cancel it.
pub cleanup-orphan :
    (config : SmartPollingConfig) (now : ℕ) (entity_id : String) (s : Manager)
    → s.pending_debounces ≡ []
    → let t = begin_debounced_poll (register_entity_change config now entity_id s) in
      (t.debounce_timer ≡ none)
      × (length t.pending_debounces ≡ 1)
      × (length (cleanup t).pending_debounces ≡ 1)
unfolding begin_debounced_poll cleanup cancel
cleanup-orphan config now entity_id s h =
    (refl, register-debounces config now entity_id s h, register-debounces config now entity_id s h)

-- ===== src/SmartPolling/Timers.antt =====
-- The timers that the manager has in the loop.
use unifi_network_rules.Prelude.{
  ℕ, ◌+◌, ◌-◌, ◌≤◌, ◌≡◌, true, Option, none, some, List, [], ◌∷◌, arith, keep, if_keeps, length,
  String, not, ◌==◌, if◌then◌else◌, Bool-cases, inl, inr, refl,
}
use unifi_network_rules.SmartPolling.{
  SmartPollingConfig, Manager, Timer, cancel, init, interval_at, get_current_interval,
  schedule_next_smart_poll, ensure_smart_polling_active, schedule_debounce, register_entity_change,
  register_external_change_detected, cleanup,
}
use unifi_network_rules.SmartPolling.Runs.{
  Event, Refresh, refreshed, raised, cancelled, entity_changed, external_change, debounce_fired,
  poll_fired, debounce_begun, debounce_ended, poll_begun, cleaned_up, poll_ended, status_read,
  fire_debounce, fire_poll, begin_debounced_poll, end_debounced_poll, begin_smart_poll,
  end_smart_poll, step, run,
}

-- No timer is pending, or one is, and it is the one that the field names.
abbrev pub Only : Option ℕ → List Timer → Type 0
Only _ [] = Unit
Only (some h) (t ∷ []) = h ≡ t.handle
Only _ _ = ⊥

pub record OnePoll (s : Manager) : Type 0 where
  pub only : Only s.polling_timer s.pending_polls

pub cancel-Only : (p : Option ℕ) (timers : List Timer) → Only p timers → cancel p timers ≡ []
unfolding cancel keep
cancel-Only none [] h = refl
cancel-Only (some h) [] e = refl
cancel-Only (some h) (t ∷ []) e = ground arith
cancel-Only none (t ∷ ts) h = elim h [ ]
cancel-Only (some h) (t ∷ u ∷ ts) e = elim e [ ]

Only-cancel : (p q : Option ℕ) (timers : List Timer) → Only p timers → Only p (cancel q timers)
unfolding cancel keep
Only-cancel p none timers h = h
Only-cancel none (some g) [] h = tt
Only-cancel (some k) (some g) [] h = tt
Only-cancel (some k) (some g) (t ∷ []) e = elim (Bool-cases (t.handle == g)) [
  | inl same ↦ rw same tt
  | inr other ↦ rw other e
]
Only-cancel none (some g) (t ∷ ts) h = elim h [ ]
Only-cancel (some k) (some g) (t ∷ u ∷ ts) e = elim e [ ]

module _ (config : SmartPollingConfig) where
  schedule_next-OnePoll :
      (now : ℕ) (s : Manager) → OnePoll s → OnePoll (schedule_next_smart_poll config now s)
  unfolding schedule_next_smart_poll
  schedule_next-OnePoll now s h =
      ground (arith, h.only, cancel-Only s.polling_timer s.pending_polls h.only)

  ensure-OnePoll :
      (now : ℕ) (s : Manager) → OnePoll s → OnePoll (ensure_smart_polling_active config now s)
  unfolding ensure_smart_polling_active
  ensure-OnePoll now s h =
      if_keeps OnePoll (not s.timer_active)
        (schedule_next-OnePoll now (record s { timer_active = true }) (record { only = h.only })) h

  register-OnePoll :
      (now : ℕ) (entity_id : String) (s : Manager)
      → OnePoll s
      → OnePoll (register_entity_change config now entity_id s)
  unfolding register_entity_change schedule_debounce
  register-OnePoll now entity_id s h = record {
    only = (ensure-OnePoll now _ (record { only = h.only })).only;
  }

  end_smart_poll-OnePoll :
      (now : ℕ) (result : Refresh) (s : Manager)
      → OnePoll s
      → OnePoll (end_smart_poll config now result s)
  unfolding end_smart_poll
  end_smart_poll-OnePoll now refreshed s h = schedule_next-OnePoll now _ (record { only = h.only })
  end_smart_poll-OnePoll now raised s h = schedule_next-OnePoll now _ (record { only = h.only })
  end_smart_poll-OnePoll now cancelled s h = record { only = h.only }

  fire_poll-OnePoll : (g : ℕ) (s : Manager) → OnePoll s → OnePoll (fire_poll g s)
  unfolding fire_poll
  fire_poll-OnePoll g s h =
      ground (arith, h.only, Only-cancel s.polling_timer (some g) s.pending_polls h.only)

  fire_debounce-OnePoll : (g : ℕ) (s : Manager) → OnePoll s → OnePoll (fire_debounce g s)
  unfolding fire_debounce
  fire_debounce-OnePoll g s h = ground (arith, h.only)

  cleanup-OnePoll : (s : Manager) → OnePoll s → OnePoll (cleanup s)
  unfolding cleanup
  cleanup-OnePoll s h = record { only = rw (cancel-Only s.polling_timer s.pending_polls h.only) tt }

  step-OnePoll : (e : Event) (s : Manager) → OnePoll s → OnePoll (step config e s)
  unfolding step begin_debounced_poll end_debounced_poll begin_smart_poll get_current_interval
      register_external_change_detected
  step-OnePoll (entity_changed now entity_id) s h = register-OnePoll now entity_id s h
  step-OnePoll (external_change now) s h = ensure-OnePoll now _ (record { only = h.only })
  step-OnePoll (debounce_fired g) s h = fire_debounce-OnePoll g s h
  step-OnePoll (poll_fired g) s h = fire_poll-OnePoll g s h
  step-OnePoll debounce_begun s h = ground (arith, h.only)
  step-OnePoll debounce_ended s h = ground (arith, h.only)
  step-OnePoll poll_begun s h = ground (arith, h.only)
  step-OnePoll cleaned_up s h = cleanup-OnePoll s h
  step-OnePoll (poll_ended now result) s h =
      if_keeps OnePoll _ (end_smart_poll-OnePoll now result s h) h
  step-OnePoll (status_read now) s h = record { only = h.only }

  run-OnePoll : (es : List Event) (s : Manager) → OnePoll s → OnePoll (run config es s)
  unfolding run
  run-OnePoll [] s h = h
  run-OnePoll (e ∷ es) s h = run-OnePoll es (step config e s) (step-OnePoll e s h)

Only-length : (p : Option ℕ) (timers : List Timer) → Only p timers → length timers ≤ 1
Only-length p [] h = omega arith
Only-length (some k) (t ∷ []) e = omega arith
Only-length none (t ∷ ts) h = elim h [ ]
Only-length (some k) (t ∷ u ∷ ts) e = elim e [ ]

-- Whatever happens to a new manager, the event loop never holds more than one timer for the next
-- smart poll, and cancelling the handle that the manager keeps leaves none.
pub run-init-polls :
    (config : SmartPollingConfig) (es : List Event)
    → (length (run config es (init config)).pending_polls ≤ 1)
      × (cancel
            (run config es (init config)).polling_timer
            (run config es (init config)).pending_polls
          ≡ [])
run-init-polls config es =
    let h = (run-OnePoll config es (init config) (unfold init in record { only = tt })).only in
    (Only-length _ _ h, cancel-Only _ _ h)

-- At the end of a smart poll that was not cancelled, while polling is on and at most one timer is
-- pending: if the last activity is recent, polling goes on with exactly one timer, due after the
-- interval of the moment; otherwise no timer is left and polling is off.
pub end_smart_poll_lem :
    (config : SmartPollingConfig) (now : ℕ) (s : Manager)
    → OnePoll s
    → s.timer_active ≡ true
    → let i = interval_at config (now - s.last_activity) in
      let t = end_smart_poll config now refreshed s in
      (t.timer_active ≡ i.active)
      × (t.pending_polls ≡ (
          if i.active then record { handle = s.next_handle; due = now + i.seconds } ∷ [] else []))
unfolding end_smart_poll schedule_next_smart_poll
end_smart_poll_lem config now s h a = (
  ground (arith, cancel-Only s.polling_timer s.pending_polls h.only),
  ground (arith, cancel-Only s.polling_timer s.pending_polls h.only),
)

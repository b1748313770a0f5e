-- ===== src/Switch/Debounce.antt =====
-- How many operations the toggles of a switch submit, and with which target.
use unifi_network_rules.Prelude.{
  ℕ, ◌+◌, ◌-◌, ◌≤◌, ◌≡◌, refl, Bool, true, false, Option, none, some, List, [], ◌∷◌, ◌++◌, any,
  keep, length, length-append, arith, if◌then◌else◌,
}
use unifi_network_rules.Switch.{
  Switch, CurrentRule, Completion, succeeded, refused, raised, init, is_set, cancel,
  clear_optimistic_state, handle_auth_failure, handle_coordinator_update, async_toggle_rule, submit,
  execute_toggle_operation, handle_operation_complete, delayed_verification,
  handle_auth_restored_event, async_will_remove_from_hass,
}
use unifi_network_rules.Switch.Runs.{
  fire_debounce, Event, toggled, debounce_fired, executed, completed, verified, updated,
  auth_failed, auth_restored, removed, step, run,
}

-- The number of the toggles.
unfoldable pub toggles : List Event → ℕ
toggles [] = 0
toggles (toggled now enable ∷ es) = 1 + toggles es
toggles (_ ∷ es) = toggles es

-- What was submitted, and the target that is stored for the next operation.
abbrev pub claims : Switch → ℕ
claims s = length s.submitted + (if is_set s.debounce_target_state then 1 else 0)

claims-execute_toggle_operation :
    (now : ℕ) (found queued : Bool) (s : Switch)
    → claims (execute_toggle_operation now found queued s) ≤ claims s
unfolding execute_toggle_operation
claims-execute_toggle_operation now found queued s =
    ground (arith, length-append s.submitted (true ∷ []), length-append s.submitted (false ∷ []))

claims-handle_operation_complete :
    (now : ℕ) (enable : Bool) (result : Completion) (s : Switch)
    → claims (handle_operation_complete now enable result s) ≤ claims s
unfolding handle_operation_complete
claims-handle_operation_complete now enable succeeded s = omega arith
claims-handle_operation_complete now enable refused s = omega arith
claims-handle_operation_complete now enable (raised message) s = ground arith

claims-handle_coordinator_update :
    (now : ℕ) (has_data : Bool) (rule : Option CurrentRule) (s : Switch)
    → claims (handle_coordinator_update now has_data rule s) ≤ claims s
unfolding handle_coordinator_update clear_optimistic_state
claims-handle_coordinator_update now has_data none s = ground arith
claims-handle_coordinator_update now has_data (some rule) s = ground arith

claims-run : (es : List Event) (s : Switch) → claims (run es s) ≤ claims s + toggles es
unfolding run step toggles fire_debounce delayed_verification handle_auth_failure
    handle_auth_restored_event async_will_remove_from_hass async_toggle_rule
claims-run [] s = omega arith
claims-run (toggled now enable ∷ es) s =
    ground (arith, claims-run es (async_toggle_rule now enable s))
claims-run (debounce_fired h ∷ es) s = ground (arith, claims-run es (fire_debounce h s))
claims-run (executed now found queued ∷ es) s = ground (
  arith,
  claims-run es (step (executed now found queued) s),
  claims-execute_toggle_operation now found queued
      (record s { execute_tasks = s.execute_tasks - 1 }),
)
claims-run (completed now enable result ∷ es) s = ground (
  arith,
  claims-run es (handle_operation_complete now enable result s),
  claims-handle_operation_complete now enable result s,
)
claims-run (verified flagged ∷ es) s = ground (arith, claims-run es (step (verified flagged) s))
claims-run (updated now has_data rule ∷ es) s = ground (
  arith,
  claims-run es (handle_coordinator_update now has_data rule s),
  claims-handle_coordinator_update now has_data rule s,
)
claims-run (auth_failed now ∷ es) s = ground (arith, claims-run es (handle_auth_failure now s))
claims-run (auth_restored now ∷ es) s =
    ground (arith, claims-run es (handle_auth_restored_event now s))
claims-run (removed ∷ es) s = ground (arith, claims-run es (async_will_remove_from_hass s))

-- Whatever happens to a new switch, at most as many operations are submitted as it was toggled.
pub run-init-submitted :
    (is_device : Bool) (es : List Event) → length (run es (init is_device)).submitted ≤ toggles es
unfolding init
run-init-submitted is_device es = ground (arith, claims-run es (init is_device))

-- A row of toggles, each with its time and its target.
unfoldable pub toggle_all : List (ℕ × Bool) → Switch → Switch
toggle_all [] s = s
toggle_all ((now, enable) ∷ rest) s = toggle_all rest (async_toggle_rule now enable s)

-- No timer is pending but the one that the switch names.
record OneTimer (s : Switch) : Type 0 where
  cancelled : cancel s.debounce_timer s.pending_timers ≡ []

toggle-OneTimer :
    (now : ℕ) (enable : Bool) (s : Switch) → OneTimer s → OneTimer (async_toggle_rule now enable s)
unfolding async_toggle_rule
toggle-OneTimer now enable s h = record { cancelled = ground (arith, h.cancelled) }

record Unsubmitted (s t : Switch) : Type 0 where
  timer : OneTimer t
  submitted : t.submitted ≡ s.submitted
  tasks : t.execute_tasks ≡ s.execute_tasks

toggle_all-Unsubmitted :
    (rest : List (ℕ × Bool)) (s : Switch) → OneTimer s → Unsubmitted s (toggle_all rest s)
unfolding toggle_all async_toggle_rule
toggle_all-Unsubmitted [] s h = record { timer = h; submitted = refl; tasks = refl }
toggle_all-Unsubmitted ((now, enable) ∷ rest) s h =
    let t = async_toggle_rule now enable s in
    let r = toggle_all-Unsubmitted rest t (toggle-OneTimer now enable s h) in
    record { timer = r.timer; submitted = r.submitted; tasks = r.tasks }

-- The timer of a toggle fires: one task is created, and no timer is left.
record Fired (now : ℕ) (enable : Bool) (s t : Switch) : Type 0 where
  alone : length (async_toggle_rule now enable s).pending_timers ≡ 1
  timers : t.pending_timers ≡ []
  tasks : t.execute_tasks ≡ s.execute_tasks + 1
  target : t.debounce_target_state ≡ some enable
  submitted : t.submitted ≡ s.submitted

fire-toggle :
    (now : ℕ) (enable : Bool) (s : Switch)
    → OneTimer s
    → Fired now enable s (fire_debounce s.next_handle (async_toggle_rule now enable s))
unfolding fire_debounce async_toggle_rule any cancel keep
fire-toggle now enable s h = record {
  alone = ground (arith, h.cancelled);
  timers = ground (arith, h.cancelled);
  tasks = ground (arith, h.cancelled);
  target = ground (arith, h.cancelled);
  submitted = ground (arith, h.cancelled);
}

cancel-nil : (h : Option ℕ) → cancel h [] ≡ []
unfolding cancel keep
cancel-nil none = refl
cancel-nil (some h) = refl

-- The task finds the target of the last toggle, and submits an operation for it.
record Submitted (enable : Bool) (s t : Switch) : Type 0 where
  submitted : t.submitted ≡ s.submitted ++ enable ∷ []
  timers : t.pending_timers ≡ s.pending_timers
  tasks : t.execute_tasks ≡ s.execute_tasks - 1
  pending : t.pending_operation ≡ some enable

executed-Submitted :
    (later : ℕ) (enable : Bool) (s : Switch)
    → s.debounce_target_state ≡ some enable
    → 1 ≤ s.execute_tasks
    → Submitted enable s (step (executed later true true) s)
unfolding step execute_toggle_operation submit
executed-Submitted later enable s target some_task = record {
  submitted = ground (arith, target);
  timers = ground (arith, target);
  tasks = ground (arith, target);
  pending = ground (arith, target);
}

-- However often a switch with no debounce timer is toggled before its timer fires, one operation is
-- submitted for all of it, with the target of the last toggle, where the rule is there and the
-- operation can be queued; one timer was pending by then, and none is left.
pub execute-toggle_all :
    (rest : List (ℕ × Bool)) (now later : ℕ) (enable : Bool) (s : Switch)
    → s.pending_timers ≡ []
    → s.execute_tasks ≡ 0
    → let t = async_toggle_rule now enable (toggle_all rest s) in
      let h = (toggle_all rest s).next_handle in
      let u = run (debounce_fired h ∷ executed later true true ∷ []) t in
      (length t.pending_timers ≡ 1)
      × (u.submitted ≡ s.submitted ++ enable ∷ [])
      × (u.pending_timers ≡ [])
      × (u.execute_tasks ≡ 0)
      × (u.pending_operation ≡ some enable)
unfolding run step
execute-toggle_all rest now later enable s none_pending no_task =
    let none_named : OneTimer s = record {
      cancelled = rw none_pending (cancel-nil s.debounce_timer);
    } in
    let u = toggle_all-Unsubmitted rest s none_named in
    let f = fire-toggle now enable (toggle_all rest s) u.timer in
    let t =
      fire_debounce (toggle_all rest s).next_handle
        (async_toggle_rule now enable (toggle_all rest s)) in
    let one : t.execute_tasks ≡ 1 = ground (arith, f.tasks, u.tasks, no_task) in
    let e = executed-Submitted later enable t f.target (ground (arith, one)) in
    (
      f.alone,
      cc (e.submitted, f.submitted, u.submitted),
      cc (e.timers, f.timers),
      ground (arith, e.tasks, one),
      e.pending,
    )

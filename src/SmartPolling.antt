-- ===== src/SmartPolling.antt =====
-- custom_components/unifi_network_rules/smart_polling.py: `SmartPollingManager`, with the timers and
-- tasks that it has in the event loop. Times are in seconds; `time.time()` is an argument, and so
-- is how `coordinator.async_refresh()` ends. `_pending_poll_task` is never assigned, so the code
-- that cancels it does nothing and is left out.
pub mod Runs
pub mod Interval
pub mod Timers
pub mod Cycles
mod Tests
use unifi_network_rules.Prelude.{
  ℕ, ◌+◌, ◌-◌, ◌*◌, String, Bool, true, false, not, Option, none, some, List, [], ◌∷◌, ◌++◌, length,
  any, keep, ltb, ◌==◌, if◌then◌else◌,
}
use text.Mathlib.Text.{◌==◌ as str_eq}

pub record SmartPollingConfig : Type 0 where
  pub base_interval : ℕ
  pub active_interval : ℕ
  pub realtime_interval : ℕ
  pub activity_timeout : ℕ
  pub debounce_seconds : ℕ
  pub optimistic_timeout : ℕ

-- The defaults of the dataclass.
abbrev pub default_config : SmartPollingConfig
default_config = record {
  base_interval = 300;
  active_interval = 30;
  realtime_interval = 10;
  activity_timeout = 120;
  debounce_seconds = 10;
  optimistic_timeout = 15;
}

-- A handle of `loop.call_later`.
pub record Timer : Type 0 where
  pub handle : ℕ
  pub due : ℕ

-- The manager's fields; then the handles that the loop still holds for the two kinds of timers, the
-- tasks that were created and have not begun, and those that await a refresh.
pub record Manager : Type 0 where
  pub last_activity : ℕ
  pub activity_entities : List String
  pub debounce_timer : Option ℕ
  pub polling_timer : Option ℕ
  pub current_interval : ℕ
  pub is_active : Bool
  pub timer_active : Bool
  pub in_smart_poll_cycle : Bool
  pub next_handle : ℕ
  pub pending_debounces : List Timer
  pub pending_polls : List Timer
  pub debounce_tasks : ℕ
  pub poll_tasks : ℕ
  pub debounce_refreshes : ℕ
  pub poll_refreshes : ℕ

unfoldable pub init : SmartPollingConfig → Manager
init config = record {
  last_activity = 0;
  activity_entities = [];
  debounce_timer = none;
  polling_timer = none;
  current_interval = config.base_interval;
  is_active = false;
  timer_active = false;
  in_smart_poll_cycle = false;
  next_handle = 0;
  pending_debounces = [];
  pending_polls = [];
  debounce_tasks = 0;
  poll_tasks = 0;
  debounce_refreshes = 0;
  poll_refreshes = 0;
}

-- `set.add`
unfoldable pub add_entity : String → List String → List String
unfolding any
add_entity entity entities =
    if any (λ e. str_eq e entity) entities then entities else entities ++ entity ∷ []

-- `handle.cancel()`, if there is a handle.
unfoldable pub cancel : Option ℕ → List Timer → List Timer
unfolding keep
cancel none timers = timers
cancel (some h) timers = keep (λ (t : Timer). not (t.handle == h)) timers

-- The interval, and the new `_is_active`.
pub record Pace : Type 0 where
  pub seconds : ℕ
  pub active : Bool

unfoldable pub interval_at : SmartPollingConfig → ℕ → Pace
interval_at config time_since_activity =
    if ltb time_since_activity (config.debounce_seconds * 2)
    then record { seconds = config.realtime_interval; active = true }
    else if ltb time_since_activity config.activity_timeout
    then record { seconds = config.active_interval; active = true }
    else record { seconds = config.base_interval; active = false }

unfoldable pub get_current_interval : SmartPollingConfig → ℕ → Manager → Manager × ℕ
get_current_interval config now s =
    let i = interval_at config (now - s.last_activity) in
    (record s { is_active = i.active }, i.seconds)

unfoldable pub schedule_next_smart_poll : SmartPollingConfig → ℕ → Manager → Manager
unfolding get_current_interval
schedule_next_smart_poll config now s =
    if not s.timer_active
    then s
    else let (s', interval) = get_current_interval config now s in
      let polls = cancel s.polling_timer s.pending_polls in
      if not s'.is_active
      then record s' { pending_polls = polls; timer_active = false }
      else record s' {
        pending_polls = polls ++ record { handle = s.next_handle; due = now + interval } ∷ [];
        polling_timer = some s.next_handle;
        next_handle = s.next_handle + 1;
      }

unfoldable pub ensure_smart_polling_active : SmartPollingConfig → ℕ → Manager → Manager
ensure_smart_polling_active config now s =
    if not s.timer_active
    then schedule_next_smart_poll config now (record s { timer_active = true })
    else s

unfoldable pub schedule_debounce : SmartPollingConfig → ℕ → Manager → Manager
schedule_debounce config now s = record s {
  pending_debounces =
      cancel s.debounce_timer s.pending_debounces
      ++ record { handle = s.next_handle; due = now + config.debounce_seconds } ∷ [];
  debounce_timer = some s.next_handle;
  next_handle = s.next_handle + 1;
}

unfoldable pub register_entity_change : SmartPollingConfig → ℕ → String → Manager → Manager
unfolding add_entity
register_entity_change config now entity_id s = schedule_debounce config now (
    ensure_smart_polling_active config now (record s {
      last_activity = now;
      activity_entities = add_entity entity_id s.activity_entities;
    }))

unfoldable pub register_external_change_detected : SmartPollingConfig → ℕ → Manager → Manager
register_external_change_detected config now s =
    ensure_smart_polling_active config now (record s { last_activity = now })

unfoldable pub cleanup : Manager → Manager
cleanup s = record s {
  timer_active = false;
  in_smart_poll_cycle = false;
  pending_polls = cancel s.polling_timer s.pending_polls;
  polling_timer = none;
  pending_debounces = cancel s.debounce_timer s.pending_debounces;
  debounce_timer = none;
  activity_entities = [];
}

-- `get_status` asks for the interval, which also sets `_is_active`.
pub record Status : Type 0 where
  pub current_interval : ℕ
  pub is_active : Bool
  pub timer_active : Bool
  pub in_smart_poll_cycle : Bool
  pub time_since_activity : ℕ
  pub pending_entities : ℕ
  pub has_debounce_timer : Bool
  pub has_smart_timer : Bool

abbrev is_some : Option ℕ → Bool
is_some none = false
is_some (some h) = true

unfoldable get_status : SmartPollingConfig → ℕ → Manager → Manager × Status
unfolding get_current_interval
get_status config now s =
    let (s', interval) = get_current_interval config now s in
    (
      s',
      record {
        current_interval = interval;
        is_active = s'.is_active;
        timer_active = s.timer_active;
        in_smart_poll_cycle = s.in_smart_poll_cycle;
        time_since_activity = now - s.last_activity;
        pending_entities = length s.activity_entities;
        has_debounce_timer = is_some s.debounce_timer;
        has_smart_timer = is_some s.polling_timer;
      },
    )

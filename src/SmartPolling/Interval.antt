-- ===== src/SmartPolling/Interval.antt =====
-- How the polling interval follows the activity.
use unifi_network_rules.Prelude.{ℕ, ◌-◌, ◌*◌, ◌<◌, ◌≡◌, ◌↔◌, ◌⊎◌, true, arith}
use unifi_network_rules.SmartPolling.{
  SmartPollingConfig, Manager, interval_at, get_current_interval,
}

-- The manager counts as active exactly while the last activity is nearer than twice the debounce
-- window or than the activity timeout, and takes the base interval at any other time.
pub get_current_interval_iff :
    (config : SmartPollingConfig) (now : ℕ) (s : Manager)
    → (((get_current_interval config now s).0.is_active ≡ true) ↔ (
        (now - s.last_activity < config.debounce_seconds * 2)
        ⊎ (now - s.last_activity < config.activity_timeout)))
      × (((get_current_interval config now s).1 ≡ config.base_interval)
          ⊎ ((get_current_interval config now s).0.is_active ≡ true))
unfolding get_current_interval interval_at
get_current_interval_iff config now s = (ground arith, ground arith)

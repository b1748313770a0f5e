-- ===== src/Operation/Retry.antt =====
-- When an operation may be tried again.
use unifi_network_rules.Prelude.{ℕ, ◌+◌, ◌-◌, ◌*◌, ◌^◌, ◌≤◌, ◌<◌, ◌≡◌, ◌↔◌, true, arith}
use unifi_network_rules.Operation.{QueuedOperation, should_retry_now}

-- An operation that has been tried is due exactly when it has tries left and the backoff, doubled
-- with each try after the first, has passed since its last try.
pub should_retry_now_iff :
    (now backoff : ℕ) (op : QueuedOperation)
    → 0 < op.retry_count
    → (should_retry_now now backoff op ≡ true) ↔ (
        (op.retry_count < op.max_retries)
        × (op.last_attempt_time + backoff * 2 ^ (op.retry_count - 1) ≤ now))
unfolding should_retry_now
should_retry_now_iff now backoff op h = ground arith

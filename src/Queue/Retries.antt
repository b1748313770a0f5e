-- ===== src/Queue/Retries.antt =====
-- What waits for a retry has been tried and has tries left.
use unifi_network_rules.Prelude.{
  ℕ, ◌<◌, ◌≡◌, true, some, List, [], ◌∷◌, ◌++◌, All, All-append, arith, if_keeps, keep, Bool-cases,
  inl, inr, ◌==◌,
}
use unifi_network_rules.Text.{Text}
use unifi_network_rules.Operation.{QueuedOperation, can_retry, record_attempt}
use unifi_network_rules.Queue.{
  Queue, init, start, stop, complete_pending_futures_on_shutdown, add_operation,
}
use unifi_network_rules.Queue.Worker.{
  Outcome, returned, error, handle_error, execute_operation, pick, process_next, regular_arrived,
  drop_expired, retry_scan, retry_next, remove, is_expired, retry_first, invalid_state,
  process_finish_rule, retry_finish_rule,
}
use unifi_network_rules.Queue.Runs.{
  Event, started, stopped, picked, arrived, timed_out, retry_picked, added, scanned, call_ended,
  retry_ended, future_cancelled, step, run, run_induction,
}

abbrev pub HasTriesLeft : QueuedOperation → Type 0
HasTriesLeft op = (0 < op.retry_count) × (op.retry_count < op.max_retries)

pub record CanBeRetried (s : Queue) : Type 0 where
  pub retries : All HasTriesLeft s.retry_queue

pub All-remove :
    (P : QueuedOperation → Type 0) (op : QueuedOperation) (ops : List QueuedOperation)
    → All P ops
    → All P (remove op ops)
unfolding remove
All-remove P op [] h = h
All-remove P op (x ∷ xs) h = elim (Bool-cases (x.future == op.future)) [
  | inl e ↦ rw e h.1
  | inr e ↦ rw e (h.0, All-remove P op xs h.1)
]

retry-HasTriesLeft :
    (now : ℕ) (e : Text) (op : QueuedOperation) (ops : List QueuedOperation)
    → All HasTriesLeft ops
    → can_retry (record_attempt now (some e) op) ≡ true
    → All HasTriesLeft (ops ++ record_attempt now (some e) op ∷ [])
unfolding record_attempt can_retry
retry-HasTriesLeft now e op ops h t =
    All-append HasTriesLeft ops (record_attempt now (some e) op ∷ []) h (ground arith, tt)

handle_error-CanBeRetried :
    (now : ℕ) (e : Text) (op : QueuedOperation) (s : Queue)
    → CanBeRetried s
    → CanBeRetried (handle_error now e op s).state
unfolding handle_error
handle_error-CanBeRetried now e op s h =
    ground (arith, h.retries, retry-HasTriesLeft now e op s.retry_queue)

execute_operation-CanBeRetried :
    (now : ℕ) (o : Outcome) (op : QueuedOperation) (s : Queue)
    → CanBeRetried s
    → CanBeRetried (execute_operation now o op s).state
unfolding execute_operation
execute_operation-CanBeRetried now (returned value) op s h =
    ground (arith, h.retries, handle_error-CanBeRetried now invalid_state op s)
execute_operation-CanBeRetried now (error e) op s h = handle_error-CanBeRetried now e op s h

drop_expired-CanBeRetried :
    (ops : List QueuedOperation) (s : Queue) → CanBeRetried s → CanBeRetried (drop_expired ops s)
unfolding drop_expired
drop_expired-CanBeRetried [] s h = h
drop_expired-CanBeRetried (op ∷ ops) s h =
    drop_expired-CanBeRetried ops _
      (record { retries = All-remove HasTriesLeft op s.retry_queue h.retries })

process_next-CanBeRetried : (s : Queue) → CanBeRetried s → CanBeRetried (process_next s)
unfolding process_next pick
process_next-CanBeRetried s h = ground arith

retry_first-CanBeRetried :
    (ops : List QueuedOperation) (s : Queue) → CanBeRetried s → CanBeRetried (retry_first ops s)
retry_first-CanBeRetried [] s h = h
retry_first-CanBeRetried (op ∷ ops) s h = record {
  retries = All-remove HasTriesLeft op s.retry_queue h.retries;
}

retry_next-CanBeRetried : (s : Queue) → CanBeRetried s → CanBeRetried (retry_next s)
unfolding retry_next
retry_next-CanBeRetried s h = retry_first-CanBeRetried s.ready s h

arrived-CanBeRetried : (s : Queue) → CanBeRetried s → CanBeRetried (regular_arrived s)
unfolding regular_arrived
arrived-CanBeRetried s h = ground arith

retry_scan-CanBeRetried : (now : ℕ) (s : Queue) → CanBeRetried s → CanBeRetried (retry_scan now s)
unfolding retry_scan
retry_scan-CanBeRetried now s h =
    let expired = keep (is_expired now s.operation_timeout) s.retry_queue in
    let w = drop_expired-CanBeRetried expired s h in record { retries = w.retries }

step-CanBeRetried : (e : Event) (s : Queue) → CanBeRetried s → CanBeRetried (step e s)
unfolding step start stop complete_pending_futures_on_shutdown add_operation
step-CanBeRetried started s h = ground (arith, h.retries)
step-CanBeRetried stopped s h = ground (arith, h.retries)
step-CanBeRetried picked s h = if_keeps CanBeRetried _ (process_next-CanBeRetried s h) h
step-CanBeRetried arrived s h = if_keeps CanBeRetried _ (arrived-CanBeRetried s h) h
step-CanBeRetried timed_out s h = record { retries = h.retries }
step-CanBeRetried retry_picked s h = if_keeps CanBeRetried _ (retry_next-CanBeRetried s h) h
step-CanBeRetried (added now call is_priority max_retries) s h = record { retries = h.retries }
step-CanBeRetried (scanned now) s h = if_keeps CanBeRetried _ (retry_scan-CanBeRetried now s h) h
step-CanBeRetried (call_ended now o) s h =
    process_finish_rule CanBeRetried now o s h
      λ op _. execute_operation-CanBeRetried now o op _ (record { retries = h.retries })
step-CanBeRetried (retry_ended now o) s h = retry_finish_rule CanBeRetried now o s h λ op _.
    let w = execute_operation-CanBeRetried now o op _ (record { retries = h.retries }) in
    record { retries = w.retries }
step-CanBeRetried (future_cancelled f) s h = ground (arith, h.retries)

-- After any events from a new queue, each operation that waits for a retry has been tried at least
-- once and has failed fewer times than its `max_retries`: the first call counts as one of these.
pub run-init-CanBeRetried :
    (delay max_queue_size timeout : ℕ) (es : List Event)
    → CanBeRetried (run es (init delay max_queue_size timeout))
unfolding init
run-init-CanBeRetried delay max_queue_size timeout es =
    run_induction CanBeRetried step-CanBeRetried es (init delay max_queue_size timeout)
      (record { retries = tt })

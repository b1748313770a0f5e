-- ===== src/Queue/Outcomes.antt =====
-- What the end of a call does to its future, and the sweep of the retry queue.
use unifi_network_rules.Prelude.{
  ℕ, ◌+◌, ◌≡◌, refl, Bool, false, some, List, [], ◌∷◌, ◌++◌, arith, keep, ◌&&◌, ◌||◌, if◌then◌else◌,
  ltb, length,
}
use unifi_network_rules.Text.{Text}
use unifi_network_rules.Operation.{
  QueuedOperation, new_operation, can_retry, record_attempt, is_retryable_error,
}
use unifi_network_rules.Queue.{
  Queue, finished, failed, raised, operation_expired, done, assign, settle,
}
use unifi_network_rules.Queue.Worker.{
  returned, error, handle_error, execute_operation, drop_expired, retry_scan, is_expired, is_ready,
  remove,
}
use unifi_network_rules.Queue.Accounts.{holds, holds-remove_ne}

-- A call that ends while its future is not done, by a result: the future gets it, the counters
-- of the operations that went well and of those that did so after a retry go up, and nothing is
-- queued. By an error: if the error is retryable and fewer than `max_retries` calls have failed,
-- this one included, the operation goes to the end of the retry queue and its future waits on;
-- otherwise the future gets the error, which is counted, and nothing is queued.
pub execute_operation_lem :
    (now value : ℕ) (e : Text) (op : QueuedOperation) (s : Queue)
    → done (s.futures op.future) ≡ false
    → let r = (execute_operation now (returned value) op s).state in
      let x = (execute_operation now (error e) op s).state in
      let again = is_retryable_error e && ltb (op.retry_count + 1) op.max_retries in
      (r.futures op.future ≡ finished value)
      × (r.operations_processed ≡ s.operations_processed + 1)
      × (r.operations_retried ≡ s.operations_retried + (if ltb 0 op.retry_count then 1 else 0))
      × (r.retry_queue ≡ s.retry_queue)
      × (x.retry_queue
          ≡ (if again then s.retry_queue ++ record_attempt now (some e) op ∷ [] else s.retry_queue))
      × (x.futures op.future ≡ (if again then s.futures op.future else failed (raised e)))
      × (x.operations_failed ≡ s.operations_failed + (if again then 0 else 1))
unfolding execute_operation handle_error assign can_retry record_attempt
execute_operation_lem now value e op s waits = (
  ground arith,
  ground arith,
  ground arith,
  ground arith,
  ground arith,
  ground arith,
  ground arith,
)

-- An operation that may be retried at most once is not retried at all: the first error of a new
-- operation with `max_retries` 1 completes its future, retryable or not.
pub execute_operation-one_retry :
    (now created call f value : ℕ) (is_priority : Bool) (e : Text) (s : Queue)
    → done (s.futures f) ≡ false
    → let x =
        (execute_operation now (error e) (new_operation created call f is_priority 1) s).state in
      (x.futures f ≡ failed (raised e)) × (x.retry_queue ≡ s.retry_queue)
unfolding execute_operation handle_error assign can_retry record_attempt new_operation
execute_operation-one_retry now created call f value is_priority e s waits =
    (ground arith, ground arith)

module _ (f : ℕ) where
  drop_expired-done :
      (ops : List QueuedOperation) (s : Queue)
      → done ((drop_expired ops s).futures f) ≡ (done (s.futures f) || holds f ops)
  unfolding drop_expired holds settle
  drop_expired-done [] s = ground arith
  drop_expired-done (op ∷ ops) s = ground (
    arith,
    drop_expired-done ops (record s {
      retry_queue = remove op s.retry_queue;
      futures = settle op.future operation_expired s.futures;
      operations_dropped = s.operations_dropped + 1;
    }),
  )

  drop_expired-holds :
      (ops : List QueuedOperation) (s : Queue)
      → holds f ops ≡ false
      → holds f (drop_expired ops s).retry_queue ≡ holds f s.retry_queue
  unfolding drop_expired holds
  drop_expired-holds [] s h = refl
  drop_expired-holds (op ∷ ops) s h = ground (
    arith,
    holds-remove_ne f op s.retry_queue,
    drop_expired-holds ops (record s {
      retry_queue = remove op s.retry_queue;
      futures = settle op.future operation_expired s.futures;
      operations_dropped = s.operations_dropped + 1;
    }),
  )

drop_expired-dropped :
    (ops : List QueuedOperation) (s : Queue)
    → (drop_expired ops s).operations_dropped ≡ s.operations_dropped + length ops
unfolding drop_expired
drop_expired-dropped [] s = omega arith
drop_expired-dropped (op ∷ ops) s = omega (
  arith,
  drop_expired-dropped ops (record s {
    retry_queue = remove op s.retry_queue;
    futures = settle op.future operation_expired s.futures;
    operations_dropped = s.operations_dropped + 1;
  }),
)

-- A sweep of the retry queue completes exactly the futures of the operations that are too old,
-- counts those operations as dropped, and hands over for a retry those that are due and not too
-- old, in their order.
pub retry_scan_lem :
    (now f : ℕ) (s : Queue)
    → let expired = keep (is_expired now s.operation_timeout) s.retry_queue in
      (done ((retry_scan now s).futures f) ≡ (done (s.futures f) || holds f expired))
      × ((retry_scan now s).operations_dropped ≡ s.operations_dropped + length expired)
      × ((retry_scan now s).ready ≡ keep (is_ready now s.operation_timeout) s.retry_queue)
unfolding retry_scan
retry_scan_lem now f s =
    let expired = keep (is_expired now s.operation_timeout) s.retry_queue in
    (drop_expired-done f expired s, drop_expired-dropped expired s, refl)

-- A sweep keeps in the retry queue every operation that is not too old.
retry_scan-holds :
    (now f : ℕ) (s : Queue)
    → holds f (keep (is_expired now s.operation_timeout) s.retry_queue) ≡ false
    → holds f (retry_scan now s).retry_queue ≡ holds f s.retry_queue
unfolding retry_scan
retry_scan-holds now f s h = drop_expired-holds f _ s h

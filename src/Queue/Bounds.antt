-- ===== src/Queue/Bounds.antt =====
-- The two queues never hold more than their size.
use unifi_network_rules.Prelude.{
  ℕ, ◌+◌, ◌<◌, ◌≤◌, ◌/◌, ◌≡◌, refl, Bool, true, false, if_keeps, keep, none, List, [], ◌∷◌, ◌++◌,
  length, length-append, arith,
}
use unifi_network_rules.Text.{Text}
use unifi_network_rules.Operation.{QueuedOperation}
use unifi_network_rules.Queue.{
  Queue, Futures, init, start, stop, complete_pending_futures_on_shutdown, make_room, add_operation,
}
use unifi_network_rules.Queue.Worker.{
  Outcome, returned, error, handle_error, execute_operation, pick, process_next, regular_arrived,
  process_finish_rule, retry_finish_rule, drop_expired, retry_scan, retry_next, is_expired,
}
use unifi_network_rules.Queue.Runs.{
  Event, started, stopped, run_induction, picked, arrived, timed_out, retry_picked, added, scanned,
  call_ended, retry_ended, future_cancelled, step, run,
}

pub record IsBounded (bound : ℕ) (s : Queue) : Type 0 where
  pub size : s.maxsize ≡ bound
  pub priority : 0 < bound → length s.priority_queue ≤ bound
  pub regular : 0 < bound → length s.regular_queue ≤ bound

make_room-le :
    (maxsize : ℕ) (lane : List QueuedOperation) (futures : Futures)
    → 0 < maxsize
    → length lane ≤ maxsize
    → length (make_room maxsize lane futures).items + 1 ≤ maxsize
unfolding make_room
make_room-le maxsize [] futures h k = ground arith
make_room-le maxsize (op ∷ ops) futures h k = ground arith

length-put :
    (maxsize : ℕ) (lane : List QueuedOperation) (futures : Futures) (op : QueuedOperation)
    → 0 < maxsize
    → length lane ≤ maxsize
    → length ((make_room maxsize lane futures).items ++ op ∷ []) ≤ maxsize
length-put maxsize lane futures op h k = omega (
  arith,
  length-append (make_room maxsize lane futures).items (op ∷ []),
  make_room-le maxsize lane futures h k,
)

module _ {bound : ℕ} {s : Queue} (v : IsBounded bound s) where
  add_operation-IsBounded :
      (now call : ℕ) (is_priority : Bool) (max_retries : ℕ)
      → IsBounded bound (add_operation now call is_priority max_retries s)
  unfolding add_operation
  add_operation-IsBounded now call true max_retries = record {
    size = v.size;
    priority = λ h. rw v.size (length-put bound s.priority_queue _ _ h (v.priority h));
    regular = v.regular;
  }
  add_operation-IsBounded now call false max_retries = record {
    size = v.size;
    priority = v.priority;
    regular = λ h. rw v.size (length-put bound s.regular_queue _ _ h (v.regular h));
  }

  start-IsBounded : IsBounded bound (start s)
  unfolding start
  start-IsBounded = ground arith

  stop-IsBounded : IsBounded bound (stop s)
  unfolding stop complete_pending_futures_on_shutdown
  stop-IsBounded = ground arith

  handle_error-IsBounded :
      (now : ℕ) (e : Text) (op : QueuedOperation) → IsBounded bound (handle_error now e op s).state
  unfolding handle_error
  handle_error-IsBounded now e op = ground arith

  execute_operation-IsBounded :
      (now : ℕ) (o : Outcome) (op : QueuedOperation)
      → IsBounded bound (execute_operation now o op s).state
  unfolding execute_operation
  execute_operation-IsBounded now (returned value) op = grind (arith, handle_error-IsBounded)
  execute_operation-IsBounded now (error e) op = handle_error-IsBounded now e op

  pick-IsBounded : IsBounded bound (process_next s)
  unfolding process_next pick
  pick-IsBounded = ground arith

  regular_arrived-IsBounded : IsBounded bound (regular_arrived s)
  unfolding regular_arrived
  regular_arrived-IsBounded = ground arith

  retry_next-IsBounded : IsBounded bound (retry_next s)
  unfolding retry_next
  retry_next-IsBounded = ground arith

drop_expired-IsBounded :
    (ops : List QueuedOperation) {bound : ℕ} {s : Queue}
    → IsBounded bound s
    → IsBounded bound (drop_expired ops s)
unfolding drop_expired
drop_expired-IsBounded [] v = v
drop_expired-IsBounded (op ∷ ops) v =
    drop_expired-IsBounded ops
      (record { size = v.size; priority = v.priority; regular = v.regular })

step-IsBounded :
    {bound : ℕ} (e : Event) (s : Queue) → IsBounded bound s → IsBounded bound (step e s)
unfolding step retry_scan
step-IsBounded started s v = start-IsBounded v
step-IsBounded stopped s v = stop-IsBounded v
step-IsBounded picked s v = if_keeps (IsBounded _) _ (pick-IsBounded v) v
step-IsBounded arrived s v = if_keeps (IsBounded _) _ (regular_arrived-IsBounded v) v
step-IsBounded timed_out s v = record { size = v.size; priority = v.priority; regular = v.regular }
step-IsBounded retry_picked s v = if_keeps (IsBounded _) _ (retry_next-IsBounded v) v
step-IsBounded (added now call is_priority max_retries) s v =
    add_operation-IsBounded v now call is_priority max_retries
step-IsBounded (scanned now) s v =
    let w = drop_expired-IsBounded (keep (is_expired now s.operation_timeout) s.retry_queue) v in
    if_keeps (IsBounded _) _ (record { size = w.size; priority = w.priority; regular = w.regular })
      v
step-IsBounded (call_ended now o) s v = process_finish_rule (IsBounded _) now o s v (λ op _.
    execute_operation-IsBounded {s = record s { processing = none }}
      (record { size = v.size; priority = v.priority; regular = v.regular }) now o op)
step-IsBounded (retry_ended now o) s v = retry_finish_rule (IsBounded _) now o s v λ op _.
    let w =
      execute_operation-IsBounded {s = record s { retrying = none }}
        (record { size = v.size; priority = v.priority; regular = v.regular }) now o op in
    record { size = w.size; priority = w.priority; regular = w.regular }
step-IsBounded (future_cancelled f) s v =
    if_keeps (IsBounded _) _ v
      (record { size = v.size; priority = v.priority; regular = v.regular })

-- After any events from a new queue with room for at least two operations, neither the priority
-- queue nor the regular queue holds more than half of `max_queue_size`, whatever was added.
pub run-init-le :
    (delay max_queue_size timeout : ℕ) (es : List Event)
    → 1 < max_queue_size
    → (length (run es (init delay max_queue_size timeout)).priority_queue ≤ max_queue_size / 2)
      × (length (run es (init delay max_queue_size timeout)).regular_queue ≤ max_queue_size / 2)
unfolding init
run-init-le delay max_queue_size timeout es h =
    let v =
      run_induction (IsBounded (max_queue_size / 2)) step-IsBounded es
        (init delay max_queue_size timeout)
        (record { size = refl; priority = λ k. omega arith; regular = λ k. omega arith }) in
    (v.priority (omega arith), v.regular (omega arith))

-- ===== src/Queue/Tests.antt =====
-- Runs of the queue, and its theorems at concrete inputs.
use unifi_network_rules.Prelude.{
  ◌+◌, ◌/◌, ◌≤◌, ◌≡◌, refl, true, false, some, List, [], ◌∷◌, ◌++◌, arith, length, keep, any, ◌&&◌,
  ◌||◌, leb, ltb, if◌then◌else◌,
}
use unifi_network_rules.Text.{codes, contains, lower, starts_with}
use unifi_network_rules.Operation.{
  QueuedOperation, new_operation, can_retry, should_retry_now, record_attempt, is_retryable_error,
  retryable_text, age_seconds,
}
use unifi_network_rules.Queue.{
  Queue, finished, failed, raised, done, assign, settle, settle_all, init, start, stop,
  complete_pending_futures_on_shutdown, full, make_room, add_operation,
}
use unifi_network_rules.Queue.Worker.{
  returned, error, handle_error, execute_operation, pick, awaited, process_next, regular_arrived,
  process_finish, remove, is_expired, is_ready, drop_expired, retry_scan, retry_next, retry_finish,
}
use unifi_network_rules.Queue.Runs.{
  Event, started, picked, retry_picked, added, scanned, call_ended, retry_ended, step, run,
}
use unifi_network_rules.Queue.Accounts.{holds, accounted, awaits}
use unifi_network_rules.Queue.Bounds.{run-init-le}
use unifi_network_rules.Queue.Retries.{CanBeRetried, run-init-CanBeRetried}
use unifi_network_rules.Queue.NoLoss.{run-init-accounted, stop-settles, stop-leaves_awaited}
use unifi_network_rules.Queue.Outcomes.{execute_operation_lem, retry_scan_lem}
use unifi_network_rules.Queue.Lanes.{picked_order, add_operation_lem}

program : Unit {0}
unfolding any keep contains lower starts_with new_operation can_retry should_retry_now
    record_attempt is_retryable_error retryable_text age_seconds done assign settle settle_all init
    start stop complete_pending_futures_on_shutdown full make_room add_operation handle_error
    execute_operation pick awaited process_next regular_arrived process_finish remove is_expired
    is_ready drop_expired retry_scan retry_next retry_finish step run holds accounted awaits
program = tt

-- One priority and one regular operation; the first is called.
abbrev two_added : List Event
two_added = started ∷ added 0 7 true 3 ∷ added 0 8 false 3 ∷ picked ∷ []

abbrev new_queue : Queue
new_queue = init 500 10 300000

abbrev busy : Queue
busy = run two_added new_queue

-- The call fails by a timeout, is retried after the backoff, and goes well.
abbrev retried : Queue
retried =
    run
      (call_ended 100 (error (codes "Timeout of the controller"))
        ∷ scanned 2100
        ∷ retry_picked
        ∷ retry_ended 2200 (returned 42)
        ∷ [])
      busy

retried_runs :
    (retried.futures 0 ≡ finished 42)
    × (retried.operations_processed ≡ 1)
    × (retried.operations_retried ≡ 1)
    × (length retried.retry_queue ≡ 0)
unfolding program
retried_runs = (refl, refl, refl, refl)

auth_error_fails :
    (run (call_ended 100 (error (codes "401 Unauthorized: timeout")) ∷ []) busy).futures 0
    ≡ failed (raised (codes "401 Unauthorized: timeout"))
unfolding program
auth_error_fails = refl

run-init-accounted_example : accounted 0 (run two_added (init 500 10 300000)) ≡ true
unfolding program
run-init-accounted_example =
    run-init-accounted 500 10 300000 two_added 0 (tt, (tt, (tt, (tt, tt)))) (omega arith) refl

abbrev first_op : QueuedOperation
first_op = new_operation 0 7 0 true 3

execute_operation_example :
    let r = (execute_operation 5 (returned 9) first_op busy).state in
    let x = (execute_operation 5 (error (codes "connection lost")) first_op busy).state in
    let again =
      is_retryable_error (codes "connection lost")
      && ltb (first_op.retry_count + 1) first_op.max_retries in
    (r.futures first_op.future ≡ finished 9)
    × (r.operations_processed ≡ busy.operations_processed + 1)
    × (r.operations_retried
        ≡ busy.operations_retried + (if ltb 0 first_op.retry_count then 1 else 0))
    × (r.retry_queue ≡ busy.retry_queue)
    × (x.retry_queue ≡ (
        if again
        then busy.retry_queue ++ record_attempt 5 (some (codes "connection lost")) first_op ∷ []
        else busy.retry_queue))
    × (x.futures first_op.future ≡ (
        if again then busy.futures first_op.future else failed (raised (codes "connection lost"))))
    × (x.operations_failed ≡ busy.operations_failed + (if again then 0 else 1))
unfolding program
execute_operation_example = execute_operation_lem 5 9 (codes "connection lost") first_op busy refl

stop-settles_example :
    (done ((stop busy).futures 1) ≡ true)
    × ((stop busy).priority_queue ≡ [])
    × ((stop busy).regular_queue ≡ [])
    × ((stop busy).retry_queue ≡ [])
unfolding program
stop-settles_example = stop-settles busy 1 refl refl

stop-leaves_awaited_example :
    (done ((stop busy).futures 0) ≡ false) × (accounted 0 (stop busy) ≡ false)
unfolding program
stop-leaves_awaited_example = stop-leaves_awaited busy 0 refl refl refl

run-init-le_example :
    (length (run two_added (init 500 10 300000)).priority_queue ≤ 10 / 2)
    × (length (run two_added (init 500 10 300000)).regular_queue ≤ 10 / 2)
run-init-le_example = run-init-le 500 10 300000 two_added (omega arith)

-- The first call fails by a timeout, and its operation waits for a retry.
abbrev one_fails : List Event
one_fails = started ∷ added 0 7 true 3 ∷ picked ∷ call_ended 100 (error (codes "timeout")) ∷ []

one_fails_waits :
    (run one_fails (init 500 10 300000)).retry_queue
    ≡ record_attempt 100 (some (codes "timeout")) (new_operation 0 7 0 true 3) ∷ []
unfolding program
one_fails_waits = refl

run-init-CanBeRetried_example : CanBeRetried (run one_fails (init 500 10 300000))
run-init-CanBeRetried_example = run-init-CanBeRetried 500 10 300000 one_fails

abbrev waiting_both : Queue
waiting_both = run (started ∷ added 0 8 false 3 ∷ added 0 7 true 3 ∷ []) new_queue

picked_order_example :
    ((step picked waiting_both).processing ≡ some (new_operation 0 7 1 true 3))
    × ((step picked waiting_both).priority_queue ++ (step picked waiting_both).regular_queue
        ≡ new_operation 0 8 0 false 3 ∷ [])
unfolding program
picked_order_example =
    picked_order waiting_both (new_operation 0 7 1 true 3) (new_operation 0 8 0 false 3 ∷ []) refl
      refl refl refl refl

-- The processor waits on the regular queue when a priority operation and a regular one come.
abbrev late_priority : Queue
late_priority = run (started ∷ picked ∷ added 0 7 true 3 ∷ added 0 8 false 3 ∷ []) new_queue

-- Two priority operations fill a queue of size two.
abbrev full_queue : Queue
full_queue = run (added 0 7 true 3 ∷ added 0 8 true 3 ∷ []) (init 500 4 300000)

add_operation_example :
    let t = add_operation 1 9 true 3 full_queue in
    let drops = leb full_queue.maxsize (length full_queue.priority_queue) in
    let rest = new_operation 0 8 1 true 3 ∷ [] in
    let old = new_operation 0 7 0 true 3 in
    (t.priority_queue
      ≡ (if drops then rest else old ∷ rest)
        ++ new_operation 1 9 full_queue.next_future true 3 ∷ [])
    × (done (t.futures old.future) ≡ (if drops then true else done (full_queue.futures old.future)))
    × (t.operations_dropped ≡ full_queue.operations_dropped + (if drops then 1 else 0))
    × (t.regular_queue ≡ full_queue.regular_queue)
unfolding program
add_operation_example =
    add_operation_lem 1 9 3 full_queue (new_operation 0 7 0 true 3)
      (new_operation 0 8 1 true 3 ∷ []) refl (omega arith) (omega arith)

-- The first operation has failed once, by a timeout.
abbrev one_waits : Queue
one_waits = run (call_ended 100 (error (codes "timeout")) ∷ []) busy

retry_scan_example :
    let expired = keep (is_expired 400000 one_waits.operation_timeout) one_waits.retry_queue in
    (done ((retry_scan 400000 one_waits).futures 0)
      ≡ (done (one_waits.futures 0) || holds 0 expired))
    × ((retry_scan 400000 one_waits).operations_dropped
        ≡ one_waits.operations_dropped + length expired)
    × ((retry_scan 400000 one_waits).ready
        ≡ keep (is_ready 400000 one_waits.operation_timeout) one_waits.retry_queue)
retry_scan_example = retry_scan_lem 400000 0 one_waits

failed_once : QueuedOperation
failed_once = record_attempt 100 (some (codes "timeout")) first_op

-- ===== src/Queue.antt =====
-- custom_components/unifi_network_rules/queue.py: `ApiOperationQueue` as a state, with the event
-- loop's part of it (the futures, and what the two tasks are waiting for). The atomic sections
-- between two `await`s are functions on the state; Queue/Worker.antt has those of the two tasks and
-- Queue/Runs.antt the runs.
pub mod Worker
pub mod Runs
pub mod Bounds
pub mod Retries
pub mod Accounts
pub mod NoLoss
pub mod Outcomes
pub mod Lanes
mod Tests
use unifi_network_rules.Prelude.{
  ℕ, suc, ◌+◌, ◌/◌, Bool, true, false, ◌&&◌, Option, none, some, List, [], ◌∷◌, ◌++◌, length, any,
  ltb, leb, ◌==◌, if◌then◌else◌,
}
use unifi_network_rules.Text.{Text}
use unifi_network_rules.Operation.{QueuedOperation, new_operation}

-- What a future is failed with: the error of the operation, or a `RuntimeError` of the queue.
pub data Failure : Type 0 where
  raised : Text → Failure
  queue_shutdown queue_overflow operation_expired : Failure

-- `value` names the object that the operation returned.
pub data Future : Type 0 where
  pending : Future
  finished : ℕ → Future
  failed : Failure → Future
  cancelled : Future

unfoldable pub done : Future → Bool
done pending = false
done (finished value) = true
done (failed failure) = true
done cancelled = true

pub data Task : Type 0 where
  absent alive cancelled : Task

-- `waiting` says that `_process_queue` found both queues empty and awaits `regular_queue.get()`.
-- `processing` and `retrying` are the operations whose call the two tasks await, and `ready` is
-- what is left of `ready_for_retry`. `next_future` names the next future to be created.
pub record Queue : Type 0 where
  pub priority_queue : List QueuedOperation
  pub regular_queue : List QueuedOperation
  pub maxsize : ℕ
  pub retry_queue : List QueuedOperation
  pub delay : ℕ
  pub operation_timeout : ℕ
  pub processing_task : Task
  pub retry_task : Task
  pub running : Bool
  pub operations_processed : ℕ
  pub operations_failed : ℕ
  pub operations_retried : ℕ
  pub operations_dropped : ℕ
  pub last_operation_time : ℕ
  pub futures : ℕ → Future
  pub next_future : ℕ
  pub waiting : Bool
  pub processing : Option QueuedOperation
  pub retrying : Option QueuedOperation
  pub ready : List QueuedOperation

unfoldable pub init : ℕ → ℕ → ℕ → Queue
init delay max_queue_size operation_timeout = record {
  priority_queue = [];
  regular_queue = [];
  maxsize = max_queue_size / 2;
  retry_queue = [];
  delay = delay;
  operation_timeout = operation_timeout;
  processing_task = Task.absent;
  retry_task = Task.absent;
  running = false;
  operations_processed = 0;
  operations_failed = 0;
  operations_retried = 0;
  operations_dropped = 0;
  last_operation_time = 0;
  futures = λ f. pending;
  next_future = 0;
  waiting = false;
  processing = none;
  retrying = none;
  ready = [];
}

abbrev pub Futures : Type 0
Futures = ℕ → Future

unfoldable pub assign : ℕ → Future → Futures → Futures
assign f v futures g = if f == g then v else futures g

-- `if not future.done(): future.set_exception(…)`
unfoldable pub settle : ℕ → Failure → Futures → Futures
unfolding done
settle f failure futures g =
    if f == g then (if done (futures g) then futures g else failed failure) else futures g

unfoldable pub start : Queue → Queue
start s =
    if s.running
    then s
    else record s { running = true; processing_task = alive; retry_task = alive }

-- The loops that empty a queue and fail its futures.
unfoldable pub settle_all : Failure → List QueuedOperation → Futures → Futures
settle_all failure [] futures = futures
settle_all failure (op ∷ ops) futures = settle_all failure ops (settle op.future failure futures)

unfoldable pub complete_pending_futures_on_shutdown : Queue → Queue
complete_pending_futures_on_shutdown s = record s {
  futures = settle_all queue_shutdown s.retry_queue (
      settle_all queue_shutdown s.priority_queue
        (settle_all queue_shutdown s.regular_queue s.futures));
  regular_queue = [];
  priority_queue = [];
  retry_queue = [];
}

-- Cancelling a task ends the call that it awaits: `CancelledError` is no `Exception`, so it passes
-- through `_execute_operation`.
unfoldable pub stop : Queue → Queue
stop s =
    if s.running
    then complete_pending_futures_on_shutdown (record s {
      running = false;
      processing_task = Task.cancelled;
      retry_task = Task.cancelled;
      waiting = false;
      processing = none;
      retrying = none;
      ready = [];
    })
    else s

-- `asyncio.Queue.full`: a size of 0 means no bound.
unfoldable pub full : ℕ → List QueuedOperation → Bool
full maxsize lane = ltb 0 maxsize && leb maxsize (length lane)

pub record Lane : Type 0 where
  pub items : List QueuedOperation
  pub settled : Futures
  pub dropped : ℕ

abbrev drop_oldest : List QueuedOperation → Futures → Lane
drop_oldest [] futures = record { items = []; settled = futures; dropped = 0 }
drop_oldest (old ∷ lane) futures = record {
  items = lane;
  settled = settle old.future queue_overflow futures;
  dropped = 1;
}

unfoldable pub make_room : ℕ → List QueuedOperation → Futures → Lane
unfolding full
make_room maxsize lane futures =
    if full maxsize lane
    then drop_oldest lane futures
    else record { items = lane; settled = futures; dropped = 0 }

-- After `make_room` the queue is not full, so `put` neither waits nor raises.
unfoldable pub add_operation : ℕ → ℕ → Bool → ℕ → Queue → Queue
add_operation now call is_priority max_retries s =
    let op = new_operation now call s.next_future is_priority max_retries in
    let futures = assign s.next_future pending s.futures in
    let lane =
      make_room s.maxsize (if is_priority then s.priority_queue else s.regular_queue) futures in
    let items = lane.items ++ op ∷ [] in
    record s {
      priority_queue = if is_priority then items else s.priority_queue;
      regular_queue = if is_priority then s.regular_queue else items;
      operations_dropped = s.operations_dropped + lane.dropped;
      futures = lane.settled;
      next_future = s.next_future + 1;
    }

pub record QueueStats : Type 0 where
  pub operations_processed : ℕ
  pub operations_failed : ℕ
  pub operations_retried : ℕ
  pub operations_dropped : ℕ
  pub priority_queue_size : ℕ
  pub regular_queue_size : ℕ
  pub retry_queue_size : ℕ
  pub last_operation_time : ℕ
  pub running : Bool

unfoldable get_queue_stats : Queue → QueueStats
get_queue_stats s = record {
  operations_processed = s.operations_processed;
  operations_failed = s.operations_failed;
  operations_retried = s.operations_retried;
  operations_dropped = s.operations_dropped;
  priority_queue_size = length s.priority_queue;
  regular_queue_size = length s.regular_queue;
  retry_queue_size = length s.retry_queue;
  last_operation_time = s.last_operation_time;
  running = s.running;
}

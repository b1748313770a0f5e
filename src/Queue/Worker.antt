-- ===== src/Queue/Worker.antt =====
-- custom_components/unifi_network_rules/queue.py: `_process_queue`, `_process_retry_queue` and
-- `_execute_operation`, cut at their `await`s.
use unifi_network_rules.Prelude.{
  ℕ, ◌+◌, ◌/◌, max, Bool, true, false, not, ◌&&◌, Option, none, some, List, [], ◌∷◌, ◌++◌, keep,
  ltb, ◌≡◌, inl, inr, Option-cases, ◌==◌, if◌then◌else◌,
}
use unifi_network_rules.Text.{Text, codes}
use unifi_network_rules.Operation.{
  QueuedOperation, can_retry, should_retry_now, record_attempt, age_seconds, is_retryable_error,
}
use unifi_network_rules.Queue.{
  Queue, finished, failed, raised, operation_expired, Futures, done, assign, settle,
}

-- How the awaited call of an operation ends.
pub data Outcome : Type 0 where
  returned : ℕ → Outcome
  error : Text → Outcome

-- A state, and whether an exception left `_execute_operation`.
pub record Executed : Type 0 where
  pub state : Queue
  pub escaped : Bool

-- `set_result` and `set_exception` raise this on a future that is done.
abbrev pub invalid_state : Text
invalid_state = codes "invalid state"

-- The `except Exception` branch.
unfoldable pub handle_error : ℕ → Text → QueuedOperation → Queue → Executed
handle_error now error_msg op s =
    let op' = record_attempt now (some error_msg) op in
    if is_retryable_error error_msg && can_retry op'
    then record { state = record s { retry_queue = s.retry_queue ++ op' ∷ [] }; escaped = false }
    else if done (s.futures op.future)
    then record { state = s; escaped = true }
    else record {
      state = record s {
        futures = assign op.future (failed (raised error_msg)) s.futures;
        operations_failed = s.operations_failed + 1;
      };
      escaped = false;
    }

-- `_execute_operation` from the end of the awaited call on.
unfoldable pub execute_operation : ℕ → Outcome → QueuedOperation → Queue → Executed
execute_operation now (returned value) op s =
    if done (s.futures op.future) then handle_error now invalid_state op s else record {
      state = record s {
        futures = assign op.future (finished value) s.futures;
        operations_processed = s.operations_processed + 1;
        last_operation_time = now;
        operations_retried =
            if ltb 0 op.retry_count then s.operations_retried + 1 else s.operations_retried;
      };
      escaped = false;
    }
execute_operation now (error message) op s = handle_error now message op s

-- One round of `_process_queue` up to the call: the priority queue first.
pub record Picked : Type 0 where
  pub op : QueuedOperation
  pub priority_left : List QueuedOperation
  pub regular_left : List QueuedOperation
  pub current_delay : ℕ

unfoldable pub pick : ℕ → List QueuedOperation → List QueuedOperation → Option Picked
pick delay (op ∷ ops) regular = some (record {
  op = op;
  priority_left = ops;
  regular_left = regular;
  current_delay = max 200 (delay / 2);
})
pick delay [] (op ∷ ops) =
    some (record { op = op; priority_left = []; regular_left = ops; current_delay = delay })
pick delay [] [] = none

-- `if queued_op.future.done(): return`, else the call begins.
unfoldable pub awaited : Futures → QueuedOperation → Option QueuedOperation
awaited futures op = if done (futures op.future) then none else some op

unfoldable pub process_next : Queue → Queue
process_next s = elim (pick s.delay s.priority_queue s.regular_queue) [
  | none ↦ record s { waiting = true }
  | some p ↦ record s {
    priority_queue = p.priority_left;
    regular_queue = p.regular_left;
    processing = awaited s.futures p.op;
  }
]

-- The end of the wait for `regular_queue.get()`: an operation came, or the second is over.
abbrev pub regular_got : List QueuedOperation → Queue → Queue
regular_got [] s = s
regular_got (op ∷ ops) s = record s {
  regular_queue = ops;
  waiting = false;
  processing = awaited s.futures op;
}

unfoldable pub regular_arrived : Queue → Queue
regular_arrived s = regular_got s.regular_queue s

unfoldable pub process_finish : ℕ → Outcome → Queue → Queue
process_finish now outcome s = elim s.processing [
  | none ↦ s
  | some op ↦ (execute_operation now outcome op (record s { processing = none })).state
]

-- `self.retry_queue.remove(op)`; the object is there, and a miss would raise.
unfoldable pub remove : QueuedOperation → List QueuedOperation → List QueuedOperation
remove op [] = []
remove op (x ∷ xs) = if x.future == op.future then xs else x ∷ remove op xs

abbrev pub backoff_seconds : ℕ
backoff_seconds = 2000

unfoldable pub is_expired : ℕ → ℕ → QueuedOperation → Bool
is_expired now timeout op = ltb timeout (age_seconds now op)

unfoldable pub is_ready : ℕ → ℕ → QueuedOperation → Bool
is_ready now timeout op = not (is_expired now timeout op) && should_retry_now now backoff_seconds op

-- The loop over `expired_operations`.
unfoldable pub drop_expired : List QueuedOperation → Queue → Queue
drop_expired [] s = s
drop_expired (op ∷ ops) s = drop_expired ops (record s {
  retry_queue = remove op s.retry_queue;
  futures = settle op.future operation_expired s.futures;
  operations_dropped = s.operations_dropped + 1;
})

-- One round of `_process_retry_queue` up to its first call.
unfoldable pub retry_scan : ℕ → Queue → Queue
retry_scan now s =
    let ready_for_retry = keep (is_ready now s.operation_timeout) s.retry_queue in
    let swept = drop_expired (keep (is_expired now s.operation_timeout) s.retry_queue) s in
    record swept { ready = ready_for_retry }

abbrev pub retry_first : List QueuedOperation → Queue → Queue
retry_first [] s = s
retry_first (op ∷ ops) s = record s {
  retry_queue = remove op s.retry_queue;
  retrying = awaited s.futures op;
  ready = ops;
}

unfoldable pub retry_next : Queue → Queue
retry_next s = retry_first s.ready s

-- An exception that escapes ends the loop over `ready_for_retry`.
unfoldable pub retry_finish : ℕ → Outcome → Queue → Queue
retry_finish now outcome s = elim s.retrying [
  | none ↦ s
  | some op ↦
      let e = execute_operation now outcome op (record s { retrying = none }) in
      let s' = e.state in record s' { ready = if e.escaped then [] else s'.ready }
]

-- The end of a call, for a property of the state that it leaves.
pub process_finish_rule {ℓ} :
    (P : Queue → Type ℓ) (now : ℕ) (o : Outcome) (s : Queue)
    → P s
    → ((op : QueuedOperation)
        → s.processing ≡ some op
        → P (execute_operation now o op (record s { processing = none })).state)
    → P (process_finish now o s)
unfolding process_finish
process_finish_rule P now o s idle_case busy_case = elim (Option-cases s.processing) [
  | inl e ↦ rw (e, process_finish) idle_case
  | inr (op, e) ↦ rw (e, process_finish) (busy_case op e)
]

abbrev pub after_retry : Executed → Queue
after_retry e = let s = e.state in record s { ready = if e.escaped then [] else s.ready }

pub retry_finish_rule {ℓ} :
    (P : Queue → Type ℓ) (now : ℕ) (o : Outcome) (s : Queue)
    → P s
    → ((op : QueuedOperation)
        → s.retrying ≡ some op
        → P (after_retry (execute_operation now o op (record s { retrying = none }))))
    → P (retry_finish now o s)
unfolding retry_finish
retry_finish_rule P now o s idle_case busy_case = elim (Option-cases s.retrying) [
  | inl e ↦ rw (e, retry_finish) idle_case
  | inr (op, e) ↦ rw (e, retry_finish) (busy_case op e)
]

-- ===== src/Queue/Runs.antt =====
-- custom_components/unifi_network_rules/queue.py: the events that the queue and its two tasks take
-- part in, and the runs of a queue.
use unifi_network_rules.Prelude.{
  ℕ, Bool, true, false, not, ◌&&◌, Option, none, some, List, [], ◌∷◌, if◌then◌else◌,
}
use unifi_network_rules.Operation.{QueuedOperation}
use unifi_network_rules.Queue.{Queue, Future, done, assign, start, stop, add_operation}
use unifi_network_rules.Queue.Worker.{
  Outcome, process_next, regular_arrived, process_finish, retry_scan, retry_next, retry_finish,
}

-- What can happen next: a call of a method, a step of a task, the end of an awaited call, or that
-- whoever holds a future cancels it.
pub data Event : Type 0 where
  started stopped picked arrived timed_out retry_picked : Event
  added : ℕ → ℕ → Bool → ℕ → Event
  scanned : ℕ → Event
  call_ended retry_ended : ℕ → Outcome → Event
  future_cancelled : ℕ → Event

abbrev pub idle : Option QueuedOperation → Bool
idle none = true
idle (some op) = false

abbrev nothing_ready : List QueuedOperation → Bool
nothing_ready [] = true
nothing_ready (op ∷ ops) = false

-- The step of an event; a task does nothing while it awaits a call or is not running.
unfoldable pub step : Event → Queue → Queue
step started s = start s
step stopped s = stop s
step picked s = if s.running && (idle s.processing && not s.waiting) then process_next s else s
step arrived s = if s.waiting then regular_arrived s else s
step timed_out s = record s { waiting = false }
step retry_picked s = if s.running && idle s.retrying then retry_next s else s
step (added now call is_priority max_retries) s = add_operation now call is_priority max_retries s
step (scanned now) s =
    if s.running && (idle s.retrying && nothing_ready s.ready) then retry_scan now s else s
step (call_ended now outcome) s = process_finish now outcome s
step (retry_ended now outcome) s = retry_finish now outcome s
step (future_cancelled f) s =
    if done (s.futures f) then s else record s { futures = assign f Future.cancelled s.futures }

unfoldable pub run : List Event → Queue → Queue
run [] s = s
run (e ∷ es) s = run es (step e s)

-- What every event keeps, every run keeps.
pub run_induction {ℓ} :
    (P : Queue → Type ℓ)
    → ((e : Event) (s : Queue) → P s → P (step e s))
    → (es : List Event) (s : Queue) → P s
    → P (run es s)
unfolding run
run_induction P keeps [] s h = h
run_induction P keeps (e ∷ es) s h = run_induction P keeps es (step e s) (keeps e s h)

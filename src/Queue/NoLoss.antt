-- ===== src/Queue/NoLoss.antt =====
-- Every run accounts for each future that is not done, but for the calls that `stop` cuts off.
use unifi_network_rules.Prelude.{
  ℕ, ◌<◌, ◌≡◌, refl, true, false, none, List, [], ◌∷◌, arith, if_keeps, if_cases, keep, ◌&&◌, ◌||◌,
  not,
}
use unifi_network_rules.Queue.{
  Queue, queue_shutdown, done, assign, settle_all, init, start, stop,
  complete_pending_futures_on_shutdown,
}
use unifi_network_rules.Queue.Worker.{
  Outcome, process_finish, regular_arrived, retry_scan, retry_next, is_expired, process_finish_rule,
  retry_finish_rule,
}
use unifi_network_rules.Queue.Runs.{
  Event, started, stopped, picked, arrived, timed_out, retry_picked, added, scanned, call_ended,
  retry_ended, future_cancelled, idle, step, run,
}
use unifi_network_rules.Queue.Accounts.{
  Tracks, accounted, holds, awaits, add_operation-Tracks, execute_operation-Tracks,
  process_next-Tracks, regular_got-Tracks, retry_first-Tracks, drop_expired-Tracks, settle_all-done,
}

-- `stop` finds no call awaited.
abbrev pub StopsIdle : Event → Queue → Type 0
StopsIdle stopped s = (idle s.processing ≡ true) × (idle s.retrying ≡ true)
StopsIdle _ s = Unit

module _ (f : ℕ) where
  stop-Tracks : (s : Queue) → StopsIdle stopped s → Tracks f s → Tracks f (stop s)
  unfolding stop complete_pending_futures_on_shutdown accounted awaits
  stop-Tracks s i t =
      let a = settle_all queue_shutdown s.regular_queue s.futures in
      let b = settle_all queue_shutdown s.priority_queue a in
      ground (
        arith,
        t.held,
        t.waits,
        i.0,
        i.1,
        settle_all-done f queue_shutdown s.regular_queue s.futures,
        settle_all-done f queue_shutdown s.priority_queue a,
        settle_all-done f queue_shutdown s.retry_queue b,
      )

  start-Tracks : (s : Queue) → Tracks f s → Tracks f (start s)
  unfolding start accounted
  start-Tracks s t = ground (arith, t.held, t.waits)

  cancel-Tracks : (g : ℕ) (s : Queue) → Tracks f s → Tracks f (step (future_cancelled g) s)
  unfolding step accounted assign done
  cancel-Tracks g s t = ground (arith, t.held, t.waits)

  retry_scan-Tracks : (now : ℕ) (s : Queue) → Tracks f s → Tracks f (retry_scan now s)
  unfolding retry_scan accounted
  retry_scan-Tracks now s t =
      let w = drop_expired-Tracks f (keep (is_expired now s.operation_timeout) s.retry_queue) s t in
      record { held = w.held; waits = w.waits }

  finish-Tracks :
      (now : ℕ) (o : Outcome) (s : Queue) → Tracks f s → Tracks f (process_finish now o s)
  unfolding accounted awaits
  finish-Tracks now o s t = process_finish_rule (Tracks f) now o s t λ op e.
      execute_operation-Tracks f now o op (record s { processing = none })
        (λ lt nd. ground (arith, t.held, e)) (λ _. refl)

  retry_finish-Tracks :
      (now : ℕ) (o : Outcome) (s : Queue) → Tracks f s → Tracks f (step (retry_ended now o) s)
  unfolding step accounted awaits
  retry_finish-Tracks now o s t = retry_finish_rule (Tracks f) now o s t λ op e.
      let w =
        execute_operation-Tracks f now o op (record s { retrying = none })
          (λ lt nd. ground (arith, t.held, e)) t.waits in
      record { held = w.held; waits = w.waits }

  arrived-Tracks :
      (s : Queue) → idle s.processing ≡ true → Tracks f s → Tracks f (regular_arrived s)
  unfolding regular_arrived
  arrived-Tracks s i t = regular_got-Tracks f s.regular_queue s refl i t

  retry_next-Tracks : (s : Queue) → idle s.retrying ≡ true → Tracks f s → Tracks f (retry_next s)
  unfolding retry_next
  retry_next-Tracks s i t = retry_first-Tracks f s.ready s i t

  timed_out-Tracks : (s : Queue) → Tracks f s → Tracks f (step timed_out s)
  unfolding step accounted
  timed_out-Tracks s t = record { held = t.held; waits = λ e. cc }

  step-Tracks : (e : Event) (s : Queue) → StopsIdle e s → Tracks f s → Tracks f (step e s)
  unfolding step
  step-Tracks started s i t = start-Tracks s t
  step-Tracks stopped s i t = stop-Tracks s i t
  step-Tracks picked s i t =
      if_cases (Tracks f) (s.running && (idle s.processing && not s.waiting))
        (λ c. process_next-Tracks f s (ground arith) (ground arith) t) (λ _. t)
  step-Tracks arrived s i t =
      if_cases (Tracks f) s.waiting (λ c. arrived-Tracks s (t.waits c) t) (λ _. t)
  step-Tracks timed_out s i t = timed_out-Tracks s t
  step-Tracks retry_picked s i t =
      if_cases (Tracks f) (s.running && idle s.retrying) (λ c. retry_next-Tracks s (ground arith) t)
        (λ _. t)
  step-Tracks (added now call is_priority max_retries) s i t =
      add_operation-Tracks f now call is_priority max_retries s t
  step-Tracks (scanned now) s i t = if_keeps (Tracks f) _ (retry_scan-Tracks now s t) t
  step-Tracks (call_ended now o) s i t = finish-Tracks now o s t
  step-Tracks (retry_ended now o) s i t = retry_finish-Tracks now o s t
  step-Tracks (future_cancelled g) s i t = cancel-Tracks g s t

-- At each `stop` of the run no call is awaited.
abbrev pub NeverCutsOff : List Event → Queue → Type 0
NeverCutsOff [] s = Unit
NeverCutsOff (e ∷ es) s = StopsIdle e s × NeverCutsOff es (step e s)

run-Tracks :
    (f : ℕ) (es : List Event) (s : Queue) → NeverCutsOff es s → Tracks f s → Tracks f (run es s)
unfolding run
run-Tracks f [] s i t = t
run-Tracks f (e ∷ es) s i t = run-Tracks f es (step e s) i.1 (step-Tracks f e s i.0 t)

-- In a run from a new queue in which no `stop` comes while a call is awaited, every future that was
-- handed out and is not done belongs to an operation in the priority, regular or retry queue, or to
-- one whose call is awaited: no caller waits for an operation that is gone.
pub run-init-accounted :
    (delay max_queue_size timeout : ℕ) (es : List Event) (f : ℕ)
    → NeverCutsOff es (init delay max_queue_size timeout)
    → f < (run es (init delay max_queue_size timeout)).next_future
    → done ((run es (init delay max_queue_size timeout)).futures f) ≡ false
    → accounted f (run es (init delay max_queue_size timeout)) ≡ true
run-init-accounted delay max_queue_size timeout es f n lt nd =
    (run-Tracks f es (init delay max_queue_size timeout) n
        (unfold init in record { held = λ l _. absurd (omega arith); waits = λ e. cc })).held
      lt nd

-- When the queue is running, `stop` completes the future of every operation in the three queues, and
-- empties them.
pub stop-settles :
    (s : Queue) (f : ℕ)
    → s.running ≡ true
    → (holds f s.priority_queue || (holds f s.regular_queue || holds f s.retry_queue)) ≡ true
    → (done ((stop s).futures f) ≡ true)
      × ((stop s).priority_queue ≡ [])
      × ((stop s).regular_queue ≡ [])
      × ((stop s).retry_queue ≡ [])
unfolding stop complete_pending_futures_on_shutdown
stop-settles s f r h =
    let a = settle_all queue_shutdown s.regular_queue s.futures in
    let b = settle_all queue_shutdown s.priority_queue a in
    ground (
      arith,
      settle_all-done f queue_shutdown s.regular_queue s.futures,
      settle_all-done f queue_shutdown s.priority_queue a,
      settle_all-done f queue_shutdown s.retry_queue b,
    )

-- When the queue is running, a future that is not done and belongs to no operation of the three
-- queues, such as that of a call that is awaited, is still not done after `stop`, and belongs to no
-- operation that is left.
pub stop-leaves_awaited :
    (s : Queue) (f : ℕ)
    → s.running ≡ true
    → done (s.futures f) ≡ false
    → (holds f s.priority_queue || (holds f s.regular_queue || holds f s.retry_queue)) ≡ false
    → (done ((stop s).futures f) ≡ false) × (accounted f (stop s) ≡ false)
unfolding stop complete_pending_futures_on_shutdown accounted awaits holds
stop-leaves_awaited s f r nd h =
    let a = settle_all queue_shutdown s.regular_queue s.futures in
    let b = settle_all queue_shutdown s.priority_queue a in
    ground (
      arith,
      settle_all-done f queue_shutdown s.regular_queue s.futures,
      settle_all-done f queue_shutdown s.priority_queue a,
      settle_all-done f queue_shutdown s.retry_queue b,
    )

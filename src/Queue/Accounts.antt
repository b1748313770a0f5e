-- ===== src/Queue/Accounts.antt =====
-- No operation is lost: a future that is not done belongs to an operation in one of the queues or
-- to one whose call is awaited.
use unifi_network_rules.Prelude.{
  ℕ, ◌<◌, ◌≡◌, ◌≢◌, Bool, true, false, Option, none, some, List, [], ◌∷◌, ◌++◌, arith, ◌==◌, ◌||◌,
}
use unifi_network_rules.Text.{Text}
use unifi_network_rules.Operation.{QueuedOperation, new_operation, record_attempt}
use unifi_network_rules.Queue.{
  Queue, Futures, Failure, pending, done, assign, settle, settle_all, make_room, add_operation,
}
use unifi_network_rules.Queue.Worker.{
  Outcome, returned, error, handle_error, execute_operation, pick, awaited, process_next,
  drop_expired, retry_first, remove, invalid_state, regular_got,
}
use unifi_network_rules.Queue.Runs.{idle}

unfoldable pub holds : ℕ → List QueuedOperation → Bool
holds f [] = false
holds f (op ∷ ops) = (op.future == f) || holds f ops

unfoldable pub awaits : ℕ → Option QueuedOperation → Bool
awaits f none = false
awaits f (some op) = op.future == f

-- The operation of the future is in one of the three queues, or its call is awaited.
unfoldable pub accounted : ℕ → Queue → Bool
accounted f s =
    holds f s.priority_queue
    || (holds f s.regular_queue
        || (holds f s.retry_queue || (awaits f s.processing || awaits f s.retrying)))

pub record Tracks (f : ℕ) (s : Queue) : Type 0 where
  pub held : f < s.next_future → done (s.futures f) ≡ false → accounted f s ≡ true
  pub waits : s.waiting ≡ true → idle s.processing ≡ true

module _ (f : ℕ) where
  holds-append : (xs ys : List QueuedOperation) → holds f (xs ++ ys) ≡ (holds f xs || holds f ys)
  unfolding holds
  holds-append [] ys = ground arith
  holds-append (x ∷ xs) ys = ground (arith, holds-append xs ys)

  pub holds-remove_ne :
      (op : QueuedOperation) (ops : List QueuedOperation)
      → op.future ≢ f
      → holds f (remove op ops) ≡ holds f ops
  unfolding holds remove
  holds-remove_ne op [] h = ground arith
  holds-remove_ne op (x ∷ xs) h = ground (arith, holds-remove_ne op xs h)

  holds-make_room :
      (maxsize : ℕ) (lane : List QueuedOperation) (futures : Futures)
      → done ((make_room maxsize lane futures).settled f) ≡ false
      → holds f (make_room maxsize lane futures).items ≡ holds f lane
  unfolding make_room settle holds
  holds-make_room maxsize [] futures h = ground arith
  holds-make_room maxsize (op ∷ ops) futures h = ground arith

  settled-make_room :
      (maxsize : ℕ) (lane : List QueuedOperation) (futures : Futures)
      → done ((make_room maxsize lane futures).settled f) ≡ false
      → done (futures f) ≡ false
  unfolding make_room settle
  settled-make_room maxsize [] futures h = ground arith
  settled-make_room maxsize (op ∷ ops) futures h = ground arith

  pub add_operation-Tracks :
      (now call : ℕ) (is_priority : Bool) (max_retries : ℕ) (s : Queue)
      → Tracks f s
      → Tracks f (add_operation now call is_priority max_retries s)
  unfolding add_operation accounted holds new_operation assign
  add_operation-Tracks now call true max_retries s t =
      let futures = assign s.next_future pending s.futures in
      let op = new_operation now call s.next_future true max_retries in
      record {
        held = λ lt nd. ground (
          arith,
          t.held,
          holds-append (make_room s.maxsize s.priority_queue futures).items (op ∷ []),
          holds-make_room s.maxsize s.priority_queue futures nd,
          settled-make_room s.maxsize s.priority_queue futures nd,
        );
        waits = t.waits;
      }
  add_operation-Tracks now call false max_retries s t =
      let futures = assign s.next_future pending s.futures in
      let op = new_operation now call s.next_future false max_retries in
      record {
        held = λ lt nd. ground (
          arith,
          t.held,
          holds-append (make_room s.maxsize s.regular_queue futures).items (op ∷ []),
          holds-make_room s.maxsize s.regular_queue futures nd,
          settled-make_room s.maxsize s.regular_queue futures nd,
        );
        waits = t.waits;
      }

  -- The state without the operation whose call has ended.
  handle_error-Tracks :
      (now : ℕ) (e : Text) (op : QueuedOperation) (s : Queue)
      → (f < s.next_future → done (s.futures f) ≡ false → (op.future == f) || accounted f s ≡ true)
      → (s.waiting ≡ true → idle s.processing ≡ true)
      → Tracks f (handle_error now e op s).state
  unfolding handle_error accounted holds record_attempt assign done
  handle_error-Tracks now e op s h w =
      let op' = record_attempt now (some e) op in
      ground (arith, holds-append s.retry_queue (op' ∷ []))

  pub execute_operation-Tracks :
      (now : ℕ) (o : Outcome) (op : QueuedOperation) (s : Queue)
      → (f < s.next_future → done (s.futures f) ≡ false → (op.future == f) || accounted f s ≡ true)
      → (s.waiting ≡ true → idle s.processing ≡ true)
      → Tracks f (execute_operation now o op s).state
  unfolding execute_operation accounted assign done
  execute_operation-Tracks now (returned value) op s h w =
      ground (arith, handle_error-Tracks now invalid_state op s h w)
  execute_operation-Tracks now (error e) op s h w = handle_error-Tracks now e op s h w

  pub process_next-Tracks :
      (s : Queue)
      → idle s.processing ≡ true
      → s.waiting ≡ false
      → Tracks f s
      → Tracks f (process_next s)
  unfolding process_next pick accounted holds awaited awaits
  process_next-Tracks s i n t = ground (arith, t.held, t.waits)

  pub regular_got-Tracks :
      (ops : List QueuedOperation) (s : Queue)
      → s.regular_queue ≡ ops
      → idle s.processing ≡ true
      → Tracks f s
      → Tracks f (regular_got ops s)
  unfolding accounted holds awaited awaits
  regular_got-Tracks [] s e i t = t
  regular_got-Tracks (op ∷ ops) s e i t = ground (arith, t.held, e)

  pub retry_first-Tracks :
      (ops : List QueuedOperation) (s : Queue)
      → idle s.retrying ≡ true
      → Tracks f s
      → Tracks f (retry_first ops s)
  unfolding accounted awaited awaits
  retry_first-Tracks [] s i t = t
  retry_first-Tracks (op ∷ ops) s i t =
      ground (arith, t.held, t.waits, holds-remove_ne op s.retry_queue)

  pub drop_expired-Tracks :
      (ops : List QueuedOperation) (s : Queue) → Tracks f s → Tracks f (drop_expired ops s)
  unfolding drop_expired
  drop_expired-Tracks [] s t = t
  drop_expired-Tracks (op ∷ ops) s t = drop_expired-Tracks ops _ (
      unfold accounted settle in
      record {
        held = λ lt nd. ground (arith, t.held, holds-remove_ne op s.retry_queue);
        waits = t.waits;
      })

  pub settle_all-done :
      (failure : Failure) (ops : List QueuedOperation) (futures : Futures)
      → done (settle_all failure ops futures f) ≡ (done (futures f) || holds f ops)
  unfolding settle_all settle holds
  settle_all-done failure [] futures = ground arith
  settle_all-done failure (op ∷ ops) futures =
      ground (arith, settle_all-done failure ops (settle op.future failure futures))

-- ===== src/Api/Retry.antt =====
-- The wrapper of `queue_api_operation` as an operation of the queue: a run of it ends for the queue
-- as an operation does, and the queue may run it again.
use unifi_network_rules.Prelude.{
  ℕ, ◌+◌, ◌≤◌, ◌<◌, ◌≡◌, refl, ◌∙◌, true, false, none, some, [], ◌∷◌, ◌++◌, arith, suc, any,
}
use unifi_network_rules.Text.{Text, contains, lower}
use unifi_network_rules.Auth.{check_auth_error}
use unifi_network_rules.Operation.{
  QueuedOperation, record_attempt, can_retry, is_retryable_error, retryable_text,
}
use unifi_network_rules.Queue.{Queue, failed, raised, done, assign}
use unifi_network_rules.Queue.Worker.{
  Outcome, returned, error, invalid_state, execute_operation, handle_error,
}
use unifi_network_rules.Api.Wrapper
use unifi_network_rules.Api.Wrapper.{
  CallEnd, Script, Caller, is_done, is_path_error, wrapper_operation, first_failed, recover,
  complete,
}
use unifi_network_rules.Api.Caller.{wrapper_operation_lem}

-- The end of a run as the end of the call of a queued operation.
abbrev pub outcome_of : CallEnd → Outcome
outcome_of (Wrapper.returned none) = returned 0
outcome_of (Wrapper.returned (some value)) = returned (suc value)
outcome_of (Wrapper.raised message) = error message

-- One call of the wrapper by the queue, with what the queue does at its end.
unfoldable pub attempt : ℕ → Script → QueuedOperation → Queue × Caller → Queue × Caller
unfolding wrapper_operation execute_operation
attempt now s op (q, c) =
    let (c', end) = wrapper_operation s c in
    ((execute_operation now (outcome_of end) op q).state, c')

retryable-plain :
    (message : Text)
    → is_retryable_error message ≡ true
    → (check_auth_error message ≡ false) × (is_path_error message ≡ false)
unfolding is_retryable_error retryable_text check_auth_error any
retryable-plain message h = (ground (arith, h), ground (arith, h))

module _ (s : Script) (message : Text) (c : Caller) where
  pub first_error-plain :
      s.first ≡ Wrapper.raised message
      → is_done c.future ≡ false
      → check_auth_error message ≡ false
      → is_path_error message ≡ false
      → wrapper_operation s c ≡ (
        record c { calls = c.calls + 1; future = Wrapper.failed message },
        Wrapper.raised message,
      )
  unfolding wrapper_operation first_failed recover complete
  first_error-plain first waits plain found = rw (first, waits, plain, found) refl

-- A run whose future is done.
finished_run :
    (s : Script) (c : Caller)
    → is_done c.future ≡ true
    → let r = wrapper_operation s c in
      (r.0.future ≡ c.future) × (r.1 ≡ Wrapper.raised invalid_state) × (c.calls + 1 ≤ r.0.calls)
finished_run s c h = let l = wrapper_operation_lem s c in (l.2 ∙ rw h refl, l.3 ∙ rw h refl, l.0)

again_refused :
    (now : ℕ) (op : QueuedOperation) (q : Queue)
    → done (q.futures op.future) ≡ false
    → (execute_operation now (error invalid_state) op q).state.futures op.future
      ≡ failed (raised invalid_state)
unfolding execute_operation handle_error is_retryable_error retryable_text any assign lower contains
again_refused now op q waits = ground arith

queued_again :
    (now : ℕ) (message : Text) (op : QueuedOperation) (q : Queue)
    → is_retryable_error message ≡ true
    → op.retry_count + 1 < op.max_retries
    → (execute_operation now (error message) op q).state
      ≡ record q { retry_queue = q.retry_queue ++ record_attempt now (some message) op ∷ [] }
unfolding execute_operation handle_error can_retry record_attempt
queued_again now message op q again left = ground arith

-- What the first error of a call leads to, if the queue retries it: the future that the caller
-- holds gets the error at once, although the operation goes to the retry queue; the next run calls
-- the operation again, whatever it does, but cannot tell the caller: the future keeps the first
-- error, and the queue fails the operation with the error for a future that is done.
pub attempt-retryable :
    (now later : ℕ) (message : Text) (s t : Script) (op : QueuedOperation) (q : Queue) (c : Caller)
    → is_done c.future ≡ false
    → done (q.futures op.future) ≡ false
    → s.first ≡ Wrapper.raised message
    → is_retryable_error message ≡ true
    → op.retry_count + 1 < op.max_retries
    → let op' = record_attempt now (some message) op in
      let x = attempt now s op (q, c) in
      let y = attempt later t op' x in
      (x.1.future ≡ Wrapper.failed message)
      × (x.0.retry_queue ≡ q.retry_queue ++ op' ∷ [])
      × (done (x.0.futures op.future) ≡ false)
      × (x.1.calls + 1 ≤ y.1.calls)
      × (y.1.future ≡ Wrapper.failed message)
      × (y.0.futures op.future ≡ failed (raised invalid_state))
unfolding attempt record_attempt
attempt-retryable now later message s t op q c waits waits' first again left =
    let plain = retryable-plain message again in
    let e = first_error-plain s message c first waits plain.0 plain.1 in
    let x' = record c { calls = c.calls + 1; future = Wrapper.failed message } in
    let f = finished_run t x' refl in
    let q' = record q {
      retry_queue = q.retry_queue ++ record_attempt now (some message) op ∷ [];
    } in
    rw (e, queued_again now message op q again left)
      (
        refl,
        refl,
        waits',
        f.2,
        f.0,
        rw f.1 (again_refused later (record_attempt now (some message) op) q' waits'),
      )

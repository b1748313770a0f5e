-- ===== src/Operation.antt =====
-- custom_components/unifi_network_rules/queue.py: `QueuedOperation`, the operation that the queue
-- carries, and `_is_retryable_error`. Times are in milliseconds; `time.time()` is an argument.
pub mod Retry
use unifi_network_rules.Prelude.{
  ℕ, ◌+◌, ◌-◌, ◌*◌, ◌^◌, Bool, true, false, not, ◌||◌, Option, none, some, List, [], ◌∷◌, ◌++◌, any,
  ltb, leb, ◌==◌, if◌then◌else◌,
}
use unifi_network_rules.Text.{Text, codes, contains, lower}

-- `call` names the function with its arguments, which the queue never looks into. `future` names
-- the future that the operation completes; each operation has its own, so it also serves as the
-- identity of the object.
pub record QueuedOperation : Type 0 where
  pub call : ℕ
  pub future : ℕ
  pub is_priority : Bool
  pub max_retries : ℕ
  pub retry_count : ℕ
  pub created_time : ℕ
  pub last_attempt_time : ℕ
  pub error_history : List (ℕ × Text)

unfoldable pub new_operation : ℕ → ℕ → ℕ → Bool → ℕ → QueuedOperation
new_operation now call future is_priority max_retries = record {
  call = call;
  future = future;
  is_priority = is_priority;
  max_retries = max_retries;
  retry_count = 0;
  created_time = now;
  last_attempt_time = 0;
  error_history = [];
}

unfoldable pub can_retry : QueuedOperation → Bool
can_retry op = ltb op.retry_count op.max_retries

abbrev pub backoff_time : ℕ → QueuedOperation → ℕ
backoff_time backoff op = backoff * 2 ^ (op.retry_count - 1)

-- `now - last >= backoff_time`, over the integers.
unfoldable pub should_retry_now : ℕ → ℕ → QueuedOperation → Bool
unfolding can_retry
should_retry_now now backoff op =
    if not (can_retry op)
    then false
    else if op.retry_count == 0
    then true
    else leb (op.last_attempt_time + backoff_time backoff op) now

-- `if error:` is false of the empty text as well as of `None`.
abbrev history_entry : ℕ → Option Text → List (ℕ × Text)
history_entry attempt none = []
history_entry attempt (some []) = []
history_entry attempt (some (c ∷ s)) = (attempt, c ∷ s) ∷ []

unfoldable pub record_attempt : ℕ → Option Text → QueuedOperation → QueuedOperation
record_attempt now error op = record op {
  retry_count = op.retry_count + 1;
  last_attempt_time = now;
  error_history = op.error_history ++ history_entry (op.retry_count + 1) error;
}

unfoldable pub age_seconds : ℕ → QueuedOperation → ℕ
age_seconds now op = now - op.created_time

abbrev pub retryable_patterns : List Text
retryable_patterns =
    codes "timeout"
    ∷ codes "connection"
    ∷ codes "network"
    ∷ codes "500 internal server error"
    ∷ codes "502 bad gateway"
    ∷ codes "503 service unavailable"
    ∷ codes "504 gateway timeout"
    ∷ codes "429 too many requests"
    ∷ []

-- The pattern test on the lower-cased text of an error.
unfoldable pub retryable_text : Text → Bool
unfolding contains any
retryable_text error_str =
    if contains (codes "401 unauthorized") error_str || contains (codes "403 forbidden") error_str
    then false
    else if contains (codes "400 bad request") error_str
        || contains (codes "404 not found") error_str
    then false
    else any (λ pattern_. contains pattern_ error_str) retryable_patterns

unfoldable pub is_retryable_error : Text → Bool
unfolding retryable_text lower
is_retryable_error error = retryable_text (lower error)

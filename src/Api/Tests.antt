-- ===== src/Api/Tests.antt =====
-- The recovery and the wrapper of `UDMAPI` at concrete inputs.
use unifi_network_rules.Prelude.{◌+◌, ◌≤◌, ◌≡◌, refl, true, false, none, some, [], ◌∷◌, any, arith}
use unifi_network_rules.Text.{codes, contains, lower, starts_with, sub_from, replace}
use unifi_network_rules.Auth.{RefreshEnd, check_auth_error}
use unifi_network_rules.Auth
use unifi_network_rules.Operation.{
  QueuedOperation, new_operation, record_attempt, is_retryable_error, retryable_text,
}
use unifi_network_rules.Queue
use unifi_network_rules.Queue.{Queue}
use unifi_network_rules.Session.{lstrip_slash}
use unifi_network_rules.Api.{
  Api, init, auth_backoff_time, begin_auth_failure, end_auth_failure, handle_auth_failure,
  toggled_path,
}
use unifi_network_rules.Api.Wrapper
use unifi_network_rules.Api.Wrapper.{
  CallEnd, Script, Caller, pending, handle_path_error, wrapper_operation, first_failed, recover,
  retry_failed, complete,
}
use unifi_network_rules.Api.Caller.{wrapper_operation_lem}
use unifi_network_rules.Api.Retry.{attempt, attempt-retryable}

program : Unit {0}
unfolding starts_with contains lower lstrip_slash any retryable_text is_retryable_error
    new_operation record_attempt sub_from replace init auth_backoff_time begin_auth_failure
    end_auth_failure handle_auth_failure toggled_path check_auth_error handle_path_error
    wrapper_operation first_failed recover retry_failed complete
program = tt

abbrev new_api : Api
new_api = record {
  recovery_in_progress = false;
  last_error_message = none;
  consecutive_auth_failures = 0;
  max_auth_failures = 5;
  rate_limited = false;
  rate_limit_until = 0;
  has_callback = true;
  callbacks = 0;
  base_path = some (codes "/proxy/network/api");
}

without_prefix : toggled_path (codes "/proxy/network/api") ≡ codes "/api"
unfolding program
without_prefix = refl

with_prefix : toggled_path (codes "/api") ≡ codes "/proxy/network/api"
unfolding program
with_prefix = refl

-- Every call ends by an error for the path, but the last one.
abbrev lost_path : Script
lost_path = record {
  first = Wrapper.raised (codes "401 Unauthorized");
  other_path = Wrapper.returned (some 1);
  again = Wrapper.raised (codes "404 Not Found");
  again_other_path = Wrapper.returned (some 7);
  now = 100;
  refresh = Auth.returned true;
  callback_raises = false;
}

abbrev new_caller : Caller
new_caller = record { api = new_api; future = pending; calls = 0 }

recovered : (wrapper_operation lost_path new_caller).1 ≡ Wrapper.returned (some 7)
unfolding program
recovered = refl

three_calls : (wrapper_operation lost_path new_caller).0.calls ≡ 3
unfolding program
three_calls = refl

abbrev many_failures : Api
many_failures = record new_api { consecutive_auth_failures = 11 }

limited_for :
    (handle_auth_failure 100 none Auth.raised false many_failures).0.rate_limit_until ≡ 130
unfolding program
limited_for = refl

abbrev busy_api : Api
busy_api = record new_api { recovery_in_progress = true }

wrapper_operation_lem_example :
    (1 ≤ 3)
    × (3 ≤ 4)
    × ((wrapper_operation lost_path new_caller).0.future ≡ Wrapper.result (some 7))
    × ((wrapper_operation lost_path new_caller).1 ≡ Wrapper.returned (some 7))
unfolding program
wrapper_operation_lem_example = wrapper_operation_lem lost_path new_caller

abbrev lost_connection : Script
lost_connection = record lost_path { first = Wrapper.raised (codes "Connection lost") }

abbrev first_op : QueuedOperation
first_op = new_operation 0 7 0 true 3

abbrev new_queue : Queue
new_queue = Queue.init 500 10 300000

-- The second run of the wrapper succeeds.
abbrev works_again : Script
works_again = record lost_path { first = Wrapper.returned (some 1) }

attempt-retryable_example :
    let op' = record_attempt 5 (some (codes "Connection lost")) first_op in
    let x = attempt 5 lost_connection first_op (new_queue, new_caller) in
    let y = attempt 9 works_again op' x in
    (x.1.future ≡ Wrapper.failed (codes "Connection lost"))
    × (x.0.retry_queue ≡ op' ∷ [])
    × (Queue.done (x.0.futures 0) ≡ false)
    × (x.1.calls + 1 ≤ y.1.calls)
    × (y.1.future ≡ Wrapper.failed (codes "Connection lost"))
    × (y.0.futures 0 ≡ Queue.failed (Queue.raised (codes "invalid state")))
unfolding program Queue.init Queue.done
attempt-retryable_example =
    attempt-retryable 5 9 (codes "Connection lost") lost_connection works_again first_op new_queue
      new_caller refl refl refl refl (omega arith)

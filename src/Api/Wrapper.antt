-- ===== src/Api/Wrapper.antt =====
-- custom_components/unifi_network_rules/udm/api.py: `_handle_path_error` and the wrapper of
-- `queue_api_operation`. How the calls of the operation end is given by arguments; they change
-- nothing here. `none` is the result `None`.
use unifi_network_rules.Prelude.{ℕ, ◌+◌, Bool, true, false, Option, none, some, if◌then◌else◌}
use unifi_network_rules.Text.{Text, codes, contains, lower}
use unifi_network_rules.Auth.{RefreshEnd, check_auth_error}
use unifi_network_rules.Queue.Worker.{invalid_state}
use unifi_network_rules.Api.{Api, handle_auth_failure, toggled_path}

-- How a call ends.
pub data CallEnd : Type 0 where
  returned : Option ℕ → CallEnd
  raised : Text → CallEnd

-- The future that `queue_api_operation` returned.
pub data Future : Type 0 where
  pending : Future
  result : Option ℕ → Future
  failed : Text → Future

abbrev pub is_done : Future → Bool
is_done pending = false
is_done _ = true

-- How the calls of one run of the wrapper end: the first one, the one with the other path, the one
-- after a recovery, and that with the other path after it; then the time of an authentication
-- failure, and how the refresh and the callback would end.
pub record Script : Type 0 where
  pub first : CallEnd
  pub other_path : CallEnd
  pub again : CallEnd
  pub again_other_path : CallEnd
  pub now : ℕ
  pub refresh : RefreshEnd
  pub callback_raises : Bool

-- `calls` counts the calls of the operation.
pub record Caller : Type 0 where
  pub api : Api
  pub future : Future
  pub calls : ℕ

abbrev pub is_path_error : Text → Bool
is_path_error error = contains (codes "404 not found") (lower error)

abbrev pub after_path : Text → CallEnd → Api → Api × Option ℕ
after_path path (returned value) a = (record a { base_path = some (toggled_path path) }, value)
after_path path (raised error) a = (record a { base_path = some path }, none)

abbrev pub at_path : CallEnd → Option Text → Caller → Caller × Option ℕ
at_path call none c = (c, none)
at_path call (some path) c =
    let r = after_path path call c.api in (record c { api = r.0; calls = c.calls + 1 }, r.1)

unfoldable pub handle_path_error : CallEnd → Caller → Caller × Option ℕ
unfolding toggled_path
handle_path_error call c = at_path call c.api.base_path c

-- `future.set_result` or `future.set_exception`, and the end that follows it.
unfoldable pub complete : Future → CallEnd → Caller → Caller × CallEnd
complete future end c =
    if is_done c.future then (c, raised invalid_state) else (record c { future = future }, end)

abbrev pub fail : Text → Caller → Caller × CallEnd
fail error c = complete (failed error) (raised error) c

abbrev pub succeed : Option ℕ → Caller → Caller × CallEnd
succeed value c = complete (result value) (returned value) c

-- A result of the other path is used if it is not `None`.
abbrev pub or_succeed : (Caller → Caller × CallEnd) → Caller × Option ℕ → Caller × CallEnd
or_succeed otherwise (c, none) = otherwise c
or_succeed otherwise (c, some value) = succeed (some value) c

-- The handler of an error in the call after a recovery.
unfoldable pub retry_failed : Script → Text → Caller → Caller × CallEnd
unfolding handle_path_error complete
retry_failed s error c =
    if is_path_error error
    then or_succeed (fail error) (handle_path_error s.again_other_path c)
    else fail error c

-- What raises inside the `try` goes to its handler, and so does the error of a future that is done.
abbrev pub tried : (Text → Caller → Caller × CallEnd) → CallEnd → Caller → Caller × CallEnd
tried handler (returned value) c =
    if is_done c.future then handler invalid_state c else succeed value c
tried handler (raised error) c = handler error c

abbrev pub after_recovery : Script → Text → Api × Bool → Caller → Caller × CallEnd
after_recovery s error (a, true) c =
    tried (retry_failed s) s.again (record c { api = a; calls = c.calls + 1 })
after_recovery s error (a, false) c = fail error (record c { api = a })

-- The test for an authentication error.
unfoldable pub recover : Script → Text → Caller → Caller × CallEnd
unfolding complete check_auth_error
recover s error c =
    if check_auth_error error
    then after_recovery s error
        (handle_auth_failure s.now (some error) s.refresh s.callback_raises c.api) c
    else fail error c

-- The handler of an error in the first call.
unfoldable pub first_failed : Script → Text → Caller → Caller × CallEnd
unfolding handle_path_error recover complete
first_failed s error c =
    if is_path_error error
    then or_succeed (recover s error) (handle_path_error s.other_path c)
    else recover s error c

unfoldable pub wrapper_operation : Script → Caller → Caller × CallEnd
unfolding first_failed complete
wrapper_operation s c = tried (first_failed s) s.first (record c { calls = c.calls + 1 })

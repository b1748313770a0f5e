-- ===== src/Api/Caller.antt =====
-- udm/api.py: what the caller of `queue_api_operation` is told, and how often the operation is
-- called.
use unifi_network_rules.Prelude.{
  ℕ, ◌+◌, ◌≤◌, ◌≡◌, refl, Bool, true, false, Option, none, some, arith, if◌then◌else◌, Bool-cases,
  inl, inr,
}
use unifi_network_rules.Text.{Text}
use unifi_network_rules.Auth.{check_auth_error}
use unifi_network_rules.Queue.Worker.{invalid_state}
use unifi_network_rules.Api.{Api, handle_auth_failure}
use unifi_network_rules.Api.Wrapper.{
  at_path, CallEnd, returned, raised, Future, result, failed, is_done, Script, Caller,
  is_path_error, handle_path_error, complete, fail, succeed, or_succeed, retry_failed, tried,
  after_recovery, recover, first_failed, wrapper_operation,
}

abbrev pub of_end : CallEnd → Future
of_end (returned value) = result value
of_end (raised error) = failed error

-- A future that is done stays, and the end is an error; a future that is not gets the end.
record Settles (n : ℕ) (c : Caller) (r : Caller × CallEnd) : Type 0 where
  future : r.0.future ≡ (if is_done c.future then c.future else of_end r.1)
  ends : is_done c.future ≡ true → r.1 ≡ raised invalid_state
  least : c.calls ≤ r.0.calls
  most : r.0.calls ≤ c.calls + n

complete-Settles : (end : CallEnd) (c : Caller) → Settles 0 c (complete (of_end end) end c)
unfolding complete
complete-Settles end c = record {
  future = ground arith;
  ends = λ h. ground (arith, h);
  least = ground arith;
  most = ground arith;
}

-- More calls before, with the future as it was.
Settles-after :
    (m n : ℕ) (c d : Caller) (r : Caller × CallEnd)
    → d.future ≡ c.future
    → c.calls ≤ d.calls
    → d.calls ≤ c.calls + m
    → Settles n d r
    → Settles (m + n) c r
Settles-after m n c d r same least most h = record {
  future = ground (arith, h.future, same);
  ends = λ e. h.ends (ground (arith, same, e));
  least = omega (arith, h.least, least);
  most = omega (arith, h.most, most);
}

Settles-le : (m n : ℕ) (c : Caller) (r : Caller × CallEnd) → Settles m c r → m ≤ n → Settles n c r
Settles-le m n c r h le = record {
  future = h.future;
  ends = h.ends;
  least = h.least;
  most = omega (arith, h.most, le);
}

module _ (n : ℕ) where
  fail-Settles : (error : Text) (c : Caller) → Settles n c (fail error c)
  fail-Settles error c =
      Settles-le 0 n c (fail error c) (complete-Settles (raised error) c) (omega arith)

  succeed-Settles : (value : Option ℕ) (c : Caller) → Settles n c (succeed value c)
  succeed-Settles value c =
      Settles-le 0 n c (succeed value c) (complete-Settles (returned value) c) (omega arith)

  tried-Settles :
      (handler : Text → Caller → Caller × CallEnd) (end : CallEnd) (c : Caller)
      → ((error : Text) → Settles n c (handler error c))
      → Settles n c (tried handler end c)
  tried-Settles handler (raised error) c h = h error
  tried-Settles handler (returned value) c h = elim (Bool-cases (is_done c.future)) [
    | inl e ↦ rw e (h invalid_state)
    | inr e ↦ rw e (succeed-Settles value c)
  ]

  or_succeed-Settles :
      (otherwise : Caller → Caller × CallEnd) (r : Caller × Option ℕ)
      → Settles n r.0 (otherwise r.0)
      → Settles n r.0 (or_succeed otherwise r)
  or_succeed-Settles otherwise (c, none) h = h
  or_succeed-Settles otherwise (c, some value) h = succeed-Settles (some value) c

-- The other path is tried by one call at most, and leaves the future.
record Tries (c d : Caller) : Type 0 where
  future : d.future ≡ c.future
  least : c.calls ≤ d.calls
  most : d.calls ≤ c.calls + 1

at_path-Tries : (call : CallEnd) (path : Option Text) (c : Caller) → Tries c (at_path call path c).0
at_path-Tries call none c = record { future = refl; least = omega arith; most = omega arith }
at_path-Tries call (some path) c = record { future = refl; least = omega arith; most = omega arith }

handle_path_error-Tries : (call : CallEnd) (c : Caller) → Tries c (handle_path_error call c).0
unfolding handle_path_error
handle_path_error-Tries call c = at_path-Tries call c.api.base_path c

-- An error of which the code looks whether another path helps.
with_path-Settles :
    (n : ℕ) (call : CallEnd) (not_found : Bool) (otherwise : Caller → Caller × CallEnd) (c : Caller)
    → ((d : Caller) → Settles n d (otherwise d))
    → Settles
        (1 + n)
        c
        (if not_found then or_succeed otherwise (handle_path_error call c) else otherwise c)
with_path-Settles n call true otherwise c h =
    let r = handle_path_error call c in
    let t = handle_path_error-Tries call c in
    Settles-after 1 n c r.0 (or_succeed otherwise r) t.future t.least t.most
      (or_succeed-Settles n otherwise r (h r.0))
with_path-Settles n call false otherwise c h =
    Settles-le n (1 + n) c (otherwise c) (h c) (omega arith)

retry_failed-Settles :
    (s : Script) (error : Text) (c : Caller) → Settles 1 c (retry_failed s error c)
unfolding retry_failed
retry_failed-Settles s error c =
    with_path-Settles 0 s.again_other_path (is_path_error error) (fail error) c
      (fail-Settles 0 error)

after_recovery-Settles :
    (s : Script) (error : Text) (r : Api × Bool) (c : Caller)
    → Settles 2 c (after_recovery s error r c)
after_recovery-Settles s error (a, true) c =
    let d = record c { api = a; calls = c.calls + 1 } in
    Settles-after 1 1 c d (tried (retry_failed s) s.again d) refl (omega arith) (omega arith)
      (tried-Settles 1 (retry_failed s) s.again d (λ e. retry_failed-Settles s e d))
after_recovery-Settles s error (a, false) c =
    let d = record c { api = a } in
    Settles-after 0 2 c d (fail error d) refl (omega arith) (omega arith) (fail-Settles 2 error d)

recover-Settles : (s : Script) (error : Text) (c : Caller) → Settles 2 c (recover s error c)
unfolding recover
recover-Settles s error c = elim (Bool-cases (check_auth_error error)) [
  | inl e ↦ rw e (
      after_recovery-Settles s error
        (handle_auth_failure s.now (some error) s.refresh s.callback_raises c.api) c)
  | inr e ↦ rw e (fail-Settles 2 error c)
]

first_failed-Settles :
    (s : Script) (error : Text) (c : Caller) → Settles 3 c (first_failed s error c)
unfolding first_failed
first_failed-Settles s error c =
    with_path-Settles 2 s.other_path (is_path_error error) (recover s error) c
      (recover-Settles s error)

wrapper_operation-Settles :
    (s : Script) (c : Caller) → Settles 3 (record c { calls = c.calls + 1 }) (wrapper_operation s c)
unfolding wrapper_operation
wrapper_operation-Settles s c =
    let d = record c { calls = c.calls + 1 } in
    tried-Settles 3 (first_failed s) s.first d (λ e. first_failed-Settles s e d)

-- A run of the wrapper calls the operation at least once and at most four times. A future that is
-- pending gets exactly the end of the run: the result that it returns or the error that it raises.
-- A future that is done stays as it is, and the run raises the error for its state.
pub wrapper_operation_lem :
    (s : Script) (c : Caller)
    → let r = wrapper_operation s c in
      (c.calls + 1 ≤ r.0.calls)
      × (r.0.calls ≤ c.calls + 4)
      × (r.0.future ≡ (if is_done c.future then c.future else of_end r.1))
      × (r.1 ≡ (if is_done c.future then raised invalid_state else r.1))
wrapper_operation_lem s c =
    let h = wrapper_operation-Settles s c in
    (
      h.least,
      omega (arith, h.most),
      h.future,
      elim (Bool-cases (is_done c.future)) [ inl e ↦ rw e (h.ends e) | inr e ↦ rw e refl ],
    )

-- ===== src/Services/Toggle.antt =====
-- services/rule_services.py with udm/api.py: what becomes of the call that async_toggle_rule queues.
use text.Mathlib.Text.{◌==◌}
use unifi_network_rules.Prelude.{
  ℕ, String, ◌≡◌, refl, ap, subst, ◌∙◌, Bool, false, Option, none, some, List, [], ◌∷◌, arith,
  length, Bool-cases, inl, inr, if◌then◌else◌,
}
use unifi_network_rules.Text.{contains, lower, starts_with}
use unifi_network_rules.Auth.{check_auth_error}
use unifi_network_rules.Api.Wrapper
use unifi_network_rules.Api.Wrapper.{
  CallEnd, Script, Caller, is_done, is_path_error, wrapper_operation,
}
use unifi_network_rules.Api.Retry.{first_error-plain}
use unifi_network_rules.Services.{
  Method, toggle, QueuedCall, is_toggle, Lookup, raises, absent, found, method_of, plain_call,
  toggle_rule, toggle_found, or_call, toggle_any, types_for, toggle_first, ToggleEnd,
  no_coordinators, toggle_failed, toggled, toggle_end, async_toggle_rule, missing_arguments,
  toggle_methods, call_end,
}

-- A method that sets a state is queued without one.
abbrev pub NoState : QueuedCall → Type 0
NoState call = (if is_toggle call.method then call.state else none) ≡ none

abbrev pub AllNoState : Option QueuedCall → Type 0
AllNoState none = Unit
AllNoState (some call) = NoState call

plain_call-NoState : (rule : ℕ) (o : Option Method) → AllNoState (plain_call rule o)
plain_call-NoState rule none = tt
plain_call-NoState rule (some method) = ground arith

pub toggle_rule-NoState :
    (enabled : Bool) (t : String) (rule : ℕ) → AllNoState (toggle_rule enabled t rule)
unfolding toggle_rule
toggle_rule-NoState enabled t rule = elim (Bool-cases (t == "networks")) [
  | inl e ↦ rw (toggle_rule, e) refl
  | inr e ↦ elim (Bool-cases (t == "devices")) [
    | inl d ↦ rw (toggle_rule, e, d) refl
    | inr d ↦ rw (toggle_rule, e, d) (plain_call-NoState rule (method_of t toggle_methods))
  ]
]

toggle_found-NoState :
    (enabled : Bool) (t : String) (l : Lookup) → AllNoState (toggle_found enabled t l)
toggle_found-NoState enabled t raises = tt
toggle_found-NoState enabled t absent = tt
toggle_found-NoState enabled t (found rule) = toggle_rule-NoState enabled t rule

or_call-NoState : (a b : Option QueuedCall) → AllNoState a → AllNoState b → AllNoState (or_call a b)
or_call-NoState none b h k = k
or_call-NoState (some a) b h k = h

toggle_any-NoState :
    (enabled : Bool) (ts : List String) (look : String → Lookup)
    → AllNoState (toggle_any enabled ts look)
unfolding toggle_any
toggle_any-NoState enabled [] look = tt
toggle_any-NoState enabled (t ∷ ts) look =
    or_call-NoState (toggle_found enabled t (look t)) (toggle_any enabled ts look)
      (toggle_found-NoState enabled t (look t)) (toggle_any-NoState enabled ts look)

toggle_first-NoState :
    (enabled : Bool) (t : Option String) (cs : List (String → Lookup))
    → AllNoState (toggle_first enabled t cs)
unfolding toggle_first
toggle_first-NoState enabled t [] = tt
toggle_first-NoState enabled t (look ∷ cs) =
    or_call-NoState (toggle_any enabled (types_for t) look) (toggle_first enabled t cs)
      (toggle_any-NoState enabled (types_for t) look) (toggle_first-NoState enabled t cs)

-- What is asked of the call of a service that answers with success.
abbrev EndNoState : ToggleEnd → Type 0
EndNoState no_coordinators = Unit
EndNoState toggle_failed = Unit
EndNoState (toggled call n) = NoState call

toggle_end-NoState : (n : ℕ) (o : Option QueuedCall) → AllNoState o → EndNoState (toggle_end n o)
toggle_end-NoState n none h = tt
toggle_end-NoState n (some call) h = h

async_toggle_rule-NoState :
    (enabled : Bool) (t : Option String) (cs : List (String → Lookup))
    → EndNoState (async_toggle_rule enabled t cs)
unfolding async_toggle_rule
async_toggle_rule-NoState enabled t [] = tt
async_toggle_rule-NoState enabled t (look ∷ cs) =
    toggle_end-NoState (length (look ∷ cs)) (toggle_first enabled t (look ∷ cs))
      (toggle_first-NoState enabled t (look ∷ cs))

pub missing_arguments-plain :
    (name : String)
    → (check_auth_error (missing_arguments name) ≡ false)
      × (is_path_error (missing_arguments name) ≡ false)
unfolding check_auth_error contains lower starts_with
missing_arguments-plain name = elim (Bool-cases (name == "toggle_port_profile")) [
  | inl e ↦ rw e (refl, refl)
  | inr e ↦ rw e (refl, refl)
]

-- If the service that sets the state of a rule answers with success, having queued a call of a method
-- that sets a state, and the method needs that state as an argument, then the wrapper of the call does
-- not get as far as the controller: whatever that would have answered, and whichever state was asked
-- for, the future that nobody awaits gets the error for the missing argument, and so does the queue.
pub async_toggle_rule-missing :
    (enabled : Bool) (t : Option String) (cs : List (String → Lookup)) (name : String) (rule : ℕ)
    (state : Option Bool) (refreshed : ℕ) (s : Script) (c : Caller) (end : CallEnd)
    → async_toggle_rule enabled t cs
      ≡ toggled (record { method = toggle name; rule = rule; state = state }) refreshed
    → s.first ≡ call_end (record { method = toggle name; rule = rule; state = state }) end
    → is_done c.future ≡ false
    → let r = wrapper_operation s c in
      (r.0.future ≡ Wrapper.failed (missing_arguments name))
      × (r.1 ≡ Wrapper.raised (missing_arguments name))
async_toggle_rule-missing enabled t cs name rule state refreshed s c end h first waits =
    let none_given = subst EndNoState h (async_toggle_rule-NoState enabled t cs) in
    let plain = missing_arguments-plain name in
    let first' =
      first
      ∙ ap (λ q. call_end (record { method = toggle name; rule = rule; state = q }) end)
          none_given in
    rw (first_error-plain s (missing_arguments name) c first' waits plain.0 plain.1) (refl, refl)

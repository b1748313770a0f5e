-- ===== src/Services/Tests.antt =====
-- The service at one controller.
use text.Mathlib.Text.{◌==◌}
use unifi_network_rules.Prelude.{
  ◌≡◌, refl, String, Bool, ◌||◌, any, all, true, false, none, some, [], ◌∷◌, if◌then◌else◌,
}
use unifi_network_rules.Text.{codes}
use unifi_network_rules.Auth
use unifi_network_rules.Api.{Api}
use unifi_network_rules.Api.Wrapper
use unifi_network_rules.Api.Wrapper.{Script, Caller, wrapper_operation}
use unifi_network_rules.Services.{
  state_methods, toggle_methods, toggle, set_device_led, Lookup, raises, absent, found, method_of,
  toggle_rule, toggle_any, toggle_first, toggle_failed, toggled, async_toggle_rule,
  missing_arguments,
}
use unifi_network_rules.Services.Toggle.{async_toggle_rule-missing}

program : Unit {0}
unfolding method_of toggle_rule toggle_any toggle_first async_toggle_rule
program = tt

-- The request for policies fails, and a traffic route has the id.
abbrev one_rule : String → Lookup
one_rule t =
    if t == "firewall_policies" then raises else if t == "traffic_routes" then found 3 else absent

any_type :
    async_toggle_rule true none (one_rule ∷ [])
    ≡ toggled (record { method = toggle "toggle_traffic_route"; rule = 3; state = none }) 1
unfolding program
any_type = refl

led :
    async_toggle_rule false (some "devices") ((λ t. found 4) ∷ [])
    ≡ toggled (record { method = set_device_led; rule = 4; state = some false }) 1
unfolding program
led = refl

unheard_of : async_toggle_rule true (some "static_routes") ((λ t. found 4) ∷ []) ≡ toggle_failed
unfolding program
unheard_of = refl

-- Every method that the services queue to set a state is one of those that need it.
abbrev needs_state : String × String → Bool
needs_state m = (m.1 == "toggle_port_profile") || any (λ name. name == m.1) state_methods

all_need_state : all needs_state toggle_methods ≡ true
unfolding all any
all_need_state = refl

-- A controller that would answer that the rule is set.
abbrev called : Script
called = record {
  first = Wrapper.raised (missing_arguments "toggle_traffic_route");
  other_path = Wrapper.returned none;
  again = Wrapper.returned none;
  again_other_path = Wrapper.returned none;
  now = 0;
  refresh = Auth.returned true;
  callback_raises = false;
}

abbrev new_api : Api
new_api = record {
  recovery_in_progress = false;
  last_error_message = none;
  consecutive_auth_failures = 0;
  max_auth_failures = 5;
  rate_limited = false;
  rate_limit_until = 0;
  has_callback = false;
  callbacks = 0;
  base_path = none;
}

abbrev new_caller : Caller
new_caller = record { api = new_api; future = Wrapper.pending; calls = 0 }

async_toggle_rule-missing_example :
    let r = wrapper_operation called new_caller in
    (r.0.future ≡ Wrapper.failed (codes "missing 1 required positional argument: 'target_state'"))
    × (r.1 ≡ Wrapper.raised (codes "missing 1 required positional argument: 'target_state'"))
async_toggle_rule-missing_example =
    async_toggle_rule-missing true none (one_rule ∷ []) "toggle_traffic_route" 3 none 1 called
      new_caller (Wrapper.returned (some 1)) any_type refl refl

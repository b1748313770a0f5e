-- ===== src/Detector/Actions.antt =====
-- Two equal states of an entity differ in nothing that counts as a change.
use unifi_network_rules.Prelude.{
  String, ◌≡◌, refl, false, none, List, [], ◌∷◌, any, arith, All, Bool-cases, inl, inr,
}
use text.Mathlib.Text.{◌==◌}
use unifi_network_rules.Dict.{get}
use unifi_network_rules.Value.{Value, null, bool}
use unifi_network_rules.Value.Equality.{IsJson, py_eq_refl}
use unifi_network_rules.Detector.{
  EntityState, get_or, get_null, determine_change_action, determine_led_change_action,
  determine_kill_switch_change_action, significant_fields, field_differs,
}

-- The values of the state are JSON values.
abbrev pub IsJsonState : EntityState → Type 0
IsJsonState state = All (λ (e : String × Value). IsJson e.1) state

get_or-IsJson :
    (key : String) (default : Value) (state : EntityState)
    → IsJson default
    → IsJsonState state
    → IsJson (get_or key default state)
unfolding get_or get
get_or-IsJson key default [] d j = d
get_or-IsJson key default ((k, v) ∷ state) d j = elim (Bool-cases (k == key)) [
  | inl e ↦ rw e j.0
  | inr e ↦ rw e (get_or-IsJson key default state d j.1)
]

any_differs :
    (keys : List String) (state : EntityState)
    → IsJsonState state
    → any (field_differs state state) keys ≡ false
unfolding any field_differs get_null
any_differs [] state j = refl
any_differs (key ∷ keys) state j =
    rw (py_eq_refl _ (get_or-IsJson key null state tt j), any_differs keys state j)

pub determine_change_action-same :
    (state : EntityState) → IsJsonState state → determine_change_action state state ≡ none
unfolding determine_change_action determine_led_change_action determine_kill_switch_change_action
    get_null
determine_change_action-same state j = ground (
  arith,
  py_eq_refl _ (get_or-IsJson "enabled" (bool false) state tt j),
  py_eq_refl _ (get_or-IsJson "led_override" null state tt j),
  py_eq_refl _ (get_or-IsJson "kill_switch_enabled" null state tt j),
  any_differs significant_fields state j,
)

-- ===== src/State/Devices/Triggers.antt =====
-- Which triggers a change of the LED of a device fires.
use text.Mathlib.Text.{◌==◌}
use text.Mathlib.TextEquality.{eq_iff}
use unifi_network_rules.Prelude.{
  ℕ, ◌+◌, String, ◌≡◌, refl, Bool, true, false, not, ◌&&◌, ◌||◌, Option, none, some, List, [], ◌∷◌,
  ◌++◌, any, arith, if◌then◌else◌, Bool-cases, inl, inr,
}
use unifi_network_rules.Dict.{Dict, has, get, has-delete}
use unifi_network_rules.Auth.{AuthManager, check_and_consume_ha_initiated_operation}
use unifi_network_rules.State.Devices.{
  Device, DeviceData, Trigger, add_keys, same_led, check_device, check_devices, lookup_in, no_data,
  check_for_device_state_changes,
}

-- The device is in both, with another LED state.
abbrev pub led_differs : Option Device → Option Device → Bool
led_differs none new = false
led_differs (some old) none = false
led_differs (some old) (some new) = not (same_led old.led_override new.led_override)

-- The number of the triggers for a device.
unfoldable pub triggers_for : String → List Trigger → ℕ
triggers_for k [] = 0
triggers_for k (t ∷ ts) = (if t.device_id == k then 1 else 0) + triggers_for k ts

abbrev member : String → List String → Bool
member k ids = any (λ j. j == k) ids

-- No id stands twice.
abbrev IsUnique : List String → Type 0
IsUnique [] = Unit
IsUnique (id ∷ ids) = (member id ids ≡ false) × IsUnique ids

module _ (k : String) where
  triggers_for-append :
      (xs ys : List Trigger) → triggers_for k (xs ++ ys) ≡ triggers_for k xs + triggers_for k ys
  unfolding triggers_for
  triggers_for-append [] ys = omega arith
  triggers_for-append (x ∷ xs) ys = ground (arith, triggers_for-append xs ys)

  has-check_device :
      (id : String) (old new : Option Device) (s : AuthManager)
      → has k (check_device id old new s).manager.ha_initiated_operations
        ≡ (if (id == k) && led_differs old new then false else has k s.ha_initiated_operations)
  unfolding check_device check_and_consume_ha_initiated_operation
  has-check_device id none new s = ground arith
  has-check_device id (some old) none s = ground arith
  has-check_device id (some old) (some new) s =
      ground (arith, eq_iff id k, has-delete id k s.ha_initiated_operations)

  triggers-check_device :
      (id : String) (old new : Option Device) (s : AuthManager)
      → triggers_for k (check_device id old new s).triggers ≡ (
          if (id == k) && (led_differs old new && not (has k s.ha_initiated_operations))
          then 1
          else 0)
  unfolding check_device check_and_consume_ha_initiated_operation triggers_for
  triggers-check_device id none new s = ground arith
  triggers-check_device id (some old) none s = ground arith
  triggers-check_device id (some old) (some new) s = ground (arith, eq_iff id k)

  module _ (old new : Dict Device) where
    has-check_devices :
        (ids : List String) (s : AuthManager)
        → has k (check_devices ids old new s).manager.ha_initiated_operations ≡ (
            if member k ids && led_differs (get k old) (get k new)
            then false
            else has k s.ha_initiated_operations)
    unfolding check_devices any
    has-check_devices [] s = ground arith
    has-check_devices (id ∷ ids) s =
        let c = check_device id (get id old) (get id new) s in
        elim (Bool-cases (id == k)) [
          | inl e ↦ rw ((eq_iff id k).0 e) (
              ground (
                arith,
                has-check_device k (get k old) (get k new) s,
                has-check_devices ids (check_device k (get k old) (get k new) s).manager,
                eq_iff k k,
              ))
          | inr e ↦ ground (
            arith,
            has-check_device id (get id old) (get id new) s,
            has-check_devices ids c.manager,
          )
        ]

    triggers-check_devices :
        (ids : List String) (s : AuthManager)
        → IsUnique ids
        → triggers_for k (check_devices ids old new s).triggers ≡ (
            if member k ids
              && (led_differs (get k old) (get k new) && not (has k s.ha_initiated_operations))
            then 1
            else 0)
    unfolding check_devices any triggers_for
    triggers-check_devices [] s u = ground arith
    triggers-check_devices (id ∷ ids) s u =
        let c = check_device id (get id old) (get id new) s in
        let rest = check_devices ids old new c.manager in
        rw (triggers_for-append c.triggers rest.triggers) (elim (Bool-cases (id == k)) [
          | inl e ↦ ground (
            arith,
            (eq_iff id k).0 e,
            u.0,
            triggers-check_device id (get id old) (get id new) s,
            triggers-check_devices ids c.manager u.1,
          )
          | inr e ↦ ground (
            arith,
            triggers-check_device id (get id old) (get id new) s,
            has-check_device id (get id old) (get id new) s,
            triggers-check_devices ids c.manager u.1,
          )
        ])

member-add_keys :
    (k : String) (m : Dict Device) (ids : List String)
    → member k (add_keys m ids) ≡ (has k m || member k ids)
unfolding add_keys has any
member-add_keys k [] ids = refl
member-add_keys k ((id, d) ∷ m) ids = elim (Bool-cases (id == k)) [
  | inl e ↦ rw ((eq_iff id k).0 e) (ground (arith, member-add_keys k m ids, eq_iff k k))
  | inr e ↦ ground (arith, member-add_keys k m ids)
]

add_keys-IsUnique : (m : Dict Device) (ids : List String) → IsUnique ids → IsUnique (add_keys m ids)
unfolding add_keys
add_keys-IsUnique [] ids u = u
add_keys-IsUnique ((id, d) ∷ m) ids u = elim (Bool-cases (member id (add_keys m ids))) [
  | inl e ↦ rw e (add_keys-IsUnique m ids u)
  | inr e ↦ rw e (e, add_keys-IsUnique m ids u)
]

differs-has :
    (k : String) (old new : Dict Device)
    → led_differs (get k old) (get k new) ≡ true
    → has k old ≡ true
unfolding has get
differs-has k [] new h = cc
differs-has k ((j, d) ∷ old) new h = elim (Bool-cases (j == k)) [
  | inl e ↦ ground arith
  | inr e ↦ ground (arith, differs-has k old new)
]

-- Where both fetches have data: a device whose LED state differs between them fires exactly one
-- trigger if no flag of an operation is set for it, and none if one is set, which is then consumed;
-- any other device fires none and keeps its flag.
pub check-triggers :
    (k : String) (previous new : DeviceData) (s : AuthManager)
    → no_data previous ≡ false
    → no_data new ≡ false
    → let differs = led_differs (get k (lookup_in previous)) (get k (lookup_in new)) in
      let flag = has k s.ha_initiated_operations in
      let c = check_for_device_state_changes previous new s in
      (triggers_for k c.triggers ≡ (if differs && not flag then 1 else 0))
      × (has k c.manager.ha_initiated_operations ≡ (flag && not differs))
unfolding check_for_device_state_changes
check-triggers k previous new s p n =
    let old_devices = lookup_in previous in
    let new_devices = lookup_in new in
    let ids = add_keys new_devices (add_keys old_devices []) in
    let u : IsUnique ids = add_keys-IsUnique new_devices _ (add_keys-IsUnique old_devices [] tt) in
    let m = member-add_keys k new_devices (add_keys old_devices []) in
    let o = member-add_keys k old_devices [] in
    (
      ground (
        arith,
        m,
        o,
        differs-has k old_devices new_devices,
        triggers-check_devices k old_devices new_devices ids s u,
      ),
      ground (
        arith,
        m,
        o,
        differs-has k old_devices new_devices,
        has-check_devices k old_devices new_devices ids s,
      ),
    )

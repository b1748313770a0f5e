-- ===== src/State/Devices.antt =====
-- custom_components/unifi_network_rules/coordination/state_manager.py:
-- `check_for_device_state_changes`, which takes the flags of the authentication manager.
pub mod Triggers
use text.Mathlib.Text.{◌==◌}
use unifi_network_rules.Prelude.{
  String, Bool, true, false, not, ◌&&◌, ◌||◌, Option, none, some, List, [], ◌∷◌, ◌++◌, any,
  if◌then◌else◌,
}
use unifi_network_rules.Dict.{Dict, has, get, put}
use unifi_network_rules.Auth.{AuthManager, check_and_consume_ha_initiated_operation}

-- The attributes that are read of a device. `mac` and `id` are `none` where the attribute is
-- missing, and `some none` where it is `None`; the others are `none` where it is missing.
pub record Device : Type 0 where
  pub mac : Option (Option String)
  pub id : Option (Option String)
  pub led_override : Option String
  pub name : Option String

abbrev pub DeviceData : Type 0
DeviceData = Dict (List Device)

-- A missing `name` stands for the text `Device <id>`.
pub record Trigger : Type 0 where
  pub device_id : String
  pub device_name : Option String
  pub old_state : Device
  pub new_state : Device

abbrev attribute_or : Option (Option String) → Option String → Option String
attribute_or none default = default
attribute_or (some v) default = v

-- `getattr(device, "mac", getattr(device, "id", None))`
unfoldable pub device_id_of : Device → Option String
device_id_of d = attribute_or d.mac (attribute_or d.id none)

abbrev with_device : Option String → Device → Dict Device → Dict Device
with_device none d m = m
with_device (some id) d m = if id == "" then m else put id d m

-- The dictionary of the devices, of which the one with the LED states has the same keys.
unfoldable pub device_lookup : Dict Device → List Device → Dict Device
device_lookup m [] = m
device_lookup m (d ∷ devices) = device_lookup (with_device (device_id_of d) d m) devices

-- The union of the keys; the order of a set is not specified.
unfoldable pub add_keys : Dict Device → List String → List String
add_keys [] ids = ids
add_keys ((id, d) ∷ m) ids =
    let rest = add_keys m ids in if any (λ j. j == id) rest then rest else id ∷ rest

unfoldable pub same_led : Option String → Option String → Bool
same_led none none = true
same_led (some a) (some b) = a == b
same_led _ _ = false

-- The triggers of one round of the loop.
pub record Checked : Type 0 where
  pub manager : AuthManager
  pub triggers : List Trigger

unfoldable pub check_device : String → Option Device → Option Device → AuthManager → Checked
check_device id none new s = record { manager = s; triggers = [] }
check_device id (some old) none s = record { manager = s; triggers = [] }
check_device id (some old) (some new) s =
    if same_led old.led_override new.led_override
    then record { manager = s; triggers = [] }
    else let (s', was_ha_initiated) = check_and_consume_ha_initiated_operation id s in
      record {
        manager = s';
        triggers =
            if was_ha_initiated
            then []
            else record { device_id = id; device_name = new.name; old_state = old; new_state = new }
              ∷ [];
      }

abbrev pub first_then : List Trigger → Checked → Checked
first_then triggers c = record { manager = c.manager; triggers = triggers ++ c.triggers }

unfoldable pub check_devices : List String → Dict Device → Dict Device → AuthManager → Checked
check_devices [] old new s = record { manager = s; triggers = [] }
check_devices (id ∷ ids) old new s =
    let c = check_device id (get id old) (get id new) s in
    first_then c.triggers (check_devices ids old new c.manager)

abbrev devices_in : Option (List Device) → List Device
devices_in none = []
devices_in (some devices) = devices

abbrev pub lookup_in : DeviceData → Dict Device
lookup_in fetched = device_lookup [] (devices_in (get "devices" fetched))

abbrev pub no_data : DeviceData → Bool
no_data [] = true
no_data (e ∷ m) = false

unfoldable pub check_for_device_state_changes : DeviceData → DeviceData → AuthManager → Checked
check_for_device_state_changes previous new s =
    if no_data previous || no_data new
    then record { manager = s; triggers = [] }
    else (let old_devices = lookup_in previous in
        let new_devices = lookup_in new in
        check_devices (add_keys new_devices (add_keys old_devices [])) old_devices new_devices s)

-- ===== src/Auth/Operations.antt =====
-- The flags of the operations that Home Assistant began.
use unifi_network_rules.Prelude.{
  ℕ, ◌+◌, ◌≤◌, ◌<◌, String, ◌≡◌, true, false, [], arith, if◌then◌else◌,
}
use text.Mathlib.Text.{◌==◌}
use text.Mathlib.TextEquality.{eq_iff}
use unifi_network_rules.Dict.{has, put, has-put, has-delete}
use unifi_network_rules.Auth.{
  AuthManager, register_ha_initiated_operation, cleanup_op, expire, expire_all,
  check_and_consume_ha_initiated_operation,
}

-- A registered operation is reported once: the first check of its rule answers yes and takes the
-- flag, so the next check of the same rule answers no. The check of one rule leaves the flag of any
-- other rule as it was.
pub consume-register :
    (now timeout : ℕ) (k j : String) (s : AuthManager)
    → let r = register_ha_initiated_operation now timeout k s in
      let c = check_and_consume_ha_initiated_operation k r in
      (c.1 ≡ true)
      × ((check_and_consume_ha_initiated_operation k c.0).1 ≡ false)
      × (has j c.0.ha_initiated_operations
          ≡ (if k == j then false else has j s.ha_initiated_operations))
unfolding register_ha_initiated_operation check_and_consume_ha_initiated_operation
consume-register now timeout k j s =
    let m = put k now s.ha_initiated_operations in
    (
      ground (arith, has-put k k now s.ha_initiated_operations, eq_iff k k),
      ground (arith, has-put k k now s.ha_initiated_operations, has-delete k k m, eq_iff k k),
      ground (
        arith,
        has-put k k now s.ha_initiated_operations,
        has-put k j now s.ha_initiated_operations,
        has-delete k j m,
        eq_iff k k,
        eq_iff k j,
      ),
    )

-- An operation that is registered again before the first registration has expired loses its flag
-- when the first one expires, although the second has time left.
pub expire-register_again :
    (first again now timeout : ℕ) (k : String) (s : AuthManager)
    → s.expiries ≡ []
    → first + timeout ≤ now
    → now < again + timeout
    → has k
        (expire now (
          register_ha_initiated_operation again timeout k
            (register_ha_initiated_operation first timeout k s))).ha_initiated_operations
      ≡ false
unfolding expire expire_all register_ha_initiated_operation cleanup_op
expire-register_again first again now timeout k s none_left h g =
    let m = put k again (put k first s.ha_initiated_operations) in
    rw none_left (
      ground (
        arith,
        has-delete k k m,
        has-put k k again (put k first s.ha_initiated_operations),
        eq_iff k k,
      ))

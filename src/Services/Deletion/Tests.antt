-- ===== src/Services/Deletion/Tests.antt =====
-- The deletion service at concrete inputs.
use unifi_network_rules.Prelude.{◌≡◌, refl, true, false, none, some, [], ◌∷◌, any, arith}
use unifi_network_rules.Text.{codes, text_eq, contains, starts_with}
use unifi_network_rules.IdParser.{
  parse_rule_id, validate_rule_type, generate_entity_id_from_rule, mapped,
}
use unifi_network_rules.Services.Deletion.{
  remove_method, delete_rule, delete_any, delete_first, async_delete_rule, success, delete_failed,
  rule_id_required, no_coordinators, unsupported_type,
}
use unifi_network_rules.Services.Deletion.Targets.{async_delete_rule-untyped}

program : Unit {0}
unfolding remove_method any text_eq delete_rule delete_any delete_first async_delete_rule
    parse_rule_id validate_rule_type contains starts_with generate_entity_id_from_rule mapped
program = tt

not_given : async_delete_rule (true ∷ []) [] none ≡ rule_id_required
unfolding program
not_given = refl

nobody : async_delete_rule [] (codes "6786d55a") none ≡ no_coordinators
unfolding program
nobody = refl

zones_unsupported :
    async_delete_rule (true ∷ []) (codes "6786d55a") (some (codes "firewall_zones"))
    ≡ unsupported_type
unfolding program
zones_unsupported = refl

-- The API has no method for the removal of a legacy rule.
legacy_fails :
    async_delete_rule (true ∷ []) (codes "6786d55a") (some (codes "legacy_firewall_rules"))
    ≡ delete_failed
unfolding program
legacy_fails = refl

route_removed :
    async_delete_rule (false ∷ true ∷ []) (codes "6786d55a") (some (codes "traffic_routes"))
    ≡ success (record { method = codes "remove_traffic_route"; rule_id = codes "6786d55a" })
unfolding program
route_removed = refl

async_delete_rule-untyped_example :
    async_delete_rule (false ∷ true ∷ []) (codes "6786d55a") none
    ≡ success (record { method = codes "remove_firewall_policy"; rule_id = codes "6786d55a" })
unfolding any contains starts_with
async_delete_rule-untyped_example =
    async_delete_rule-untyped (false ∷ true ∷ []) (codes "6786d55a") (λ h. ground (arith, h))
      (λ h. ground (arith, h)) refl refl

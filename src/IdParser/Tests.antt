-- ===== src/IdParser/Tests.antt =====
-- Ids parsed and generated, and the theorems of the id parser at concrete inputs.
use unifi_network_rules.Prelude.{◌≡◌, refl, none, some, any}
use unifi_network_rules.Text.{codes, text_eq, starts_with, contains}
use unifi_network_rules.IdParser.{
  split, join, last, but_last, first, tail, mapped, get_rule_type_from_hint, validate_rule_type,
  generate_entity_id_from_rule, without_domain, from_parts, from_prefixed, parse_rule_id,
}
use unifi_network_rules.IdParser.RoundTrip.{is_plain, parse-generate}

program : Unit {0}
unfolding any text_eq starts_with contains split join last but_last first tail mapped
    get_rule_type_from_hint validate_rule_type generate_entity_id_from_rule without_domain
    from_parts from_prefixed parse_rule_id is_plain
program = tt

unprefixed_kept :
    parse_rule_id (codes "6786d55a") (some (codes "wlans"))
    ≡ (codes "6786d55a", some (codes "wlans"))
unfolding program
unprefixed_kept = refl

parse-generate_example :
    parse_rule_id (generate_entity_id_from_rule (codes "6786d55a") (codes "vpn_clients")) none
    ≡ (codes "6786d55a", some (codes "vpn_clients"))
unfolding program
parse-generate_example = parse-generate (codes "6786d55a") (codes "vpn_clients") refl refl

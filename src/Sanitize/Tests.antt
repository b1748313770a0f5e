-- ===== src/Sanitize/Tests.antt =====
-- Sanitized ids at concrete inputs.
use unifi_network_rules.Prelude.{◌≡◌, ◌↔◌, refl, true}
use unifi_network_rules.Text.{codes}
use unifi_network_rules.Sanitize.{sanitize_entity_id, get_child_unique_id}
use unifi_network_rules.Sanitize.Slug.{is_slug, sanitize_entity_id_lem}
use unifi_network_rules.Prelude.{keep}
use unifi_network_rules.Text.{lower}
use unifi_network_rules.Sanitize.{rstrip, lstrip, collapse, replace_others, replace_hyphens}

program : Unit {0}
unfolding get_child_unique_id sanitize_entity_id rstrip lstrip collapse replace_others
    replace_hyphens keep lower
program = tt

a_name : sanitize_entity_id (codes "Bob's -- LAN (2)") ≡ codes "bobs_lan_2"
unfolding program
a_name = refl

no_name : sanitize_entity_id (codes "--") ≡ codes "unknown"
unfolding program
no_name = refl

a_child :
    get_child_unique_id (codes "unr_route_7") (codes "kill_switch")
    ≡ codes "unr_route_7_kill_switch"
unfolding program
a_child = refl

sanitize_entity_id_example :
    (is_slug true (sanitize_entity_id (codes "My Rule!")) ≡ true)
    × (sanitize_entity_id (sanitize_entity_id (codes "My Rule!"))
        ≡ sanitize_entity_id (codes "My Rule!"))
    × (is_slug true (codes "My Rule!") ≡ true
        ↔ sanitize_entity_id (codes "My Rule!") ≡ codes "My Rule!")
sanitize_entity_id_example = sanitize_entity_id_lem (codes "My Rule!") (λ e. cc)

-- ===== src/Networks/Tests.antt =====
-- Networks at concrete inputs.
use unifi_network_rules.Prelude.{◌≡◌, refl, true, false, List, [], ◌∷◌, keep, ℕ}
use unifi_network_rules.Text.{codes, text_eq, starts_with, contains, lower}
use unifi_network_rules.Networks.{
  Network, is_vpn_network, classify_vpn_type, is_default_network, filter_switchable_networks,
}

program : Unit {0}
unfolding keep text_eq starts_with contains lower is_vpn_network classify_vpn_type
    is_default_network filter_switchable_networks
program = tt

abbrev network : List ℕ → List ℕ → Network
network purpose hidden_id = record {
  purpose = purpose;
  vpn_type = [];
  hidden_id = hidden_id;
  no_delete = false;
  vlan_enabled = true;
}

guests_stay :
    filter_switchable_networks (
      network (codes "corporate") (codes "LAN")
      ∷ network (codes "VPN-Client") []
      ∷ network (codes "guest") []
      ∷ [])
    ≡ network (codes "guest") [] ∷ []
unfolding program
guests_stay = refl

-- ===== src/Networks.antt =====
-- custom_components/unifi_network_rules/helpers/rule.py: which networks are VPNs, which is the default
-- network, and which networks get switches.
pub mod Vpn
mod Tests
use unifi_network_rules.Prelude.{Bool, true, false, not, ◌&&◌, ◌||◌, List, [], keep, if◌then◌else◌}
use unifi_network_rules.Text.{Text, codes, text_eq, starts_with, contains, lower}

-- The raw data of a network: the texts of `purpose` and `vpn_type`, empty where the key is missing,
-- `attr_hidden_id`, and whether `attr_no_delete` and `vlan_enabled` are true.
pub record Network : Type 0 where
  pub purpose : Text
  pub vpn_type : Text
  pub hidden_id : Text
  pub no_delete : Bool
  pub vlan_enabled : Bool

unfoldable pub is_vpn_network : Network → Bool
unfolding starts_with contains lower text_eq
is_vpn_network n =
    let purpose = lower n.purpose in
    let vpn_type = lower n.vpn_type in
    starts_with (codes "vpn") purpose
    || ((text_eq (codes "remote-user-vpn") purpose
          || (text_eq (codes "vpn-client") purpose || text_eq (codes "vpn-server") purpose))
        || (contains (codes "vpn") vpn_type
            || (contains (codes "wireguard") vpn_type || contains (codes "openvpn") vpn_type)))

-- `is_client` and `is_server`.
unfoldable pub classify_vpn_type : Text → Text → Bool × Bool
unfolding starts_with contains lower text_eq
classify_vpn_type given_purpose given_type =
    let purpose = lower given_purpose in
    let vpn_type = lower given_type in
    (
      text_eq (codes "vpn-client") purpose
          || ((text_eq (codes "openvpn-client") vpn_type
                || text_eq (codes "wireguard-client") vpn_type)
              || ((starts_with (codes "vpn") purpose && contains (codes "client") purpose)
                  || contains (codes "client") vpn_type)),
      (text_eq (codes "vpn-server") purpose || text_eq (codes "remote-user-vpn") purpose)
          || ((text_eq (codes "openvpn-server") vpn_type
                || text_eq (codes "wireguard-server") vpn_type)
              || ((starts_with (codes "vpn") purpose && contains (codes "server") purpose)
                  || contains (codes "server") vpn_type)),
    )

unfoldable pub is_default_network : Network → Bool
unfolding text_eq lower
is_default_network n =
    text_eq n.hidden_id (codes "LAN")
    || (n.no_delete && (not n.vlan_enabled && text_eq (lower n.purpose) (codes "corporate")))

unfoldable pub filter_switchable_networks : List Network → List Network
unfolding keep
filter_switchable_networks networks =
    keep (λ n. not (is_vpn_network n) && not (is_default_network n)) networks

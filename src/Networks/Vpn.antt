-- ===== src/Networks/Vpn.antt =====
-- What makes a VPN a client or a server.
use unifi_network_rules.Prelude.{
  ◌≡◌, refl, ap, ◌∙◌, Bool, true, false, not, ◌&&◌, ◌||◌, [], arith, Bool-cases, inl, inr,
}
use unifi_network_rules.Text.{Text, codes, text_eq, text_eq_iff, starts_with, contains, lower}
use unifi_network_rules.Networks.{Network, is_vpn_network, classify_vpn_type}

-- A condition that holds of a text takes in the equality with it.
absorbed : (p : Text → Bool) (s t : Text) → p s ≡ true → (text_eq s t && not (p t)) ≡ false
absorbed p s t h = elim (Bool-cases (text_eq s t)) [
  | inl e ↦ ground (arith, h, ap p ((text_eq_iff s t).0 e))
  | inr e ↦ ground (arith, e)
]

abbrev pub in_vpn : Text → Text → Bool
in_vpn word purpose = starts_with (codes "vpn") purpose && contains word purpose

module _ (q r x y v w : Bool) (qv : (q && not v) ≡ false) (xw : (x && not w) ≡ false)
    (yw : (y && not w) ≡ false) where
  four_or : (q || ((x || y) || (v || w))) ≡ (v || w)
  four_or = ground (arith, qv, xw, yw)

  five_or : ((q || r) || ((x || y) || (v || w))) ≡ ((v || w) || r)
  five_or = ground (arith, qv, xw, yw)

purposes_or :
    (s c d q r t z : Bool)
    → (((q || ((false || false) || ((s && c) || false)))
          || ((r || t) || ((false || false) || ((s && d) || false))))
        && not (s || ((t || (q || r)) || z)))
      ≡ false
purposes_or s c d q r t z = ground arith

-- The words as indicators of their own.
client_purpose :
    (p : Text) → (text_eq (codes "vpn-client") p && not (in_vpn (codes "client") p)) ≡ false
unfolding starts_with contains
client_purpose p = absorbed (in_vpn (codes "client")) (codes "vpn-client") p refl

server_purpose :
    (p : Text) → (text_eq (codes "vpn-server") p && not (in_vpn (codes "server") p)) ≡ false
unfolding starts_with contains
server_purpose p = absorbed (in_vpn (codes "server")) (codes "vpn-server") p refl

openvpn_client :
    (t : Text) → (text_eq (codes "openvpn-client") t && not (contains (codes "client") t)) ≡ false
unfolding starts_with contains
openvpn_client t = absorbed (contains (codes "client")) (codes "openvpn-client") t refl

openvpn_server :
    (t : Text) → (text_eq (codes "openvpn-server") t && not (contains (codes "server") t)) ≡ false
unfolding starts_with contains
openvpn_server t = absorbed (contains (codes "server")) (codes "openvpn-server") t refl

wireguard_client :
    (t : Text) → (text_eq (codes "wireguard-client") t && not (contains (codes "client") t)) ≡ false
unfolding starts_with contains
wireguard_client t = absorbed (contains (codes "client")) (codes "wireguard-client") t refl

wireguard_server :
    (t : Text) → (text_eq (codes "wireguard-server") t && not (contains (codes "server") t)) ≡ false
unfolding starts_with contains
wireguard_server t = absorbed (contains (codes "server")) (codes "wireguard-server") t refl

no_type :
    (n : Network)
    → (((classify_vpn_type n.purpose []).0 || (classify_vpn_type n.purpose []).1)
        && not (is_vpn_network n))
      ≡ false
unfolding classify_vpn_type is_vpn_network text_eq lower contains starts_with
no_type n =
    purposes_or (starts_with (codes "vpn") (lower n.purpose))
      (contains (codes "client") (lower n.purpose)) (contains (codes "server") (lower n.purpose))
      (text_eq (codes "vpn-client") (lower n.purpose))
      (text_eq (codes "vpn-server") (lower n.purpose))
      (text_eq (codes "remote-user-vpn") (lower n.purpose)) _

-- Most of the indicators take in others: a VPN is a client exactly if its purpose begins with `vpn`
-- and has `client` in it, or its type has; a server in the same way, or if its purpose is
-- `remote-user-vpn`. A network with no VPN type that is either is a VPN network.
pub classify_vpn_type_lem :
    (vpn_type : Text) (n : Network)
    → n.vpn_type ≡ []
    → let c = classify_vpn_type n.purpose vpn_type in
      let p = lower n.purpose in
      let t = lower vpn_type in
      let d = classify_vpn_type n.purpose n.vpn_type in
      (c.0 ≡ (in_vpn (codes "client") p || contains (codes "client") t))
      × (c.1 ≡ (
          (in_vpn (codes "server") p || contains (codes "server") t)
          || text_eq (codes "remote-user-vpn") p))
      × (((d.0 || d.1) && not (is_vpn_network n)) ≡ false)
unfolding classify_vpn_type
classify_vpn_type_lem vpn_type n none_given =
    let p = lower n.purpose in
    let t = lower vpn_type in
    (
      four_or (text_eq (codes "vpn-client") p) false (text_eq (codes "openvpn-client") t)
          (text_eq (codes "wireguard-client") t) (in_vpn (codes "client") p)
          (contains (codes "client") t) (client_purpose p) (openvpn_client t) (wireguard_client t),
      five_or (text_eq (codes "vpn-server") p) (text_eq (codes "remote-user-vpn") p)
          (text_eq (codes "openvpn-server") t) (text_eq (codes "wireguard-server") t)
          (in_vpn (codes "server") p) (contains (codes "server") t) (server_purpose p)
          (openvpn_server t) (wireguard_server t),
      ap
            (λ x.
              ((classify_vpn_type n.purpose x).0 || (classify_vpn_type n.purpose x).1)
              && not (is_vpn_network n))
            none_given
          ∙ no_type n,
    )

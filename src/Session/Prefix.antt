-- ===== src/Session/Prefix.antt =====
-- The proxy prefix of the base path.
use unifi_network_rules.Prelude.{◌≡◌, refl, true, [], ◌∷◌, ◌++◌, arith, Bool-cases, inl, inr}
use unifi_network_rules.Text.{Text, starts_with}
use unifi_network_rules.Session.{proxy_prefix, lstrip_slash, with_proxy_prefix}

starts_with-append : (p s : Text) → starts_with p (p ++ s) ≡ true
unfolding starts_with
starts_with-append [] s = refl
starts_with-append (a ∷ p) s = ground (arith, starts_with-append p s)

with_proxy_prefix_starts : (path : Text) → starts_with proxy_prefix (with_proxy_prefix path) ≡ true
unfolding with_proxy_prefix
with_proxy_prefix_starts path = elim (Bool-cases (starts_with proxy_prefix path)) [
  | inl e ↦ rw e e
  | inr e ↦ rw e (starts_with-append proxy_prefix (lstrip_slash path))
]

with_proxy_prefix_kept :
    (path : Text) → starts_with proxy_prefix path ≡ true → with_proxy_prefix path ≡ path
unfolding with_proxy_prefix
with_proxy_prefix_kept path e = rw e

-- The path that the code stores begins with the proxy prefix, and storing it again changes nothing,
-- so logins and refreshes never pile up prefixes.
pub with_proxy_prefix_idem :
    (path : Text)
    → (starts_with proxy_prefix (with_proxy_prefix path) ≡ true)
      × (with_proxy_prefix (with_proxy_prefix path) ≡ with_proxy_prefix path)
with_proxy_prefix_idem path = (
  with_proxy_prefix_starts path,
  with_proxy_prefix_kept (with_proxy_prefix path) (with_proxy_prefix_starts path),
)

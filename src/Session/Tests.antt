-- ===== src/Session/Tests.antt =====
-- Logins against the rate limit, and the theorems of the session at concrete inputs.
use unifi_network_rules.Prelude.{ℕ, ◌+◌, ◌<◌, ◌≤◌, ◌≡◌, refl, none, some, List, [], ◌∷◌, arith}
use unifi_network_rules.Text.{codes, starts_with, contains, lower}
use unifi_network_rules.Session.{
  Session, init, lstrip_slash, with_proxy_prefix, ensure_proxy_prefix_in_path, accepted, refused,
  cannot_connect, is_rate_limited, is_auth_failure, login_failed, attempt_login, recently_logged_in,
  try_login, recover_session, full_login, refresh_session,
}
use unifi_network_rules.Session.RateLimit.{Attempt, contacts_of, try_login-after_limit}

program : Unit {0}
unfolding starts_with contains lower lstrip_slash with_proxy_prefix ensure_proxy_prefix_in_path
    is_rate_limited is_auth_failure login_failed attempt_login recently_logged_in try_login
    recover_session full_login refresh_session contacts_of
program = tt

abbrev new_session : Session
new_session = init (codes "/api")

-- An attempt that is refused at the time it is made.
abbrev refused_at : ℕ → Attempt
refused_at t = record { began = t; ended = t; status = none; message = codes "boom" }

abbrev seven_attempts : List Attempt
seven_attempts =
    refused_at 1000
    ∷ refused_at 1001
    ∷ refused_at 1002
    ∷ refused_at 1003
    ∷ refused_at 1004
    ∷ refused_at 1005
    ∷ refused_at 1006
    ∷ []

five_contacts : contacts_of seven_attempts new_session ≡ 5
unfolding program
five_contacts = refl

prefix_added : with_proxy_prefix (codes "//api") ≡ codes "/proxy/network/api"
unfolding program
prefix_added = refl

abbrev within :
    (t : ℕ) → t < 60 → (1000 ≤ 1000 + t) × (1000 + t ≤ 1000 + t) × (1000 + t < 1000 + 60)
within t h = (omega arith, omega arith, omega arith)

try_login-after_limit_example :
    let after = (try_login 1000 1002 (refused (some 429) (codes "slow")) new_session).session in
    try_login 1050 1051 accepted after
    ≡ record { result = cannot_connect; session = after; contacts = 0 }
unfolding program
try_login-after_limit_example =
    try_login-after_limit 1000 1002 1050 1051 (codes "slow") accepted new_session refl (omega arith)

-- ===== src/Session/RateLimit.antt =====
-- The rate limit of the logins.
use unifi_network_rules.Prelude.{
  ℕ, ◌+◌, ◌≤◌, ◌<◌, ◌≡◌, true, false, Option, some, none, List, [], ◌∷◌, arith, All,
}
use unifi_network_rules.Text.{Text, lower}
use unifi_network_rules.Session.{
  Session, Login, LoginAnswer, refused, cannot_connect, is_rate_limited, login_failed,
  attempt_login, try_login, recently_logged_in, RefreshAnswer, refresh_session, full_login,
  recover_session,
}

-- A refused attempt: when it began, when it ended, and the refusal.
pub record Attempt : Type 0 where
  pub began : ℕ
  pub ended : ℕ
  pub status : Option ℕ
  pub message : Text

-- The calls of `controller.login()` in a row of attempts that are refused.
unfoldable pub contacts_of : List Attempt → Session → ℕ
contacts_of [] s = 0
contacts_of (a ∷ rest) s =
    let l = try_login a.began a.ended (refused a.status a.message) s in
    l.contacts + contacts_of rest l.session

-- Inside the window that opens at `t`, where a full count comes from an attempt of the window.
record InWindow (t : ℕ) (s : Session) : Type 0 where
  counted : s.login_attempt_count ≤ s.max_login_attempts
  recent : s.login_attempt_count ≡ s.max_login_attempts → t ≤ s.last_login_attempt

record OneAttempt (t : ℕ) (s : Session) (l : Login) : Type 0 where
  next : InWindow t l.session
  grows : s.login_attempt_count + l.contacts ≤ l.session.login_attempt_count
  limit : l.session.max_login_attempts ≡ s.max_login_attempts
  cooldown : l.session.login_cooldown ≡ s.login_cooldown

abbrev pub Within : ℕ → ℕ → Attempt → Type 0
Within t cooldown a = (t ≤ a.began) × (a.began ≤ a.ended) × (a.began < t + cooldown)

try_login-OneAttempt :
    (t : ℕ) (a : Attempt) (s : Session)
    → InWindow t s
    → Within t s.login_cooldown a
    → OneAttempt t s (try_login a.began a.ended (refused a.status a.message) s)
unfolding try_login attempt_login login_failed
try_login-OneAttempt t a s w h = record {
  next = record { counted = ground arith; recent = ground arith };
  grows = ground arith;
  limit = ground arith;
  cooldown = ground arith;
}

contacts_of-InWindow :
    (t : ℕ) (attempts : List Attempt) (s : Session)
    → InWindow t s
    → All (Within t s.login_cooldown) attempts
    → contacts_of attempts s + s.login_attempt_count ≤ s.max_login_attempts
unfolding contacts_of
contacts_of-InWindow t [] s w h = omega (arith, w.counted)
contacts_of-InWindow t (a ∷ rest) s w h =
    let l = try_login a.began a.ended (refused a.status a.message) s in
    let o : OneAttempt t s l = try_login-OneAttempt t a s w h.0 in
    let ih = contacts_of-InWindow t rest l.session o.next (rw o.cooldown h.1) in
    omega (arith, o.grows, o.limit, ih)

-- However often a login is asked for within one cooldown, if none is accepted the controller is
-- contacted at most `max_login_attempts` times, counted from a session with no attempt on record.
contacts_of-le :
    (t : ℕ) (attempts : List Attempt) (s : Session)
    → s.login_attempt_count ≡ 0
    → 0 < s.max_login_attempts
    → All (Within t s.login_cooldown) attempts
    → contacts_of attempts s ≤ s.max_login_attempts
contacts_of-le t attempts s z pos h = omega (
  arith,
  contacts_of-InWindow t attempts s
      (record { counted = omega arith; recent = λ e. absurd (omega arith) }) h,
)

try_login-blocked :
    (now later : ℕ) (answer : LoginAnswer) (s : Session)
    → s.max_login_attempts ≤ s.login_attempt_count
    → now < s.last_login_attempt + s.login_cooldown
    → try_login now later answer s ≡ record { result = cannot_connect; session = s; contacts = 0 }
unfolding try_login
try_login-blocked now later answer s full near = ground arith

record IsLimited (ended : ℕ) (s t : Session) : Type 0 where
  full : t.max_login_attempts ≤ t.login_attempt_count
  last : t.last_login_attempt ≡ ended
  cooldown : t.login_cooldown ≡ s.login_cooldown

try_login-IsLimited :
    (began ended : ℕ) (message : Text) (s : Session)
    → (try_login began ended (refused (some 429) message) s).contacts ≡ 1
    → IsLimited ended s (try_login began ended (refused (some 429) message) s).session
unfolding try_login attempt_login login_failed is_rate_limited
try_login-IsLimited began ended message s c = record {
  full = ground arith;
  last = ground arith;
  cooldown = ground arith;
}

-- After a login that the controller refused with status 429, the next login that comes before the
-- cooldown is over fails at once, without contacting the controller and leaving the session as it
-- is.
pub try_login-after_limit :
    (began ended now later : ℕ) (message : Text) (answer : LoginAnswer) (s : Session)
    → (try_login began ended (refused (some 429) message) s).contacts ≡ 1
    → now < ended + s.login_cooldown
    → let after = (try_login began ended (refused (some 429) message) s).session in
      try_login now later answer after
      ≡ record { result = cannot_connect; session = after; contacts = 0 }
try_login-after_limit began ended now later message answer s c h =
    let l = try_login-IsLimited began ended message s c in
    try_login-blocked now later answer _ l.full (omega (arith, l.last, l.cooldown))

-- A refresh for which no session is there makes two logins, one after the other, where the first
-- one fails for another reason than a rate limit and the limit is not yet near: both reach the
-- controller, and `False` is returned if the second fails too.
pub refresh_session-twice :
    (time now : ℕ) (answer : RefreshAnswer) (message : Text) (s : Session)
    → s.login_attempt_count + 1 < s.max_login_attempts
    → s.last_successful_login ≡ 0
    → is_rate_limited none (lower message) ≡ false
    → let r =
        refresh_session time now true false answer
          (refused none message)
          (refused none message)
          s in
      (r.contacts ≡ 2)
      × (r.success ≡ false)
      × (r.session.login_attempt_count ≡ s.login_attempt_count + 2)
unfolding refresh_session full_login recover_session try_login attempt_login login_failed
    recently_logged_in
refresh_session-twice time now answer message s near never limit =
    (ground arith, ground arith, ground arith)

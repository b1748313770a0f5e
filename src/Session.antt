-- ===== src/Session.antt =====
-- custom_components/unifi_network_rules/udm/authentication.py: the login with its rate limit, the
-- refresh of a session, and the proxy prefix of the controller's base path. Times are in seconds;
-- how the controller answers is an argument; a difference of times is compared by moving the
-- earlier one to the other side. One login is taken at a time.
pub mod RateLimit
pub mod Prefix
mod Tests
use unifi_network_rules.Prelude.{
  ℕ, ◌+◌, ◌-◌, Bool, true, false, not, ◌&&◌, ◌||◌, Option, none, some, List, [], ◌∷◌, ◌++◌, ltb,
  leb, ◌==◌, if◌then◌else◌,
}
use unifi_network_rules.Text.{Text, codes, starts_with, contains, lower}

pub record Session : Type 0 where
  pub login_attempt_count : ℕ
  pub max_login_attempts : ℕ
  pub login_cooldown : ℕ
  pub last_login_attempt : ℕ
  pub last_successful_login : ℕ
  pub min_login_interval : ℕ
  pub last_session_refresh : Option ℕ
  pub base_path : Text

abbrev pub init : Text → Session
init base_path = record {
  login_attempt_count = 0;
  max_login_attempts = 5;
  login_cooldown = 60;
  last_login_attempt = 0;
  last_successful_login = 0;
  min_login_interval = 30;
  last_session_refresh = none;
  base_path = base_path;
}

abbrev pub proxy_prefix : Text
proxy_prefix = codes "/proxy/network/"

-- `path.lstrip("/")`
unfoldable pub lstrip_slash : Text → Text
lstrip_slash [] = []
lstrip_slash (c ∷ s) = let rest = lstrip_slash s in if c == b'/' then rest else c ∷ s

unfoldable pub with_proxy_prefix : Text → Text
with_proxy_prefix path =
    if not (starts_with proxy_prefix path) then proxy_prefix ++ lstrip_slash path else path

unfoldable pub ensure_proxy_prefix_in_path : Session → Session
ensure_proxy_prefix_in_path s = record s { base_path = with_proxy_prefix s.base_path }

-- The answer to `controller.login()`; a refusal has a status where the error has one.
pub data LoginAnswer : Type 0 where
  accepted : LoginAnswer
  refused : Option ℕ → Text → LoginAnswer

-- How `_try_login` ends: by `True`, by `CannotConnect` or by `InvalidAuth`.
pub data LoginResult : Type 0 where
  logged_in cannot_connect invalid_auth : LoginResult

-- `contacts` counts the calls of `controller.login()`.
pub record Login : Type 0 where
  pub result : LoginResult
  pub session : Session
  pub contacts : ℕ

abbrev is_status : ℕ → Option ℕ → Bool
is_status code none = false
is_status code (some c) = c == code

unfoldable pub is_rate_limited : Option ℕ → Text → Bool
is_rate_limited status error_str =
    is_status 429 status || contains (codes "limit_reached") error_str

unfoldable pub is_auth_failure : Option ℕ → Text → Bool
is_auth_failure status error_str =
    contains (codes "unauthorized") error_str
    || (contains (codes "forbidden") error_str || (is_status 401 status || is_status 403 status))

-- The `except` branch of `_try_login`, at the time `now`.
unfoldable pub login_failed : ℕ → Option ℕ → Text → Session → Login
login_failed now status message s =
    if is_rate_limited status (lower message)
    then record {
      result = cannot_connect;
      session = record s { login_attempt_count = s.max_login_attempts; last_login_attempt = now };
      contacts = 1;
    }
    else if is_auth_failure status (lower message)
    then record { result = invalid_auth; session = s; contacts = 1 }
    else record { result = cannot_connect; session = s; contacts = 1 }

-- The login itself, from the time `current_time` to the time `now`.
unfoldable pub attempt_login : ℕ → ℕ → LoginAnswer → Session → Login
attempt_login current_time now answer s =
    let tried = record s {
      last_login_attempt = current_time;
      login_attempt_count = s.login_attempt_count + 1;
      base_path = with_proxy_prefix s.base_path;
    } in
    elim answer [
      | accepted ↦ record {
        result = logged_in;
        session =
            ensure_proxy_prefix_in_path
              (record tried { login_attempt_count = 0; last_successful_login = current_time });
        contacts = 1;
      }
      | refused status message ↦ login_failed now status message tried
    ]

unfoldable pub recently_logged_in : ℕ → Session → Bool
recently_logged_in current_time s =
    ltb current_time (s.last_successful_login + s.min_login_interval)
    && ltb 0 s.last_successful_login

unfoldable pub try_login : ℕ → ℕ → LoginAnswer → Session → Login
try_login current_time now answer s =
    if leb s.max_login_attempts s.login_attempt_count
      && ltb current_time (s.last_login_attempt + s.login_cooldown)
    then record { result = cannot_connect; session = s; contacts = 0 }
    else let ready = record s {
      login_attempt_count =
          if leb s.max_login_attempts s.login_attempt_count then 0 else s.login_attempt_count;
    } in
      if recently_logged_in current_time ready
      then record { result = logged_in; session = ready; contacts = 0 }
      else attempt_login current_time now answer ready

-- The answer to the refresh request: a status, or an exception.
pub data RefreshAnswer : Type 0 where
  status : ℕ → RefreshAnswer
  request_raised : RefreshAnswer

-- What `refresh_session` returns; it does not raise.
pub record Refreshed : Type 0 where
  pub success : Bool
  pub session : Session
  pub contacts : ℕ

abbrev succeeded : LoginResult → Bool
succeeded logged_in = true
succeeded cannot_connect = false
succeeded invalid_auth = false

-- The outer `except` branch: the path is restored and one more login is tried.
unfoldable pub recover_session : ℕ → ℕ → LoginAnswer → Text → ℕ → Session → Refreshed
recover_session time now answer original_base_path contacts s =
    let l = try_login time now answer (record s { base_path = original_base_path }) in
    let after = l.session in
    record {
      success = succeeded l.result;
      session = if succeeded l.result then ensure_proxy_prefix_in_path after else after;
      contacts = contacts + l.contacts;
    }

-- A full login inside the `try` block; if it raises, the `except` branch follows.
unfoldable pub full_login : ℕ → ℕ → LoginAnswer → LoginAnswer → Session → Refreshed
full_login time now first second s =
    let l = try_login time now first s in
    if succeeded l.result
    then record {
      success = true;
      session = ensure_proxy_prefix_in_path l.session;
      contacts = l.contacts;
    }
    else recover_session now now second s.base_path l.contacts l.session

abbrev recently_refreshed : ℕ → Option ℕ → Bool
recently_refreshed time none = false
recently_refreshed time (some t) = ltb time (t + 300)

unfoldable pub refresh_session :
    ℕ → ℕ → Bool → Bool → RefreshAnswer → LoginAnswer → LoginAnswer → Session → Refreshed
refresh_session time now force has_session answer first second s =
    if not force && recently_refreshed time s.last_session_refresh
    then record { success = true; session = s; contacts = 0 }
    else if not has_session
    then full_login time now first second s
    else elim answer [
      | request_raised ↦ recover_session now now second s.base_path 0 s
      | status code ↦
          if code == 200
          then record {
            success = true;
            session = ensure_proxy_prefix_in_path (record s { last_session_refresh = some time });
            contacts = 0;
          }
          else full_login time now first second s
    ]

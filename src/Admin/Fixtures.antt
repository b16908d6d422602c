-- ===== src/Admin/Fixtures.antt =====
-- Two administrators with sessions, and stand-ins for what the standard library does.
use smtp_auth_proxy.Prelude.{true, false, none, some, ◌∷◌, length, []}
use smtp_auth_proxy.Strings.{Str, codes, str_eq}
use smtp_auth_proxy.Store.Models.{Role, admin, operator}
use smtp_auth_proxy.Store.Users.{AdminUser, Session, AdminDb}
use smtp_auth_proxy.Policy.Fixtures.{tiny_net}
use smtp_auth_proxy.Admin.Local.{Passwords, LocalConfig}
use smtp_auth_proxy.Admin.Sessions.{Web, SessionConfig, Request}

-- A password is its own hash.
abbrev pub plain_passwords : Passwords
plain_passwords = record {
  verify = λ h password. some (str_eq h password, false);
  hash = λ password. some password;
}

abbrev pub sign_in_config : LocalConfig
sign_in_config = record { enabled = true; lockout_threshold = 3; lockout_duration = 100 }

abbrev user : Str → Role → AdminUser
user id role = record {
  id = id;
  username = id;
  email = [];
  display_name = [];
  password_hash = some (codes "secret");
  role = role;
  source = codes "local";
  subject = none;
  totp_secret_enc = [];
  totp_enrolled_at = none;
  disabled = false;
  failed_logins = 0;
  locked_until = none;
  last_login_at = none;
  created_at = 1;
  updated_at = 1;
}

abbrev pub root : AdminUser
root = user (codes "root") admin

abbrev pub helper : AdminUser
helper = user (codes "helper") operator

-- A token is its own hash.
abbrev session : Str → Session
session id = record {
  id = id;
  user_id = id;
  token_hash = id;
  csrf_token = codes "csrf";
  ip = [];
  user_agent = [];
  created_at = 1;
  last_seen_at = 1;
  expires_at = 100;
}

abbrev pub root_session : Session
root_session = session (codes "root")

abbrev pub admin_db : AdminDb
admin_db = record {
  users = root ∷ helper ∷ [];
  sessions = root_session ∷ session (codes "helper") ∷ [];
}

abbrev pub plain_web : Web tiny_net
plain_web = record { hash_token = λ s. s; split_host = λ s. none; parse_ip = λ s. some (length s) }

abbrev pub session_config : SessionConfig
session_config = record {
  cookie_name = codes "sid";
  lifetime = 99;
  idle_timeout = 50;
  secure = true;
  path = codes "/";
}

-- A change, with root's cookie and its token in the header.
abbrev pub posted : Request
posted = record {
  method = codes "POST";
  cookie = λ name. some (codes "root");
  csrf_header = codes "csrf";
  forwarded_for = codes "lan";
  remote_addr = codes "host";
  user_agent = [];
}

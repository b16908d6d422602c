-- ===== src/Admin/Sessions.antt =====
-- The sessions of the management interface: internal/adminauth/session.go.
pub mod Requests
use smtp_auth_proxy.Prelude.{
  ℕ, ◌+◌, Bool, false, not, ◌||◌, Option, none, some, List, ◌∷◌, leb, ◌==◌, if◌then◌else◌, length,
  take, [],
}
use smtp_auth_proxy.Strings.{Str, str_eq, codes, trim_space, index_byte}
use smtp_auth_proxy.Policy.Source.{Net}
use smtp_auth_proxy.Store.Users.{
  AdminUser, Session, AdminDb, AdminError, not_found, Result, ok, err,
}
use smtp_auth_proxy.Store.Sessions.{
  Authenticated, opened, create_session, delete_session, lookup, touch, delete_for_user,
}

pub record SessionConfig : Type 0 where
  pub cookie_name : Str
  pub lifetime : ℕ
  pub idle_timeout : ℕ
  pub secure : Bool
  pub path : Str

-- The defaults of `NewSessionManager`; twelve hours in nanoseconds.
unfoldable pub new_session_manager : SessionConfig → SessionConfig
new_session_manager config = record config {
  cookie_name = if length config.cookie_name == 0 then codes "sap_session" else config.cookie_name;
  path = if length config.path == 0 then codes "/" else config.path;
  lifetime = if config.lifetime == 0 then 43200000000000 else config.lifetime;
}

-- What the code reads of an `http.Request`: a missing header is the empty string.
pub record Request : Type 0 where
  pub method : Str
  pub cookie : Str → Option Str
  pub csrf_header : Str
  pub forwarded_for : Str
  pub remote_addr : Str
  pub user_agent : Str

-- `HashSessionToken` and the host of `net.SplitHostPort`; `parse_ip` is `net.ParseIP`.
pub record Web (net : Net) : Type 0 where
  pub hash_token : Str → Str
  pub split_host : Str → Option Str
  pub parse_ip : Str → Option net.Ip

pub data SessionError : Type 0 where
  no_session csrf : SessionError

unfoldable pub is_safe_method : Str → Bool
is_safe_method method =
    str_eq method (codes "GET") || str_eq method (codes "HEAD") || str_eq method (codes "OPTIONS")

unfoldable pub truncate : Str → ℕ → Str
truncate s limit = if leb (length s) limit then s else take limit s

-- `CheckCSRF`; `none` is the nil error.
unfoldable pub check_csrf : Authenticated → Request → Option SessionError
unfolding is_safe_method
check_csrf auth r =
    if is_safe_method r.method
    then none
    else if length r.csrf_header == 0 || not (str_eq r.csrf_header auth.session.csrf_token)
    then some csrf
    else none

-- strings.Split(s, ",")[0]
unfoldable pub before_comma : Str → Str
before_comma s = elim (index_byte s b',') [ none ↦ s | some i ↦ take i s ]

module _ (net : Net) (web : Web net) where
  -- The text of an address that may be nil.
  unfoldable pub show_ip : Option net.Ip → Str
  show_ip none = codes "<nil>"
  show_ip (some ip) = net.show_ip ip

  unfoldable pub remote_ip : Str → Option net.Ip
  remote_ip addr = web.parse_ip (elim (web.split_host addr) [ none ↦ addr | some host ↦ host ])

  unfoldable pub contains_ip : List net.Network → net.Ip → Bool
  contains_ip [] ip = false
  contains_ip (n ∷ rest) ip = net.contains n ip || contains_ip rest ip

  unfoldable pub parse_trusted_proxies : List Str → Option (List net.Network)
  parse_trusted_proxies [] = some []
  parse_trusted_proxies (c ∷ rest) =
      let later = parse_trusted_proxies rest in
      elim (net.parse_cidr c) [
        | none ↦ none
        | some n ↦ elim later [ none ↦ none | some ns ↦ some (n ∷ ns) ]
      ]

  -- The address that the header claims, or the peer's.
  unfoldable pub forwarded : Request → Option net.Ip → Str
  unfolding show_ip before_comma
  forwarded r remote =
      if length r.forwarded_for == 0
      then show_ip remote
      else elim (web.parse_ip (trim_space (before_comma r.forwarded_for))) [
        | none ↦ show_ip remote
        | some ip ↦ net.show_ip ip
      ]

  unfoldable pub client_ip : Request → List net.Network → Str
  unfolding show_ip remote_ip contains_ip forwarded
  client_ip r trusted =
      let remote = remote_ip r.remote_addr in
      if length trusted == 0 then show_ip remote else elim remote [
        | none ↦ show_ip none
        | some ip ↦
            if not (contains_ip trusted ip) then show_ip (some ip) else forwarded r (some ip)
      ]

  -- `Issue`, with the two tokens that are drawn and the id of the row.
  unfoldable pub issue :
      SessionConfig → AdminDb → AdminUser → Request → Str → Str → Str → ℕ → AdminDb × Result Session
  unfolding client_ip truncate
  issue config db user r token csrf_token new_id now =
      let s : Session = record {
        id = [];
        user_id = user.id;
        token_hash = web.hash_token token;
        csrf_token = csrf_token;
        ip = client_ip r [];
        user_agent = truncate r.user_agent 512;
        created_at = now;
        last_seen_at = 0;
        expires_at = now + config.lifetime;
      } in
      let (later, result) = create_session db s new_id now in
      (later, elim result [ err e ↦ err e | ok _ ↦ ok (opened s new_id now) ])

  -- With the cookie's value.
  unfoldable pub resume : SessionConfig → AdminDb → Str → ℕ → AdminDb × Result Authenticated
  resume config db token now =
      let (later, result) = lookup db (web.hash_token token) config.idle_timeout now in
      (elim result [ err e ↦ later | ok a ↦ touch later a.session.id now ], result)

  -- `Authenticate`
  unfoldable pub authenticate :
      SessionConfig → AdminDb → Request → ℕ → AdminDb × Result Authenticated
  unfolding resume
  authenticate config db r now = elim (r.cookie config.cookie_name) [
    | none ↦ (db, err not_found)
    | some token ↦ if length token == 0 then (db, err not_found) else resume config db token now
  ]

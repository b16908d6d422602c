-- ===== src/Smtp/Session/Auth.antt =====
-- `Auth`, `authenticate` and the mechanisms: internal/smtpsrv/session.go and auth.go.
use smtp_auth_proxy.Prelude.{
  ◌⊎◌, inl, inr, not, ◌&&◌, none, some, List, ◌∷◌, ◌==◌, if◌then◌else◌, length, [],
}
use smtp_auth_proxy.Strings.{Str, str_eq, codes}
use smtp_auth_proxy.Smtp.Session.{
  Libraries, Reply, done, refused, auth_failed, Event, auth_failure_no_tls,
  auth_failure_credentials, Config, Conn, Session, Services, record_auth_failure,
}

pub data Mechanism : Type 0 where
  plain login : Mechanism

module _ (lib : Libraries) where
  -- `Auth`: the mechanism, or the refusal with what is told to the recorder.
  unfoldable pub auth : Config → Conn lib → Str → (List Event × Reply) ⊎ Mechanism
  auth config conn mech =
      if not conn.encrypted && not config.allow_insecure_auth
      then inl (auth_failure_no_tls ∷ [], refused 538 (some (5, 7, 11)))
      else if str_eq mech (codes "PLAIN")
      then inr plain
      else if str_eq mech (codes "LOGIN")
      then inr login
      else inl ([], auth_failed)

  unfoldable pub authenticate :
      {S : Type 0}
      → Services lib S
      → Config
      → Conn lib
      → Session lib
      → S
      → Str
      → Str
      → Session lib × (S × (List Event × Reply))
  unfolding record_auth_failure
  authenticate services config conn s state username password =
      let (state, identity) = services.authenticate state username password conn.remote_ip in
      elim identity [
        | none ↦ (
          record_auth_failure lib config s,
          (state, (auth_failure_credentials ∷ [], auth_failed)),
        )
        | some i ↦ (record s { identity = some i }, (state, ([], done)))
      ]

  -- The callback of PLAIN; `acting_as` is the authorization identity.
  unfoldable pub authenticate_plain :
      {S : Type 0}
      → Services lib S
      → Config
      → Conn lib
      → Session lib
      → S
      → Str
      → Str
      → Str
      → Session lib × (S × (List Event × Reply))
  unfolding record_auth_failure authenticate
  authenticate_plain services config conn s state acting_as username password =
      if not (length acting_as == 0) && not (str_eq acting_as username)
      then (record_auth_failure lib config s, (state, ([], auth_failed)))
      else authenticate services config conn s state username password

-- ===== src/App/Conversation.antt =====
-- A client's conversation with the proxy, while others change the proxy's state: the commands of
-- internal/smtpsrv/session.go with the authenticator and the submitter of internal/app.
use smtp_auth_proxy.Prelude.{
  ℕ, option_cases, ◌≡◌, refl, sym, subst, ◌⊎◌, inl, inr, true, not, ◌&&◌, Option, none, some, List,
  arith, ◌==◌, if_cases, Bool-cases, length, map, [],
}
use smtp_auth_proxy.Strings.{Str, codes, str_eq}
use smtp_auth_proxy.Store.Messages.{Db, References}
use smtp_auth_proxy.Store.Directory.{Directory, account_id_of, mailbox_id_of}
use smtp_auth_proxy.Smtp.Session.{
  Libraries, Config, Conn, Session, Identity, Reader, Reply, Submission, Services, done, Event,
  new_session, mail, rcpt, reset, logout, record_auth_failure,
}
use smtp_auth_proxy.Smtp.Session.Auth.{auth, authenticate, authenticate_plain, Mechanism}
use smtp_auth_proxy.Smtp.Session.Data.{Stop, stop, prepare_data, data_command, finished}
use smtp_auth_proxy.Smtp.Session.Submissions.{IsAuthorized, Authorized, prepare_data-Authorized}
use smtp_auth_proxy.Admin.Local.{Passwords}
use smtp_auth_proxy.App.Submit.{submit}
use smtp_auth_proxy.App.Auth.{authenticate as authenticate_account}
use smtp_auth_proxy.App.Auth.Proof.{Proves, authenticate-Proves}
use smtp_auth_proxy.App.Queued.{Stored, submit-Stored, answered}

-- What the services act on.
pub record Proxy : Type 0 where
  pub directory : Directory
  pub queue : Db

-- The rows that a message's foreign keys may name.
abbrev pub references_of : Directory → References
references_of d = record {
  accounts = map account_id_of d.accounts;
  mailboxes = map mailbox_id_of d.mailboxes;
}

pub data Command : Type 0 where
  auth_plain : Str → Str → Str → Command
  auth_login : Str → Str → Command
  mail_from rcpt_to : Str → Command
  rset quit : Command

module _ (lib : Libraries) (passwords : Passwords) (config : Config) (conn : Conn lib) where
  -- The authenticator and the submitter, with the time and the id that a message draws.
  unfoldable pub services : ℕ → Str → Services lib Proxy
  services now new_id = record {
    authenticate = λ p username password remote.
        let (later, identity) =
          authenticate_account lib.net passwords p.directory username password remote now in
        (record p { directory = later }, identity);
    submit = λ p sub.
        let (later, id) = submit lib new_id now (references_of p.directory) p.queue sub in
        (record p { queue = later }, id);
  }

  -- A command other than DATA, which leaves the session as it is.
  unfoldable pub command : Session lib → Proxy → Command → ℕ → Session lib × Proxy
  unfolding services
  command s p (auth_plain acting_as username password) now =
      elim (auth lib config conn (codes "PLAIN")) [
        | inl _ ↦ (s, p)
        | inr _ ↦
            let (later, (p', _)) =
              authenticate_plain lib (services now []) config conn s p acting_as username
                password in
            (later, p')
      ]
  command s p (auth_login username password) now = elim (auth lib config conn (codes "LOGIN")) [
    | inl _ ↦ (s, p)
    | inr _ ↦
        let (later, (p', _)) =
          authenticate lib (services now []) config conn s p username password in
        (later, p')
  ]
  command s p (mail_from address) now = ((mail lib config conn s address).0, p)
  command s p (rcpt_to address) now = ((rcpt lib config s address).0, p)
  command s p rset now = (reset lib s, p)
  command s p quit now = (logout lib s, p)

  -- What the session and the proxy's state can be: between two commands, others may change the
  -- latter in any way.
  pub data Reached : Session lib → Proxy → Type 0 where
    opened : (p : Proxy) → Reached (new_session lib) p
    commanded :
        {s : Session lib} {p : Proxy}
        → Reached s p
        → (c : Command) (now : ℕ) → Reached (command s p c now).0 (command s p c now).1
    changed : {s : Session lib} {p : Proxy} → Reached s p → (later : Proxy) → Reached s later

  -- At some moment, the directory held the account, and the client had the password.
  pub record Proven (i : Identity) : Type 0 where
    pub directory : Directory
    pub username : Str
    pub password : Str
    pub proof : Proves lib.net passwords directory username password conn.remote_ip i
    pub private : (conn.encrypted ≡ true) ⊎ (config.allow_insecure_auth ≡ true)

  abbrev KnownIdentity : Option Identity → Type 0
  KnownIdentity none = Unit
  KnownIdentity (some i) = Proven i

  abbrev Known : Session lib → Type 0
  Known s = KnownIdentity s.identity

  abbrev KnownAfter {ℓ} : {B : Type ℓ} → Session lib × B → Type 0
  KnownAfter r = Known r.0

  secured :
      (mech : Str) (m : Mechanism)
      → auth lib config conn mech ≡ inr m
      → (conn.encrypted ≡ true) ⊎ (config.allow_insecure_auth ≡ true)
  unfolding auth
  secured mech m h = elim (Bool-cases conn.encrypted) [ inl e ↦ inl e | inr e ↦ inr (ground arith) ]

  authenticate-Known :
      (s : Session lib) (p : Proxy) (username password : Str) (now : ℕ)
      → (conn.encrypted ≡ true) ⊎ (config.allow_insecure_auth ≡ true)
      → Known s
      → Known (authenticate lib (services now []) config conn s p username password).0
  unfolding authenticate services record_auth_failure
  authenticate-Known s p username password now private k =
      option_cases KnownAfter
        (authenticate_account lib.net passwords p.directory username password conn.remote_ip now).1
        (λ _. k)
        (λ i e. record {
          directory = p.directory;
          username = username;
          password = password;
          proof =
              authenticate-Proves lib.net passwords p.directory username password conn.remote_ip now
                e;
          private = private;
        })

  mail-identity :
      (s : Session lib) (address : Str) → (mail lib config conn s address).0.identity ≡ s.identity
  unfolding mail
  mail-identity s address = ground arith

  rcpt-identity :
      (s : Session lib) (address : Str) → (rcpt lib config s address).0.identity ≡ s.identity
  unfolding rcpt
  rcpt-identity s address = ground arith

  kept : {o o' : Option Identity} → o ≡ o' → KnownIdentity o → KnownIdentity o'
  kept e k = subst KnownIdentity e k

  command-Known :
      (s : Session lib) (p : Proxy) (c : Command) (now : ℕ) → Known s → Known (command s p c now).0
  unfolding command authenticate_plain record_auth_failure reset logout
  command-Known s p (auth_plain acting_as username password) now k =
      by_mechanism (auth lib config conn (codes "PLAIN")) refl
    where
      by_mechanism :
          (o : (List Event × Reply) ⊎ Mechanism)
          → auth lib config conn (codes "PLAIN") ≡ o
          → Known
              (elim o as (λ _. Session lib × Proxy) [
                | inl _ ↦ (s, p)
                | inr _ ↦
                    let (later, (p', _)) =
                      authenticate_plain lib
                        (services now [])
                        config
                        conn
                        s
                        p
                        acting_as
                        username
                        password in
                    (later, p')
              ]).0
      by_mechanism (inl r) e = k
      by_mechanism (inr m) e =
          if_cases KnownAfter (not (length acting_as == 0) && not (str_eq acting_as username))
            (λ _. k)
            (λ _. authenticate-Known s p username password now (secured (codes "PLAIN") m e) k)
  command-Known s p (auth_login username password) now k =
      by_mechanism (auth lib config conn (codes "LOGIN")) refl
    where
      by_mechanism :
          (o : (List Event × Reply) ⊎ Mechanism)
          → auth lib config conn (codes "LOGIN") ≡ o
          → Known
              (elim o as (λ _. Session lib × Proxy) [
                | inl _ ↦ (s, p)
                | inr _ ↦
                    let (later, (p', _)) =
                      authenticate lib (services now []) config conn s p username password in
                    (later, p')
              ]).0
      by_mechanism (inl r) e = k
      by_mechanism (inr m) e =
          authenticate-Known s p username password now (secured (codes "LOGIN") m e) k
  command-Known s p (mail_from address) now k = kept (sym (mail-identity s address)) k
  command-Known s p (rcpt_to address) now k = kept (sym (rcpt-identity s address)) k
  command-Known s p rset now k = k
  command-Known s p quit now k = k

  reached-Known : {s : Session lib} {p : Proxy} → Reached s p → Known s
  unfolding new_session
  reached-Known (opened p) = tt
  reached-Known (commanded {s} {p} r c now) = command-Known s p c now (reached-Known r)
  reached-Known (changed r later) = reached-Known r

  identified : (s : Session lib) {i : Identity} → Known s → s.identity ≡ some i → Proven i
  identified s k e = kept e k

  -- Of every session that a client's commands reach, while others may change the directory and the
  -- queue in any way between two commands: when DATA answers with success, the queue holds the
  -- message of a submission and its body, as the submitter fills them in; the submission was made
  -- for the session's identity and recipients, one at least, from an enabled mailbox with a grant
  -- for the From address; and that identity was proven. At some moment the directory held an
  -- enabled account whose name and password the client gave and which may connect from its address,
  -- and the connection was encrypted, unless the configuration allows authentication without.
  pub data_command-Proven :
      {s : Session lib} {p : Proxy} (r : Reader) (now : ℕ) (stamp new_id : Str)
      → Reached s p
      → (data_command lib (services now new_id) config conn s p r now stamp).1.1 ≡ done
      → (sub : Submission lib) × (id : Str) × IsAuthorized lib s sub
        × Proven sub.identity
        × Stored lib new_id now sub
            (data_command lib (services now new_id) config conn s p r now stamp).0.queue
            id
  unfolding data_command finished Authorized services
  data_command-Proven {s} {p} r now stamp new_id reached h =
      by_preparation (prepare_data lib config conn s r now stamp)
        (prepare_data-Authorized lib config conn s now stamp r) h
    where
      by_preparation :
          (o : Stop ⊎ Submission lib)
          → Authorized lib s o
          → (finished lib (services now new_id) p o).1.1 ≡ done
          → (sub : Submission lib) × (id : Str) × IsAuthorized lib s sub
            × Proven sub.identity
            × Stored lib new_id now sub (finished lib (services now new_id) p o).0.queue id
      by_preparation (inl (stop events reply)) a q = absurd (a q)
      by_preparation (inr sub) a q =
          let (id, e) =
            answered lib new_id now
              (submit lib new_id now (references_of p.directory) p.queue sub).1 q in
          (
            sub,
            id,
            a,
            identified s (reached-Known reached) a.by,
            submit-Stored lib new_id now (references_of p.directory) p.queue sub e,
          )

-- ===== src/App/Queued.antt =====
-- What a client's accepted message becomes: `Data` of internal/smtpsrv/session.go with the submitter
-- of internal/app/submit.go.
use smtp_auth_proxy.Prelude.{ℕ, ◌≡◌, refl, ◌⊎◌, inl, inr, Option, none, some}
use smtp_auth_proxy.Strings.{Str}
use smtp_auth_proxy.Store.Messages.{Db, References, Result, stamped, get, body, ok, err}
use smtp_auth_proxy.Store.Messages.Enqueue.{enqueue_stored}
use smtp_auth_proxy.Smtp.Session.{
  Libraries, Config, Identity, Reader, Conn, Session, Submission, Services, done,
}
use smtp_auth_proxy.Smtp.Session.Data.{Stop, stop, prepare_data, data_command, finished, answer}
use smtp_auth_proxy.Smtp.Session.Submissions.{IsAuthorized, Authorized, prepare_data-Authorized}
use smtp_auth_proxy.App.Submit.{message_of, submit, accepted_id}

module _ (lib : Libraries) (new_id : Str) (clock : ℕ) where
  -- The services of a session: any authenticator that leaves the queue alone, and the submitter.
  abbrev pub services :
      References → (Str → Str → Option lib.net.Ip → Option Identity) → Services lib Db
  services refs authenticate = record {
    authenticate = λ db username password ip. (db, authenticate username password ip);
    submit = submit lib new_id clock refs;
  }

  -- The message is in the queue, with its body.
  pub Stored : Submission lib → Db → Str → Type 0
  Stored sub db id =
      (get db id ≡ ok (stamped (message_of lib sub) new_id clock)) × (body db id ≡ ok sub.raw)

  id_known : (o : Result Str) {id : Str} → accepted_id o ≡ some id → o ≡ ok id
  unfolding accepted_id
  id_known (ok i) h = cc
  id_known (err e) h = cc

  pub submit-Stored :
      (refs : References) (db : Db) (sub : Submission lib) {id : Str}
      → (submit lib new_id clock refs db sub).1 ≡ some id
      → Stored sub (submit lib new_id clock refs db sub).0 id
  unfolding submit Stored
  submit-Stored refs db sub h =
      enqueue_stored refs db (message_of lib sub) sub.raw new_id clock (id_known _ h)

  pub answered : (o : Option Str) → (answer lib o).1 ≡ done → (id : Str) × (o ≡ some id)
  unfolding answer
  answered none h = cc
  answered (some id) h = (id, refl)

  module _ (refs : References)
      (authenticate : Str → Str → Option lib.net.Ip → Option Identity) where
    -- When DATA answers with success, the queue holds the message of a submission, as the submitter
    -- fills it in, and its body, the bytes of that submission; and that submission was made for the
    -- session's identity and recipients, one at least, from an enabled mailbox linked to the
    -- enabled account with a grant for the From address.
    pub data_command-Stored :
        (config : Config) (conn : Conn lib) (s : Session lib) (db : Db) (r : Reader) (now : ℕ)
        (stamp : Str)
        → (data_command lib (services refs authenticate) config conn s db r now stamp).1.1 ≡ done
        → (sub : Submission lib) × (id : Str) × IsAuthorized lib s sub
          × Stored sub
              (data_command lib (services refs authenticate) config conn s db r now stamp).0
              id
    unfolding data_command finished Authorized
    data_command-Stored config conn s db r now stamp h =
        by_preparation (prepare_data lib config conn s r now stamp)
          (prepare_data-Authorized lib config conn s now stamp r) h
      where
        by_preparation :
            (o : Stop ⊎ Submission lib)
            → Authorized lib s o
            → (finished lib (services refs authenticate) db o).1.1 ≡ done
            → (sub : Submission lib) × (id : Str) × IsAuthorized lib s sub
              × Stored sub (finished lib (services refs authenticate) db o).0 id
        by_preparation (inl (stop events reply)) a q = absurd (a q)
        by_preparation (inr sub) a q =
            let (id, e) = answered (submit lib new_id clock refs db sub).1 q in
            (sub, id, a, submit-Stored refs db sub e)

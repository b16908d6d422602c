-- ===== src/Store/Messages/Enqueue.antt =====
-- Storing a submission: `Enqueue` of internal/store/messages.go.
use smtp_auth_proxy.Prelude.{ℕ, ◌≡◌, some, arith, Option, none, List, In}
use smtp_auth_proxy.Strings.{Str, str_eq_refl}
use smtp_auth_proxy.Store.Models.{Message}
use smtp_auth_proxy.Store.Rows.{find}
use smtp_auth_proxy.Store.Messages.{Db, References, ok, stamped, enqueue, get, body}

-- A reference names a row that is there, or none.
abbrev pub Refers : List Str → Option Str → Type 0
Refers ids none = Unit
Refers ids (some id) = In id ids

-- The account and the mailbox that the row names exist.
abbrev pub IsReferring : References → Message → Type 0
IsReferring refs row =
    Refers refs.accounts row.smtp_account_id × Refers refs.mailboxes row.mailbox_id

-- A submission that is stored is stored with its body.
pub enqueue_stored :
    (refs : References) (db : Db) (m : Message) (bytes new_id : Str) (now : ℕ) {id : Str}
    → (enqueue refs db m (some bytes) new_id now).1 ≡ ok id
    → (get (enqueue refs db m (some bytes) new_id now).0 id ≡ ok (stamped m new_id now))
      × (body (enqueue refs db m (some bytes) new_id now).0 id ≡ ok bytes)
unfolding enqueue get body find
enqueue_stored refs db m bytes new_id now h = ground (arith, str_eq_refl (stamped m new_id now).id)

-- ===== src/Bootstrap/Apply/Progress.antt =====
-- What a run of the `Applier` of internal/bootstrap/bootstrap.go keeps, and what its steps share.
use smtp_auth_proxy.Prelude.{
  ℕ, Bool, Option, none, some, List, ◌∷◌, ◌==◌, if◌then◌else◌, length, [],
}
use smtp_auth_proxy.Strings.{Str, codes, str_eq}
use smtp_auth_proxy.Store.Models.{
  AuthType, secret, certificate, Transport, smtp, graph, FromPolicy, reject, rewrite, passthrough,
  ManagedBy, ui, bootstrap,
}
use smtp_auth_proxy.Store.Users.{AdminError, Result, ok, err}
use smtp_auth_proxy.Store.Directory.{Directory}
use smtp_auth_proxy.Bootstrap.{Credential, Mailbox, Account}

pub data BootstrapError : Type 0 where
  no_keys not_sealed missing_credential missing_mailbox : BootstrapError
  store_failed : AdminError → BootstrapError

-- What `Apply` keeps: the database, the maps from names and addresses to ids, `Result`, and how many
-- ids are drawn.
pub record Run : Type 0 where
  pub directory : Directory
  pub credential_ids : List (Str × Str)
  pub mailbox_ids : List (Str × Str)
  pub created : ℕ
  pub updated : ℕ
  pub skipped : ℕ
  pub drawn : ℕ

-- The map's lookup; an assignment puts the entry in front.
unfoldable pub id_of : List (Str × Str) → Str → Option Str
id_of [] name = none
id_of ((n, id) ∷ rest) name = if str_eq n name then some id else id_of rest name

unfoldable pub credential_auth_type : Credential → AuthType
credential_auth_type c = if str_eq c.auth_type (codes "certificate") then certificate else secret

unfoldable pub mailbox_transport : Mailbox → Transport
mailbox_transport m = if str_eq m.transport (codes "graph") then graph else smtp

unfoldable pub account_policy : Account → FromPolicy
account_policy a =
    if str_eq a.from_policy (codes "rewrite")
    then rewrite
    else if str_eq a.from_policy (codes "passthrough")
    then passthrough
    else reject

abbrev pub text_or : Str → Str → Str
text_or s old = if length s == 0 then old else s

-- The count of a step that succeeds, and the error of one that does not.
abbrev pub finish {ℓ} : {A : Type ℓ} → Result A → Run → Run → Run × Option BootstrapError
finish (ok _) counted failed = (counted, none)
finish (err e) counted failed = (failed, some (store_failed e))

abbrev pub managed_by : Bool → ManagedBy
managed_by reconcile = if reconcile then bootstrap else ui

-- A loop of `Apply`, which the first error ends.
unfoldable pub apply_each {ℓ} :
    {A : Type ℓ}
    → (Run → A → Run × Option BootstrapError)
    → Run
    → List A
    → Run × Option BootstrapError
apply_each step r [] = (r, none)
apply_each step r (x ∷ xs) =
    let (later, failure) = step r x in
    let rest = apply_each step later xs in elim failure [ some e ↦ (later, some e) | none ↦ rest ]

abbrev pub fresh_run : Directory → Run
fresh_run dir = record {
  directory = dir;
  credential_ids = [];
  mailbox_ids = [];
  created = 0;
  updated = 0;
  skipped = 0;
  drawn = 0;
}

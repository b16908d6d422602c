-- ===== src/App/Auth/Proof.antt =====
-- What an identity proves: internal/app/auth.go.
use smtp_auth_proxy.Prelude.{
  ℕ, option_cases, ◌≡◌, refl, subst, Bool, true, false, not, Option, none, some, arith,
  if◌then◌else◌, if_cases,
}
use smtp_auth_proxy.Strings.{Str}
use smtp_auth_proxy.Store.Models.{SmtpAccount}
use smtp_auth_proxy.Store.Rows.{find}
use smtp_auth_proxy.Store.Users.{Result, ok, err, not_found}
use smtp_auth_proxy.Store.Directory.{Directory}
use smtp_auth_proxy.Store.Directory.Accounts.{account_name_of, get_account_by_username}
use smtp_auth_proxy.Policy.Source.{Net, check_source_address}
use smtp_auth_proxy.Smtp.Session.{Identity}
use smtp_auth_proxy.Admin.Local.{Passwords}
use smtp_auth_proxy.App.Auth.{authenticate, admit, identity_of}

module _ (net : Net) (passwords : Passwords) where
  -- The identity is that of the stored, enabled account of that name, whose hash is that of the
  -- password, and which may connect from the address.
  pub record Proves (dir : Directory) (username password : Str) (remote : Option net.Ip)
      (i : Identity) : Type 0 where
    pub account : SmtpAccount
    pub stored : find account_name_of username dir.accounts ≡ some account
    pub verified :
        (renew : Bool) × (passwords.verify account.password_hash password ≡ some (true, renew))
    pub on : account.enabled ≡ true
    pub from_here : check_source_address net i.account remote ≡ none
    pub same : i ≡ identity_of dir account

  module _ (dir : Directory) (username password : Str) (remote : Option net.Ip) (now : ℕ) where
    abbrev Proven : Directory × Option Identity → Type 0
    Proven (_, none) = Unit
    Proven (_, some i) = Proves dir username password remote i

    admit-Proven :
        (account : SmtpAccount) (renew : Bool)
        → find account_name_of username dir.accounts ≡ some account
        → passwords.verify account.password_hash password ≡ some (true, renew)
        → Proven (admit net passwords dir account password renew remote now)
    unfolding admit
    admit-Proven account renew f v =
        if_cases Proven (not account.enabled) (λ _. tt)
          (λ on.
            option_cases Proven (check_source_address net (identity_of dir account).account remote)
              (λ c. record {
                account = account;
                stored = f;
                verified = (renew, v);
                on = ground arith;
                from_here = c;
                same = refl;
              })
              (λ _ _. tt))

    answered-Proven :
        (account : SmtpAccount) (o : Option (Bool × Bool))
        → find account_name_of username dir.accounts ≡ some account
        → passwords.verify account.password_hash password ≡ o
        → Proven (elim o [
          | none ↦ (dir, none)
          | some (match, renew) ↦
              if not match
              then (dir, none)
              else admit net passwords dir account password renew remote now
        ])
    answered-Proven account none f v = tt
    answered-Proven account (some (false, renew)) f v = tt
    answered-Proven account (some (true, renew)) f v = admit-Proven account renew f v

    authenticate-Proven : Proven (authenticate net passwords dir username password remote now)
    unfolding authenticate get_account_by_username
    authenticate-Proven = by_account (find account_name_of username dir.accounts) refl
      where
        by_account :
            (o : Option SmtpAccount)
            → find account_name_of username dir.accounts ≡ o
            → Proven
                (elim (elim o as (λ _. Result SmtpAccount) [
                  | none ↦ err not_found
                  | some a ↦ ok a
                ]) [
                  | err e ↦ (dir, none)
                  | ok account ↦ elim (passwords.verify account.password_hash password) [
                    | none ↦ (dir, none)
                    | some (match, renew) ↦
                        if not match
                        then (dir, none)
                        else admit net passwords dir account password renew remote now
                  ]
                ])
        by_account none f = tt
        by_account (some account) f =
            answered-Proven account (passwords.verify account.password_hash password) f refl

  pub authenticate-Proves :
      (dir : Directory) (username password : Str) (remote : Option net.Ip) (now : ℕ) {i : Identity}
      → (authenticate net passwords dir username password remote now).1 ≡ some i
      → Proves dir username password remote i
  authenticate-Proves dir username password remote now {i} h =
      by_answer (authenticate net passwords dir username password remote now)
        (authenticate-Proven dir username password remote now) h
    where
      by_answer :
          (r : Directory × Option Identity)
          → Proven dir username password remote now r
          → r.1 ≡ some i
          → Proves dir username password remote i
      by_answer (later, none) p e = cc
      by_answer (later, some j) p e = subst (Proves dir username password remote) (some_inj e) p
        where
          some_inj : some j ≡ some i → j ≡ i
          some_inj q = cc

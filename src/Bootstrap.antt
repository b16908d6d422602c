-- ===== src/Bootstrap.antt =====
-- The declarative file of credentials, mailboxes and accounts, and what is wrong with one:
-- internal/bootstrap/bootstrap.go. Reading the file, its expansion and its decoding come before.
pub mod Apply
pub mod Validation
mod Examples
use smtp_auth_proxy.Prelude.{
  ℕ, ◌+◌, Bool, true, false, not, ◌&&◌, ◌||◌, List, ◌∷◌, ◌++◌, ltb, ◌==◌, if◌then◌else◌, is_some,
  length, [],
}
use smtp_auth_proxy.Strings.{Str, codes, str_eq, to_lower, equal_fold, cut_prefix}
use smtp_auth_proxy.Store.Models.{ℤ, pos, negsuc}
use smtp_auth_proxy.Store.Rows.{any}
use smtp_auth_proxy.Policy.Address.{Mail, parse_address, validate_pattern, ok, err}

pub record Credential : Type 0 where
  pub name : Str
  pub tenant_id : Str
  pub client_id : Str
  pub auth_type : Str
  pub client_secret : Str
  pub certificate_pem : Str
  pub certificate_key_pem : Str
  pub authority_host : Str

pub record Mailbox : Type 0 where
  pub address : Str
  pub display_name : Str
  pub credential : Str
  pub transport : Str
  pub rate_limit_per_min : ℤ
  pub max_concurrent : ℤ
  pub disabled : Bool

pub record Account : Type 0 where
  pub username : Str
  pub description : Str
  pub password_hash : Str
  pub mailboxes : List Str
  pub default_mailbox : Str
  pub allowed_senders : List Str
  pub from_policy : Str
  pub allow_cidrs : List Str
  pub rate_limit_per_min : ℤ
  pub disabled : Bool

pub record File : Type 0 where
  pub credentials : List Credential
  pub mailboxes : List Mailbox
  pub accounts : List Account

-- The problems, without the text, and the index that the message names.
pub data Problem : Type 0 where
  name_required declared_twice tenant_required client_required secret_required certificate_required
        unknown_auth_type :
      ℕ → Problem
  address_required address_twice bad_address credential_required unknown_transport rate_too_high
        too_concurrent :
      ℕ → Problem
  username_required username_twice hash_required not_a_hash unknown_policy bad_pattern
        default_not_listed :
      ℕ → Problem

abbrev pub problem_if : Bool → Problem → List Problem
problem_if wrong p = if wrong then p ∷ [] else []

abbrev is_blank : Str → Bool
is_blank s = length s == 0

abbrev is_one_of : Str → List Str → Bool
is_one_of s texts = any (str_eq s) texts

-- The switch on the kind of a credential.
unfoldable pub material_problems : Credential → ℕ → List Problem
material_problems c i =
    if is_blank c.auth_type || str_eq c.auth_type (codes "secret")
    then problem_if (is_blank c.client_secret) (secret_required i)
    else if str_eq c.auth_type (codes "certificate")
    then problem_if (is_blank c.certificate_pem || is_blank c.certificate_key_pem)
        (certificate_required i)
    else unknown_auth_type i ∷ []

-- The loops of `validate`, with the names so far.
unfoldable pub credential_problems : List Credential → List Str → ℕ → List Problem
unfolding material_problems
credential_problems [] names i = []
credential_problems (c ∷ rest) names i =
    problem_if (is_blank c.name) (name_required i)
    ++ problem_if (not (is_blank c.name) && is_one_of c.name names) (declared_twice i)
    ++ problem_if (is_blank c.tenant_id) (tenant_required i)
    ++ problem_if (is_blank c.client_id) (client_required i)
    ++ material_problems c i
    ++ credential_problems rest (c.name ∷ names) (i + 1)

abbrev exceeds : ℤ → ℕ → Bool
exceeds (pos n) most = ltb most n
exceeds (negsuc _) most = false

abbrev pub is_address : Mail → Str → Bool
is_address mail s = elim (parse_address mail s) [ ok _ ↦ true | err _ ↦ false ]

-- A mailbox without an address ends its turn.
unfoldable pub mailbox_problems : Mail → List Mailbox → List Str → ℕ → List Problem
mailbox_problems mail [] addresses i = []
mailbox_problems mail (m ∷ rest) addresses i =
    let normalized = to_lower m.address in
    let without = mailbox_problems mail rest addresses (i + 1) in
    let with_it = mailbox_problems mail rest (normalized ∷ addresses) (i + 1) in
    if is_blank m.address
    then address_required i ∷ without
    else problem_if (is_one_of normalized addresses) (address_twice i)
      ++ problem_if (not (is_address mail m.address)) (bad_address i)
      ++ problem_if (is_blank m.credential) (credential_required i)
      ++ problem_if (not (is_one_of m.transport ([] ∷ codes "smtp" ∷ codes "graph" ∷ [])))
          (unknown_transport i)
      ++ problem_if (exceeds m.rate_limit_per_min 30) (rate_too_high i)
      ++ problem_if (exceeds m.max_concurrent 3) (too_concurrent i)
      ++ with_it

abbrev pub is_hash : Str → Bool
is_hash s = is_some (cut_prefix s (codes "$argon2id$"))

unfoldable pub pattern_problems : Mail → List Str → ℕ → List Problem
pattern_problems mail [] i = []
pattern_problems mail (p ∷ ps) i =
    problem_if (is_some (validate_pattern mail p)) (bad_pattern i) ++ pattern_problems mail ps i

-- One account with a name; the loop over its mailboxes reports nothing.
unfoldable pub account_faults : Mail → Account → List Str → ℕ → List Problem
unfolding pattern_problems
account_faults mail a names i =
    problem_if (is_one_of a.username names) (username_twice i)
    ++ problem_if (is_blank a.password_hash) (hash_required i)
    ++ problem_if (not (is_blank a.password_hash) && not (is_hash a.password_hash)) (not_a_hash i)
    ++ problem_if
        (not (
          is_one_of a.from_policy
            ([] ∷ codes "reject" ∷ codes "rewrite" ∷ codes "passthrough" ∷ [])))
        (unknown_policy i)
    ++ pattern_problems mail a.allowed_senders i
    ++ problem_if
        (not (is_blank a.default_mailbox)
          && ltb 0 (length a.mailboxes)
          && not (any (λ m. equal_fold m a.default_mailbox) a.mailboxes))
        (default_not_listed i)

unfoldable pub account_problems : Mail → List Account → List Str → ℕ → List Problem
unfolding account_faults
account_problems mail [] names i = []
account_problems mail (a ∷ rest) names i =
    let without = account_problems mail rest names (i + 1) in
    let with_it = account_problems mail rest (a.username ∷ names) (i + 1) in
    if is_blank a.username
    then username_required i ∷ without
    else account_faults mail a names i ++ with_it

-- `validate`: every problem; none is the nil error.
unfoldable pub validate : Mail → File → List Problem
unfolding credential_problems mailbox_problems account_problems
validate mail f =
    credential_problems f.credentials [] 0
    ++ mailbox_problems mail f.mailboxes [] 0
    ++ account_problems mail f.accounts [] 0

-- ===== src/Policy/Resolve.antt =====
-- The decision on one submission: internal/policy/resolve.go.
pub mod Safety
use smtp_auth_proxy.Prelude.{
  ℕ, ◌-◌, Bool, true, false, not, ◌||◌, Option, none, some, List, ◌∷◌, ◌++◌, ltb, ◌==◌,
  if◌then◌else◌, length, take, [],
}
use smtp_auth_proxy.Strings.{Str, str_eq, equal_fold, codes, join, decimal}
use smtp_auth_proxy.Store.Models.{
  Mailbox, FromPolicy, reject as reject_policy, rewrite, passthrough, other, SmtpAccount,
  AllowedSender,
}
use smtp_auth_proxy.Policy.Address.{Address, empty, is_empty, matches_pattern}

pub data Action : Type 0 where
  accepted rewritten rejected : Action

pub record Decision : Type 0 where
  pub action : Action
  pub mailbox : Option Mailbox
  pub rewrite_from : Str
  pub original_from : Address
  pub code : ℕ
  pub enhanced : Str
  pub reason : Str

abbrev pub is_rejected : Action → Bool
is_rejected rejected = true
is_rejected _ = false

pub record Account : Type 0 where
  pub id : Str
  pub username : Str
  pub enabled : Bool
  pub policy : FromPolicy
  pub default_mailbox_id : Str
  pub allowed_senders : List Str
  pub allow_cidrs : List Str

pub record Input : Type 0 where
  pub account : Account
  pub mailboxes : List Mailbox
  pub envelope_from : Address
  pub header_from : Address

unfoldable pub reject : ℕ → Str → Str → Decision
reject code enhanced reason = record {
  action = rejected;
  mailbox = none;
  rewrite_from = [];
  original_from = empty;
  code = code;
  enhanced = enhanced;
  reason = reason;
}

unfoldable pub accept : Mailbox → Address → Decision
accept mb from = record {
  action = accepted;
  mailbox = some mb;
  rewrite_from = [];
  original_from = from;
  code = 0;
  enhanced = [];
  reason = [];
}

unfoldable pub accept_rewritten : Mailbox → Address → Decision
accept_rewritten mb from = record {
  action = rewritten;
  mailbox = some mb;
  rewrite_from = mb.address;
  original_from = from;
  code = 0;
  enhanced = [];
  reason = [];
}

unfoldable pub match_mailbox : List Mailbox → Str → Option Mailbox
match_mailbox [] normalized = none
match_mailbox (mb ∷ rest) normalized =
    if equal_fold mb.address normalized then some mb else match_mailbox rest normalized

unfoldable pub find_mailbox : List Mailbox → Str → Option Mailbox
find_mailbox [] id = none
find_mailbox (mb ∷ rest) id = if str_eq mb.id id then some mb else find_mailbox rest id

-- `defaultMailbox`, on the list with the head `first`: the callers have a list that is not empty.
unfoldable pub default_mailbox : Mailbox → List Mailbox → Str → Mailbox
default_mailbox first rest id =
    if length id == 0
    then first
    else elim (find_mailbox (first ∷ rest) id) [ none ↦ first | some mb ↦ mb ]

unfoldable pub matches_any : Str → List Str → Bool
matches_any normalized [] = false
matches_any normalized (p ∷ patterns) =
    matches_pattern normalized p || matches_any normalized patterns

abbrev max_listed : ℕ
max_listed = 5

addresses : List Mailbox → List Str
addresses [] = []
addresses (mb ∷ rest) = mb.address ∷ addresses rest

unfoldable pub describe_allowed : List Mailbox → List Str → Str
unfolding addresses
describe_allowed mailboxes patterns =
    let parts = addresses mailboxes ++ patterns in
    if ltb max_listed (length parts)
    then join (codes ", ") (take max_listed parts)
      ++ (codes " and " ++ (decimal (length parts - max_listed) ++ codes " more"))
    else join (codes ", ") parts

unfoldable pub disabled_mailbox : Mailbox → Decision
unfolding reject
disabled_mailbox mb =
    reject 550 (codes "5.7.1") (codes "the mailbox " ++ (mb.address ++ codes " is disabled"))

-- `mb` is the default mailbox.
unfoldable pub apply_from_policy : FromPolicy → Mailbox → Input → Decision
unfolding reject accept accept_rewritten disabled_mailbox
apply_from_policy rewrite mb input =
    if not mb.enabled then disabled_mailbox mb else accept_rewritten mb input.header_from
apply_from_policy passthrough mb input =
    if not mb.enabled then disabled_mailbox mb else accept mb input.header_from
apply_from_policy reject_policy mb input = reject 550 (codes "5.7.1") (
    codes "this account may not send as "
    ++ (input.header_from.original
        ++ (codes "; allowed senders are: "
            ++ describe_allowed input.mailboxes input.account.allowed_senders)))
apply_from_policy (other name) mb input =
    reject 451 (codes "4.3.5")
      (codes "the sender policy \"" ++ (name ++ codes "\" is not understood by this version"))

-- What follows the checks on the account and on the header.
unfoldable pub resolve_sender : Mailbox → List Mailbox → Input → Decision
unfolding accept disabled_mailbox apply_from_policy
resolve_sender first rest input = elim (match_mailbox (first ∷ rest) input.header_from.normalized) [
  | some mb ↦ if not mb.enabled then disabled_mailbox mb else accept mb input.header_from
  | none ↦
      let mb = default_mailbox first rest input.account.default_mailbox_id in
      if matches_any input.header_from.normalized input.account.allowed_senders
      then (if not mb.enabled then disabled_mailbox mb else accept mb input.header_from)
      else apply_from_policy input.account.policy mb input
]

abbrev no_mailboxes : Str
no_mailboxes =
    codes "this account is not linked to any mailbox; grant it one in the admin interface"

unfoldable pub resolve_linked : List Mailbox → Input → Decision
unfolding reject resolve_sender
resolve_linked [] input = reject 550 (codes "5.7.1") no_mailboxes
resolve_linked (first ∷ rest) input =
    if is_empty input.header_from
    then reject 550 (codes "5.7.1") (codes "the message has no From header")
    else resolve_sender first rest input

unfoldable pub resolve : Input → Decision
unfolding reject resolve_linked
resolve input =
    if not input.account.enabled
    then reject 550 (codes "5.7.1") (codes "this account is disabled")
    else resolve_linked input.mailboxes input

patterns_of : List AllowedSender → List Str
patterns_of [] = []
patterns_of (s ∷ rest) = s.pattern ∷ patterns_of rest

unfoldable pub account_from_store : SmtpAccount → List AllowedSender → Account
unfolding patterns_of
account_from_store a allowed = record {
  id = a.id;
  username = a.username;
  enabled = a.enabled;
  policy = a.from_policy;
  default_mailbox_id = elim a.default_mailbox_id [ none ↦ [] | some id ↦ id ];
  allowed_senders = patterns_of allowed;
  allow_cidrs = a.allow_cidrs;
}

-- ===== src/Policy/Resolve/Safety.antt =====
-- What a decision promises: `Resolve` of internal/policy/resolve.go.
use smtp_auth_proxy.Prelude.{
  ◌≡◌, refl, sym, subst, ◌⊎◌, inl, inr, Bool, true, false, not, Option, none, some, List, ◌∷◌, ◌==◌,
  if◌then◌else◌, if_cases, Bool-cases, length, In, In-head, [],
}
use smtp_auth_proxy.Strings.{Str, str_eq, equal_fold}
use smtp_auth_proxy.Store.Models.{
  Mailbox, FromPolicy, reject as reject_policy, rewrite, passthrough, other,
}
use smtp_auth_proxy.Policy.Address.{is_empty}
use smtp_auth_proxy.Policy.Resolve.{
  Action, Decision, Input, accepted, rewritten, rejected, reject, accept, accept_rewritten,
  disabled_mailbox, match_mailbox, find_mailbox, default_mailbox, matches_any, apply_from_policy,
  resolve_sender, resolve_linked, resolve,
}

match_mailbox-In :
    (mailboxes : List Mailbox) (normalized : Str) {mb : Mailbox}
    → match_mailbox mailboxes normalized ≡ some mb
    → In mb mailboxes × (equal_fold mb.address normalized ≡ true)
unfolding match_mailbox
match_mailbox-In [] normalized h = cc
match_mailbox-In (x ∷ rest) normalized {mb} h =
    elim (Bool-cases (equal_fold x.address normalized)) [
      | inl e ↦ let same = head (rw e at h) in (In-head same, rw same e)
      | inr e ↦ let (i, q) = match_mailbox-In rest normalized (rw e at h) in (In.there i, q)
    ]
  where
    head : some x ≡ some mb → mb ≡ x
    head q = cc

find_mailbox-In :
    (mailboxes : List Mailbox) (id : Str) {mb : Mailbox}
    → find_mailbox mailboxes id ≡ some mb
    → In mb mailboxes
unfolding find_mailbox
find_mailbox-In [] id h = cc
find_mailbox-In (x ∷ rest) id {mb} h = elim (Bool-cases (str_eq x.id id)) [
  | inl e ↦ In-head (head (rw e at h))
  | inr e ↦ In.there (find_mailbox-In rest id (rw e at h))
]
  where
    head : some x ≡ some mb → mb ≡ x
    head q = cc

default_mailbox-In :
    (first : Mailbox) (rest : List Mailbox) (id : Str)
    → In (default_mailbox first rest id) (first ∷ rest)
unfolding default_mailbox
default_mailbox-In first rest id =
    if_cases (λ mb. In mb (first ∷ rest)) (length id == 0) (λ _. In.here)
      (λ _. found (find_mailbox (first ∷ rest) id) refl)
  where
    found :
        (o : Option Mailbox)
        → find_mailbox (first ∷ rest) id ≡ o
        → In (elim o [ none ↦ first | some mb ↦ mb ]) (first ∷ rest)
    found none e = In.here
    found (some mb) e = find_mailbox-In (first ∷ rest) id e

-- The grant behind a decision: the sender's own mailbox, an allowed sender, or the account's policy.
pub data Grant (input : Input) (mb : Mailbox) : Action → Type 0 where
  own : equal_fold mb.address input.header_from.normalized ≡ true → Grant input mb accepted
  allowed :
      matches_any input.header_from.normalized input.account.allowed_senders ≡ true
      → Grant input mb accepted
  passed : input.account.policy ≡ passthrough → Grant input mb accepted
  rewriting : input.account.policy ≡ rewrite → Grant input mb rewritten

-- A decision that lets the message through names a mailbox of the account that is enabled, and has
-- a grant; a rejection names none.
pub data IsSound (input : Input) (d : Decision) : Type 0 where
  through :
      (mb : Mailbox)
      → d.mailbox ≡ some mb
      → In mb input.mailboxes
      → mb.enabled ≡ true
      → input.account.enabled ≡ true
      → is_empty input.header_from ≡ false
      → d.original_from ≡ input.header_from
      → Grant input mb d.action
      → IsSound input d
  refused :
      d.action ≡ rejected
      → d.mailbox ≡ none
      → (d.code ≡ 550) ⊎ ((d.code ≡ 451) × ((name : Str) × (input.account.policy ≡ other name)))
      → IsSound input d

not-false : (b : Bool) → not b ≡ false → b ≡ true
not-false true h = refl
not-false false h = cc

refusal : (input : Input) (enhanced reason : Str) → IsSound input (reject 550 enhanced reason)
unfolding reject
refusal input enhanced reason = refused refl refl (inl refl)

module _ (input : Input) (on : input.account.enabled ≡ true)
    (from : is_empty input.header_from ≡ false) where
  accept-IsSound :
      (mb : Mailbox)
      → In mb input.mailboxes
      → Grant input mb accepted
      → IsSound input (if not mb.enabled then disabled_mailbox mb else accept mb input.header_from)
  unfolding disabled_mailbox accept
  accept-IsSound mb i g =
      if_cases (IsSound input) (not mb.enabled) (λ _. refusal input _ _)
        (λ e. through mb refl i (not-false mb.enabled e) on from refl g)

  rewrite-IsSound :
      (mb : Mailbox)
      → In mb input.mailboxes
      → input.account.policy ≡ rewrite
      → IsSound input
          (if not mb.enabled then disabled_mailbox mb else accept_rewritten mb input.header_from)
  unfolding disabled_mailbox accept_rewritten
  rewrite-IsSound mb i p =
      if_cases (IsSound input) (not mb.enabled) (λ _. refusal input _ _)
        (λ e. through mb refl i (not-false mb.enabled e) on from refl (rewriting p))

  policy-IsSound :
      (policy : FromPolicy) (mb : Mailbox)
      → input.account.policy ≡ policy
      → In mb input.mailboxes
      → IsSound input (apply_from_policy policy mb input)
  unfolding apply_from_policy
  policy-IsSound rewrite mb p i = rewrite-IsSound mb i p
  policy-IsSound passthrough mb p i = accept-IsSound mb i (passed p)
  policy-IsSound reject_policy mb p i = refusal input _ _
  policy-IsSound (other name) mb p i = unfold reject in refused refl refl (inr (refl, (name, p)))

  sender-IsSound :
      (first : Mailbox) (rest : List Mailbox)
      → input.mailboxes ≡ first ∷ rest
      → IsSound input (resolve_sender first rest input)
  unfolding resolve_sender
  sender-IsSound first rest l = go (match_mailbox (first ∷ rest) input.header_from.normalized) refl
    where
      linked : {mb : Mailbox} → In mb (first ∷ rest) → In mb input.mailboxes
      linked {mb} i = subst (λ mbs. In mb mbs) (sym l) i

      default : Mailbox
      default = default_mailbox first rest input.account.default_mailbox_id

      default_linked : In default input.mailboxes
      default_linked = linked (default_mailbox-In first rest input.account.default_mailbox_id)

      go :
          (o : Option Mailbox)
          → match_mailbox (first ∷ rest) input.header_from.normalized ≡ o
          → IsSound input (elim o [
            | some mb ↦ if not mb.enabled then disabled_mailbox mb else accept mb input.header_from
            | none ↦
                if matches_any input.header_from.normalized input.account.allowed_senders
                then (if not default.enabled
                    then disabled_mailbox default
                    else accept default input.header_from)
                else apply_from_policy input.account.policy default input
          ])
      go (some mb) e =
          let (i, q) = match_mailbox-In (first ∷ rest) input.header_from.normalized e in
          accept-IsSound mb (linked i) (own q)
      go none e =
          if_cases (IsSound input)
            (matches_any input.header_from.normalized input.account.allowed_senders)
            (λ a. accept-IsSound default default_linked (allowed a))
            (λ _. policy-IsSound input.account.policy default refl default_linked)

-- Whatever the account, its mailboxes and the From address, a decision that lets a message through
-- names an enabled mailbox that is linked to the enabled account, for a From address that is not
-- empty, and has a grant: the address is the mailbox's own, an allowed sender matches it, or the
-- account's policy passes it through or rewrites it. A rejection names no mailbox; its code is 550,
-- or 451 when the policy is one that the program does not know.
pub resolve-IsSound : (input : Input) → IsSound input (resolve input)
unfolding resolve
resolve-IsSound input =
    if_cases (IsSound input) (not input.account.enabled) (λ _. refusal input _ _)
      (λ on. linked_sound (not-false _ on) input.mailboxes refl)
  where
    linked_sound :
        input.account.enabled ≡ true
        → (mailboxes : List Mailbox) → input.mailboxes ≡ mailboxes
        → IsSound input (resolve_linked mailboxes input)
    linked_sound on [] l = refusal input _ _
    linked_sound on (first ∷ rest) l =
        if_cases (IsSound input) (is_empty input.header_from) (λ _. refusal input _ _)
          (λ from. sender-IsSound input on from first rest l)

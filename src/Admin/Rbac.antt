-- ===== src/Admin/Rbac.antt =====
-- What a role may do: internal/adminauth/rbac.go.
use smtp_auth_proxy.Prelude.{
  ℕ, ◌≤◌, ◌≡◌, refl, ◌≢◌, ◌↔◌, inl, inr, Bool, true, false, Option, none, some, List, ◌∷◌, arith,
  if◌then◌else◌, if_cases, Bool-cases, In, In-cons, In-head, [],
}
use smtp_auth_proxy.Store.Models.{Role, admin, operator, viewer, unknown_role}
use smtp_auth_proxy.Strings.{Str, str_eq, codes}

pub data Permission : Type 0 where
  run_diagnostics view_status view_config view_audit : Permission
  manage_queue read_message_body : Permission
  manage_accounts manage_mailboxes manage_credentials manage_users manage_settings : Permission

-- The table `rolePermissions`; a missing entry is false.
unfoldable pub can : Role → Permission → Bool
can viewer view_status = true
can viewer view_config = true
can viewer _ = false
can operator run_diagnostics = true
can operator view_status = true
can operator view_config = true
can operator view_audit = true
can operator manage_queue = true
can operator _ = false
can admin run_diagnostics = true
can admin view_status = true
can admin view_config = true
can admin view_audit = true
can admin manage_queue = true
can admin read_message_body = true
can admin manage_accounts = true
can admin manage_mailboxes = true
can admin manage_credentials = true
can admin manage_users = true
can admin manage_settings = true
can (unknown_role _) _ = false

abbrev pub all_permissions : List Permission
all_permissions =
    run_diagnostics ∷ view_status ∷ view_config ∷ view_audit ∷ manage_queue ∷ read_message_body
    ∷ manage_accounts ∷ manage_mailboxes ∷ manage_credentials ∷ manage_users ∷ manage_settings ∷ []

-- Most privileged first.
abbrev pub all_roles : List Role
all_roles = admin ∷ operator ∷ viewer ∷ []

unfoldable pub granted : Role → List Permission → List Permission
unfolding can
granted role [] = []
granted role (p ∷ rest) = let later = granted role rest in if can role p then p ∷ later else later

unfoldable pub permissions_for : Role → List Permission
unfolding granted
permissions_for role = granted role all_permissions

-- `none` is the error.
unfoldable pub parse_role : Str → Option Role
parse_role s =
    if str_eq s (codes "viewer")
    then some viewer
    else if str_eq s (codes "operator")
    then some operator
    else if str_eq s (codes "admin")
    then some admin
    else none

-- How privileged a role is: a role that the program does not know is the least.
unfoldable pub rank : Role → ℕ
rank admin = 3
rank operator = 2
rank viewer = 1
rank (unknown_role _) = 0

can_admin : (p : Permission) → can admin p ≡ true
unfolding can
can_admin p = elim p as (λ q. can admin q ≡ true) [
  | run_diagnostics ↦ refl
  | view_status ↦ refl
  | view_config ↦ refl
  | view_audit ↦ refl
  | manage_queue ↦ refl
  | read_message_body ↦ refl
  | manage_accounts ↦ refl
  | manage_mailboxes ↦ refl
  | manage_credentials ↦ refl
  | manage_users ↦ refl
  | manage_settings ↦ refl
]

viewer→operator : (p : Permission) → can viewer p ≡ true → can operator p ≡ true
unfolding can
viewer→operator p = elim p as (λ q. can viewer q ≡ true → can operator q ≡ true) [
  | view_status ↦ λ c. refl
  | view_config ↦ λ c. refl
  | _ ↦ λ c. cc
]

-- A role may do whatever a role of a lower or the same rank may do, with admin above operator above
-- viewer, and a role that the program does not know, of the lowest rank, may do nothing.
pub can_mono :
    (r q : Role) (p : Permission)
    → rank r ≤ rank q
    → can r p ≡ true
    → (can q p ≡ true) × (rank r ≢ 0)
unfolding rank can
can_mono (unknown_role _) q p h c = cc
can_mono viewer (unknown_role _) p h c = ground arith
can_mono viewer viewer p h c = (c, λ z. ground arith)
can_mono viewer operator p h c = (viewer→operator p c, λ z. ground arith)
can_mono operator (unknown_role _) p h c = ground arith
can_mono operator viewer p h c = ground arith
can_mono operator operator p h c = (c, λ z. ground arith)
can_mono admin (unknown_role _) p h c = ground arith
can_mono admin viewer p h c = ground arith
can_mono admin operator p h c = ground arith
can_mono viewer admin p h c = (can_admin p, λ z. ground arith)
can_mono operator admin p h c = (can_admin p, λ z. ground arith)
can_mono admin admin p h c = (c, λ z. ground arith)

granted→can :
    (role : Role) (ps : List Permission) {p : Permission}
    → In p (granted role ps)
    → can role p ≡ true
unfolding granted
granted→can role [] i = elim i [ ]
granted→can role (q ∷ ps) {p} i = elim (Bool-cases (can role q)) [
  | inl c ↦ elim (In-cons (taken c)) [ inl e ↦ cc | inr k ↦ granted→can role ps k ]
  | inr c ↦ granted→can role ps (left c)
]
  where
    taken : can role q ≡ true → In p (q ∷ granted role ps)
    taken c = rw c at i

    left : can role q ≡ false → In p (granted role ps)
    left c = rw c at i

can→granted :
    (role : Role) (ps : List Permission) {p : Permission}
    → In p ps
    → can role p ≡ true
    → In p (granted role ps)
unfolding granted
can→granted role [] i c = elim i [ ]
can→granted role (q ∷ ps) {p} i c = elim (In-cons i) [
  | inl e ↦ rw (head e) (In-head e)
  | inr k ↦
      if_cases (In p) (can role q) (λ _. In.there (can→granted role ps k c))
        (λ _. can→granted role ps k c)
]
  where
    head : p ≡ q → can role q ≡ true
    head e = cc

all_listed : (p : Permission) → In p all_permissions
all_listed p = elim p as (λ q. In q all_permissions) [
  | run_diagnostics ↦ In.here
  | view_status ↦ In.there (In.here)
  | view_config ↦ In.there (In.there (In.here))
  | view_audit ↦ In.there (In.there (In.there (In.here)))
  | manage_queue ↦ In.there (In.there (In.there (In.there (In.here))))
  | read_message_body ↦ In.there (In.there (In.there (In.there (In.there (In.here)))))
  | manage_accounts ↦ In.there (In.there (In.there (In.there (In.there (In.there (In.here))))))
  | manage_mailboxes ↦
      In.there (In.there (In.there (In.there (In.there (In.there (In.there (In.here)))))))
  | manage_credentials ↦
      In.there
        (In.there (In.there (In.there (In.there (In.there (In.there (In.there (In.here))))))))
  | manage_users ↦ In.there (
      In.there
        (In.there (In.there (In.there (In.there (In.there (In.there (In.there (In.here)))))))))
  | manage_settings ↦ In.there (
      In.there (
        In.there
          (In.there (In.there (In.there (In.there (In.there (In.there (In.there (In.here))))))))))
]

-- The permissions that are listed for a role are exactly those that it holds.
pub permissions_for_iff :
    (role : Role) (p : Permission) → (In p (permissions_for role)) ↔ (can role p ≡ true)
unfolding permissions_for
permissions_for_iff role p = (
  λ i. granted→can role all_permissions i,
  λ c. can→granted role all_permissions (all_listed p) c,
)

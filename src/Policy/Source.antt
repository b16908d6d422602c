-- ===== src/Policy/Source.antt =====
-- Where an account may connect from: `CheckSourceAddress` of internal/policy/resolve.go.
use smtp_auth_proxy.Prelude.{
  ◌≡◌, refl, ◌↔◌, ◌⊎◌, inl, inr, Bool, true, false, Option, none, some, List, ◌∷◌, arith, ◌==◌,
  if◌then◌else◌, Bool-cases, Option-cases, length, [],
}
use smtp_auth_proxy.Strings.{Str}
use smtp_auth_proxy.Policy.Resolve.{Account}

-- Go's `net`: `ParseCIDR`, `Contains` of the network it returns, and the text of an address. They are the standard
-- library's; nothing is assumed of them.
pub record Net : Type 1 where
  pub Ip : Type 0
  pub Network : Type 0
  pub parse_cidr : Str → Option Network
  pub contains : Network → Ip → Bool
  pub show_ip : Ip → Str

-- The texts of the errors are left out.
pub data SourceError : Type 0 where
  unknown_address not_allowed : SourceError
  invalid_network : Str → SourceError

module _ (net : Net) where
  -- The loop over the networks; `none` is the source's nil error.
  unfoldable pub check_networks : List Str → net.Ip → Option SourceError
  check_networks [] ip = some not_allowed
  check_networks (raw ∷ rest) ip =
      let later = check_networks rest ip in
      elim (net.parse_cidr raw) [
        | none ↦ some (invalid_network raw)
        | some network ↦ if net.contains network ip then none else later
      ]

  unfoldable pub check_source_address : Account → Option net.Ip → Option SourceError
  check_source_address account ip = if length account.allow_cidrs == 0 then none else elim ip [
    | none ↦ some unknown_address
    | some known ↦ check_networks account.allow_cidrs known
  ]

  -- `raw` is a network that holds the address, and the ones before it are networks that do not.
  pub data Reaches (ip : net.Ip) : List Str → Type 0 where
    here :
        (raw : Str) (rest : List Str) (network : net.Network)
        → net.parse_cidr raw ≡ some network
        → net.contains network ip ≡ true
        → Reaches ip (raw ∷ rest)
    after :
        (raw : Str) (rest : List Str) (network : net.Network)
        → net.parse_cidr raw ≡ some network
        → Reaches ip rest
        → Reaches ip (raw ∷ rest)

  check-Reaches :
      (networks : List Str) (ip : net.Ip) → check_networks networks ip ≡ none → Reaches ip networks
  unfolding check_networks
  check-Reaches [] ip h = cc
  check-Reaches (raw ∷ rest) ip h = elim (Option-cases (net.parse_cidr raw)) [
    | inl e ↦ absurd (bad e)
    | inr (network, e) ↦ elim (Bool-cases (net.contains network ip)) [
      | inl c ↦ here raw rest network e c
      | inr c ↦ after raw rest network e (check-Reaches rest ip (later network e c))
    ]
  ]
    where
      bad : net.parse_cidr raw ≡ none → ⊥
      bad e = ground arith

      later :
          (network : net.Network)
          → net.parse_cidr raw ≡ some network
          → net.contains network ip ≡ false
          → check_networks rest ip ≡ none
      later network e c = ground arith

  Reaches-check :
      (networks : List Str) (ip : net.Ip) → Reaches ip networks → check_networks networks ip ≡ none
  unfolding check_networks
  Reaches-check [] ip r = elim r [ ]
  Reaches-check (raw ∷ rest) ip (here _ _ network e c) = ground arith
  Reaches-check (raw ∷ rest) ip (after _ _ network e r) =
      let later = Reaches-check rest ip r in ground arith

  allowed→Reaches :
      (account : Account) (ip : Option net.Ip)
      → check_source_address account ip ≡ none
      → (account.allow_cidrs ≡ [])
        ⊎ ((known : net.Ip) × (ip ≡ some known) × Reaches known account.allow_cidrs)
  unfolding check_source_address
  allowed→Reaches account ip h = elim (nil_or account.allow_cidrs) [
    | inl e ↦ inl e
    | inr e ↦ elim (Option-cases ip) [
      | inl u ↦ absurd (unknown e u)
      | inr (known, k) ↦ inr (known, k, check-Reaches account.allow_cidrs known (loop e k))
    ]
  ]
    where
      nil_or : (xs : List Str) → (xs ≡ []) ⊎ ((length xs == 0) ≡ false)
      nil_or [] = inl refl
      nil_or (x ∷ xs) = inr (ground arith)

      unknown : (length account.allow_cidrs == 0) ≡ false → ip ≡ none → ⊥
      unknown e u = ground arith

      loop :
          {known : net.Ip}
          → (length account.allow_cidrs == 0) ≡ false
          → ip ≡ some known
          → check_networks account.allow_cidrs known ≡ none
      loop e k = ground arith

  Reaches→allowed :
      (account : Account) (ip : Option net.Ip) (known : net.Ip)
      → ip ≡ some known
      → Reaches known account.allow_cidrs
      → check_source_address account ip ≡ none
  unfolding check_source_address
  Reaches→allowed account ip known k r =
      let found = Reaches-check account.allow_cidrs known r in ground arith

  unrestricted :
      (account : Account) (ip : Option net.Ip)
      → account.allow_cidrs ≡ []
      → check_source_address account ip ≡ none
  unfolding check_source_address
  unrestricted account ip e = ground arith

  -- An account may connect exactly when it lists no network, or the client's address is known and
  -- lies in a network of its list that only well-formed networks precede.
  pub check_source_address_iff :
      (account : Account) (ip : Option net.Ip)
      → (check_source_address account ip ≡ none) ↔ (
          (account.allow_cidrs ≡ [])
          ⊎ ((known : net.Ip) × (ip ≡ some known) × Reaches known account.allow_cidrs))
  check_source_address_iff account ip = (
    allowed→Reaches account ip,
    λ h. elim h [
      | inl e ↦ unrestricted account ip e
      | inr (known, k, r) ↦ Reaches→allowed account ip known k r
    ],
  )

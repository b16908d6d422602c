-- ===== src/Policy/Address/Patterns.antt =====
-- Which addresses a pattern allows: `MatchesPattern` and `ValidatePattern` of
-- internal/policy/address.go.
use smtp_auth_proxy.Prelude.{
  ℕ, ◌+◌, ◌≡◌, refl, ap, subst, ◌≢◌, ◌↔◌, inl, inr, true, false, none, some, ◌∷◌, ◌++◌, arith, ◌==◌,
  Option-cases, length, take, drop, length-append, [],
}
use smtp_auth_proxy.Strings.{
  Str, str_eq_iff, trim_space, to_lower, last_index_byte, contains_byte, cut_prefix,
  last_index_split, last_index-append, cut_prefix-some, cut_prefix-append,
}
use smtp_auth_proxy.Policy.Address.{any_local, matches_clean, matches_pattern}

-- What a clean pattern allows: itself, or for `*@domain` every address with exactly that domain.
pub data Allows (pattern normalized : Str) : Type 0 where
  exactly :
      pattern ≢ []
      → cut_prefix pattern any_local ≡ none
      → normalized ≡ pattern
      → Allows pattern normalized
  in_domain :
      (local domain : Str)
      → pattern ≡ any_local ++ domain
      → domain ≢ []
      → contains_byte domain b'@' ≡ false
      → normalized ≡ local ++ b'@' ∷ domain
      → Allows pattern normalized

not_nil : (s : Str) → (s ≡ [] → ⊥) → (length s == 0) ≡ false
not_nil [] h = absurd (h refl)
not_nil (x ∷ s) h = ground arith

exact_facts :
    (n q : Str) → matches_clean n q ≡ true → cut_prefix q any_local ≡ none → (n ≡ q) × (q ≢ [])
unfolding matches_clean
exact_facts n [] h c = cc
exact_facts n (x ∷ q) h c = (ground (arith, str_eq_iff n (x ∷ q)), λ e. cc)

domain_facts :
    (n q : Str) {domain : Str} {at : ℕ}
    → matches_clean n q ≡ true
    → cut_prefix q any_local ≡ some domain
    → last_index_byte n b'@' ≡ some at
    → (drop (at + 1) n ≡ domain) × ((length domain == 0) ≡ false)
unfolding matches_clean
domain_facts n q {domain} {at} h c l = ground (arith, str_eq_iff (drop (at + 1) n) domain)

no_domain :
    (n q : Str) {domain : Str}
    → matches_clean n q ≡ true
    → cut_prefix q any_local ≡ some domain
    → last_index_byte n b'@' ≡ none
    → ⊥
unfolding matches_clean
no_domain n q h c l = ground arith

matches→Allows : (n q : Str) → matches_clean n q ≡ true → Allows q n
matches→Allows n q h = elim (Option-cases (cut_prefix q any_local)) [
  | inl c ↦ let (e, ne) = exact_facts n q h c in exactly ne c e
  | inr (domain, c) ↦ elim (Option-cases (last_index_byte n b'@')) [
    | inl l ↦ absurd (no_domain n q h c l)
    | inr (at, l) ↦
        let (e, ne) = domain_facts n q h c l in
        let (split, clean, _) = last_index_split n b'@' at l in
        in_domain (take at n) domain (cut_prefix-some q any_local domain c) (λ z. nonempty z ne)
          (rw (← e) clean) (subst (λ d. n ≡ take at n ++ b'@' ∷ d) e split)
  ]
]
  where
    nonempty : {d : Str} → d ≡ [] → (length d == 0) ≡ false → ⊥
    nonempty z ne = cc (ap length z)

domain_matches :
    (l d : Str)
    → (length d == 0) ≡ false
    → contains_byte d b'@' ≡ false
    → matches_clean (l ++ b'@' ∷ d) (any_local ++ d) ≡ true
unfolding matches_clean
domain_matches l d ne nc =
    let (at, rest) = last_index-append l d b'@' nc in
    ground (
      arith,
      at,
      cut_prefix-append any_local d,
      str_eq_iff (drop (length l + 1) (l ++ b'@' ∷ d)) d,
      length-append l (b'@' ∷ d),
    )

exact_matches :
    (n q : Str) → q ≢ [] → cut_prefix q any_local ≡ none → n ≡ q → matches_clean n q ≡ true
unfolding matches_clean
exact_matches n [] p c e = absurd (p refl)
exact_matches n (x ∷ q) p c e = ground (arith, str_eq_iff n (x ∷ q))

Allows→matches : (n q : Str) → Allows q n → matches_clean n q ≡ true
Allows→matches n q (exactly p c e) = exact_matches n q p c e
Allows→matches n q (in_domain l d p ne nc e) = rw (p, e) (domain_matches l d (not_nil d ne) nc)

-- A pattern matches a normalized address exactly when its trimmed lower-case form is that address
-- and neither empty nor a domain pattern, or is `*@` and a domain, not empty and without an at
-- sign, that is all that follows the last at sign of the address.
pub matches_pattern_iff :
    (normalized pattern : Str)
    → (matches_pattern normalized pattern ≡ true)
      ↔ Allows (to_lower (trim_space pattern)) normalized
unfolding matches_pattern
matches_pattern_iff normalized pattern =
    let q = to_lower (trim_space pattern) in
    (matches→Allows normalized q, Allows→matches normalized q)

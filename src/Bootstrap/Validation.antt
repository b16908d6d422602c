-- ===== src/Bootstrap/Validation.antt =====
-- What an accepted bootstrap file declares: internal/bootstrap/bootstrap.go.
use smtp_auth_proxy.Prelude.{
  ℕ, ◌+◌, ◌≡◌, refl, inl, inr, Bool, true, false, not, ◌&&◌, List, ◌∷◌, ◌++◌, arith, ◌==◌,
  Bool-cases, length, All, [],
}
use smtp_auth_proxy.Strings.{Str}
use smtp_auth_proxy.Policy.Address.{Mail}
use smtp_auth_proxy.Bootstrap.{
  File, Account, Problem, is_hash, account_problems, account_faults, validate, problem_if,
  hash_required, not_a_hash, username_required,
}

no_append {ℓ} : {A : Type ℓ} (xs ys : List A) → xs ++ ys ≡ [] → (xs ≡ []) × (ys ≡ [])
no_append [] ys h = (refl, h)
no_append (x ∷ xs) ys h = cc

-- What is checked of one account.
pub record IsDeclared (a : Account) : Type 0 where
  pub named : (length a.username == 0) ≡ false
  pub hashed : is_hash a.password_hash ≡ true

problem_if-none : (b : Bool) (p : Problem) → problem_if b p ≡ [] → b ≡ false
problem_if-none true p h = cc
problem_if-none false p h = refl

account_faults-hash :
    (mail : Mail) (a : Account) (names : List Str) (i : ℕ)
    → account_faults mail a names i ≡ []
    → is_hash a.password_hash ≡ true
unfolding account_faults
account_faults-hash mail a names i h =
    let (h5, _) = no_append _ _ h in
    let (h4, _) = no_append _ _ h5 in
    let (h3, _) = no_append _ _ h4 in
    let (h2, n3) = no_append _ _ h3 in
    let (_, n2) = no_append _ _ h2 in
    let empty = problem_if-none (length a.password_hash == 0) (hash_required i) n2 in
    let plain =
      problem_if-none (not (length a.password_hash == 0) && not (is_hash a.password_hash))
        (not_a_hash i) n3 in
    elim (Bool-cases (is_hash a.password_hash)) [ inl e ↦ e | inr e ↦ ground arith ]

account_problems-IsDeclared :
    (mail : Mail) (accounts : List Account) (names : List Str) (i : ℕ)
    → account_problems mail accounts names i ≡ []
    → All IsDeclared accounts
unfolding account_problems
account_problems-IsDeclared mail [] names i h = tt
account_problems-IsDeclared mail (a ∷ rest) names i h = elim (Bool-cases (length a.username == 0)) [
  | inl e ↦
      (let q : username_required i ∷ account_problems mail rest names (i + 1) ≡ [] = ground arith in
        cc)
  | inr e ↦
      (let q : account_faults mail a names i
              ++ account_problems mail rest (a.username ∷ names) (i + 1)
            ≡ [] =
          ground arith in
        (let (faults, others) = no_append _ _ q in
          (
            record { named = e; hashed = account_faults-hash mail a names i faults },
            account_problems-IsDeclared mail rest (a.username ∷ names) (i + 1) others,
          )))
]

-- Each account of a bootstrap file in which validation finds no problem has a name, and its
-- password hash starts like an Argon2id hash: a password cannot stand in its place.
pub validate-IsDeclared :
    (mail : Mail) (f : File) → validate mail f ≡ [] → All IsDeclared f.accounts
unfolding validate
validate-IsDeclared mail f h = account_problems-IsDeclared mail f.accounts [] 0 (no_append _ _ h).1

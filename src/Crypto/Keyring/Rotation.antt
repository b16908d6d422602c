-- ===== src/Crypto/Keyring/Rotation.antt =====
-- Which keys a keyring has: `NewKeyring` of internal/crypto/keyring.go.
use smtp_auth_proxy.Prelude.{
  option_cases, ◌≤◌, ◌≡◌, refl, sym, subst, ◌⊎◌, inl, inr, true, false, not, Option, none, some,
  List, ◌∷◌, ◌++◌, arith, ◌==◌, if_cases, Option-cases, length, [],
}
use smtp_auth_proxy.Strings.{
  Str, str_eq, str_eq_refl, str_eq_iff, cut, cut-append, contains_byte, contains_any,
}
use smtp_auth_proxy.Crypto.Keyring.{
  Ciphers, Outcome, KeyError, ok, err, sealed_version, dot, colon, valid_id, fields_of, Keyring,
  key, decode_key, parse_key_spec, add_keys, first_id, new_keyring,
}

pub ok_injective {ℓ} : {A : Type ℓ} {x y : A} → ok x ≡ ok y → x ≡ y
ok_injective e = cc

pub outcome_cases {ℓ} :
    {A : Type ℓ} (r : Outcome A) → ((e : KeyError) × (r ≡ err e)) ⊎ ((a : A) × (r ≡ ok a))
outcome_cases (err e) = inl (e, refl)
outcome_cases (ok a) = inr (a, refl)

no_dot : (id : Str) → contains_any id (dot ∷ colon ∷ []) ≡ false → contains_byte id dot ≡ false
unfolding contains_any contains_byte
no_dot [] h = refl
no_dot (x ∷ id) h = ground (arith, no_dot id)

valid_no_dot :
    (id : Str) → valid_id id ≡ true → (contains_byte id dot ≡ false) × ((length id == 0) ≡ false)
unfolding valid_id
valid_no_dot id h = ground (arith, no_dot id)

-- The fields of a sealed text.
pub fields_of_sealed :
    (id payload : Str)
    → valid_id id ≡ true
    → 1 ≤ length payload
    → fields_of (sealed_version ++ dot ∷ id ++ dot ∷ payload) ≡ some (id, payload)
unfolding fields_of contains_byte
fields_of_sealed id payload v p =
    let (d, l) = valid_no_dot id v in
    let e = cut-append sealed_version (id ++ dot ∷ payload) dot refl in
    let f = cut-append id payload dot d in ground (arith, str_eq_refl sealed_version)

module _ (ciphers : Ciphers) where
  abbrev Valid : Option (Str × ciphers.Aead) → Type 0
  Valid none = Unit
  Valid (some (id, _)) = valid_id id ≡ true

  parse_key_spec-Valid : (spec : Str) → Valid (parse_key_spec ciphers spec)
  unfolding parse_key_spec
  parse_key_spec-Valid spec =
      option_cases Valid (cut spec colon) (λ _. tt)
        (λ p _.
          if_cases Valid (not (valid_id p.0)) (λ _. tt)
            (λ v.
              option_cases Valid (decode_key ciphers p.1) (λ _. tt)
                (λ k _.
                  option_cases Valid (ciphers.new_gcm k) (λ _. tt) (λ _ _. ground (arith, v)))))

  parse_valid :
      (spec id : Str) (aead : ciphers.Aead)
      → parse_key_spec ciphers spec ≡ some (id, aead)
      → valid_id id ≡ true
  parse_valid spec id aead h = subst Valid h (parse_key_spec-Valid spec)

  -- What one step of the loop does.
  pub add_keys-cons :
      (spec : Str) (specs : List Str) (keys later : List (Str × ciphers.Aead))
      → add_keys ciphers (spec ∷ specs) keys ≡ ok later
      → (id : Str) × (aead : ciphers.Aead) × (parse_key_spec ciphers spec ≡ some (id, aead))
        × (key ciphers keys id ≡ none)
        × (add_keys ciphers specs (keys ++ (id, aead) ∷ []) ≡ ok later)
  unfolding add_keys
  add_keys-cons spec specs keys later h = elim (Option-cases (parse_key_spec ciphers spec)) [
    | inl e ↦ absurd (unparsed e)
    | inr ((id, aead), e) ↦ elim (Option-cases (key ciphers keys id)) [
      | inl k ↦ (id, aead, e, k, ground arith)
      | inr (other, k) ↦ absurd (twice id aead other e k)
    ]
  ]
    where
      unparsed : parse_key_spec ciphers spec ≡ none → ⊥
      unparsed e = ground arith

      twice :
          (id : Str) (aead other : ciphers.Aead)
          → parse_key_spec ciphers spec ≡ some (id, aead)
          → key ciphers keys id ≡ some other
          → ⊥
      twice id aead other e k = ground arith

  key-append :
      (keys : List (Str × ciphers.Aead)) (i id : Str) (aead : ciphers.Aead)
      → key ciphers keys id ≡ none
      → str_eq i id ≡ false
      → key ciphers (keys ++ (i, aead) ∷ []) id ≡ none
  unfolding key
  key-append [] i id aead h n = ground arith
  key-append ((j, other) ∷ keys) i id aead h n = ground (arith, key-append keys i id aead)

  -- A key in front of the others does not change what the loop adds.
  pub add_keys-front :
      (specs : List Str) (keys later later' : List (Str × ciphers.Aead)) (id : Str)
      (aead : ciphers.Aead)
      → key ciphers keys id ≡ none
      → add_keys ciphers specs keys ≡ ok later
      → add_keys ciphers specs ((id, aead) ∷ keys) ≡ ok later'
      → (later' ≡ (id, aead) ∷ later) × (key ciphers later id ≡ none)
  unfolding add_keys key
  add_keys-front [] keys later later' id aead n h h' =
      let b = ok_injective h' in (rw (← ok_injective h) (sym b), rw (← ok_injective h) n)
  add_keys-front (spec ∷ specs) keys later later' id aead n h h' =
      let (i, other, e, k, l) = add_keys-cons spec specs keys later h in
      let (i', other', e', k', l') = add_keys-cons spec specs ((id, aead) ∷ keys) later' h' in
      let q : (i, other) ≡ (i', other') = same e e' in
      let apart : str_eq id i ≡ false =
        unequal i (subst (λ p. key ciphers ((id, aead) ∷ keys) p.0 ≡ none) (sym q) k') in
      let m =
        subst (λ p. add_keys ciphers specs ((id, aead) ∷ (keys ++ p ∷ [])) ≡ ok later') (sym q)
          l' in
      add_keys-front specs (keys ++ (i, other) ∷ []) later later' id aead
        (key-append keys i id other n (flip i apart)) l m
    where
      same :
          {x y : Str × ciphers.Aead}
          → parse_key_spec ciphers spec ≡ some x
          → parse_key_spec ciphers spec ≡ some y
          → x ≡ y
      same e e' = cc

      unequal : (i : Str) → key ciphers ((id, aead) ∷ keys) i ≡ none → str_eq id i ≡ false
      unequal i k = ground arith

      flip : (i : Str) → str_eq id i ≡ false → str_eq i id ≡ false
      flip i a = ground (arith, str_eq_iff id i, str_eq_iff i id)

  pub add_keys-head :
      (specs : List Str) (keys later : List (Str × ciphers.Aead)) (k : Str × ciphers.Aead)
      → add_keys ciphers specs (k ∷ keys) ≡ ok later
      → (rest : List (Str × ciphers.Aead)) × (later ≡ k ∷ rest)
  unfolding add_keys
  add_keys-head [] keys later k h = (keys, sym (ok_injective h))
  add_keys-head (spec ∷ specs) keys later k h =
      let (i, other, e, n, l) = add_keys-cons spec specs (k ∷ keys) later h in
      add_keys-head specs (keys ++ (i, other) ∷ []) later k l

  pub new_keyring-keys :
      (specs : List Str) (kr : Keyring ciphers)
      → new_keyring ciphers specs ≡ ok kr
      → (add_keys ciphers specs [] ≡ ok kr.keys)
        × (kr.primary_id ≡ first_id ciphers kr.keys)
        × ((length specs == 0) ≡ false)
  unfolding new_keyring
  new_keyring-keys specs kr h = elim (outcome_cases (add_keys ciphers specs [])) [
    | inl (e, a) ↦ absurd (failed e a)
    | inr (keys, a) ↦ let q = made keys a in (rw (← q) a, rw (← q) refl, filled)
  ]
    where
      failed : (e : KeyError) → add_keys ciphers specs [] ≡ err e → ⊥
      failed e a = ground arith

      made :
          (keys : List (Str × ciphers.Aead))
          → add_keys ciphers specs [] ≡ ok keys
          → record { primary_id = first_id ciphers keys; keys = keys } ≡ kr
      made keys a = ground arith

      filled : (length specs == 0) ≡ false
      filled = ground arith

  -- The first key is the primary key.
  pub new_keyring-primary :
      (specs : List Str) (kr : Keyring ciphers)
      → new_keyring ciphers specs ≡ ok kr
      → (valid_id kr.primary_id ≡ true)
        × ((aead : ciphers.Aead) × (key ciphers kr.keys kr.primary_id ≡ some aead))
  unfolding key
  new_keyring-primary [] kr h = absurd (ground (arith, new_keyring-keys [] kr h))
  new_keyring-primary (spec ∷ specs) kr h =
      let (a, p, _) = new_keyring-keys (spec ∷ specs) kr h in
      let (i, other, e, n, l) = add_keys-cons spec specs [] kr.keys a in
      let (rest, q) = add_keys-head specs [] kr.keys (i, other) l in
      (rw (p, q) (parse_valid spec i other e), (other, rw (p, q, str_eq_refl i) refl))

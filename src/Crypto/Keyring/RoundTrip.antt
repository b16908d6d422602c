-- ===== src/Crypto/Keyring/RoundTrip.antt =====
-- What a keyring can read, also after a rotation: internal/crypto/keyring.go.
use smtp_auth_proxy.Prelude.{
  ◌≤◌, ◌≡◌, refl, sym, ap, inl, inr, true, false, none, some, List, ◌∷◌, ◌++◌, arith, ltb,
  Bool-cases, length, take, drop, length-append, [],
}
use smtp_auth_proxy.Strings.{Str, str_eq, str_eq_iff, str_eq_refl}
use smtp_auth_proxy.Crypto.Keyring.{
  Ciphers, ok, sealed_version, dot, valid_id, fields_of, key_id_of, Keyring, key, new_keyring,
  encrypt, unseal, decrypt, needs_rotation,
}
use smtp_auth_proxy.Crypto.Keyring.Rotation.{
  fields_of_sealed, add_keys-front, add_keys-cons, new_keyring-primary, new_keyring-keys,
}

take-drop-append {ℓ} :
    {A : Type ℓ} (xs ys : List A)
    → (take (length xs) (xs ++ ys) ≡ xs) × (drop (length xs) (xs ++ ys) ≡ ys)
take-drop-append [] ys = (refl, refl)
take-drop-append (x ∷ xs) ys = let (a, b) = take-drop-append xs ys in (ap (λ zs. x ∷ zs) a, b)

module _ (ciphers : Ciphers)
    (opens : (aead : ciphers.Aead) (nonce plaintext context : Str)
      → length nonce ≡ ciphers.nonce_size aead
      → ciphers.open_sealed aead nonce (ciphers.seal aead nonce plaintext context) context
        ≡ some plaintext)
    (decodes : (s : Str) → ciphers.decode_strict (ciphers.encode s) ≡ some s)
    (encodes : (s : Str) → length s ≤ length (ciphers.encode s)) (nonce plaintext context : Str)
    (fits : (aead : ciphers.Aead) → ciphers.nonce_size aead ≡ length nonce)
    (filled : 1 ≤ length nonce) where
  -- The text that `encrypt` writes.
  abbrev sealed_by : Str → ciphers.Aead → Str
  sealed_by id aead =
      sealed_version
      ++ dot ∷ id
      ++ dot ∷ ciphers.encode (nonce ++ ciphers.seal aead nonce plaintext context)

  fields :
      (id : Str) (aead : ciphers.Aead)
      → valid_id id ≡ true
      → fields_of (sealed_by id aead)
        ≡ some (id, ciphers.encode (nonce ++ ciphers.seal aead nonce plaintext context))
  fields id aead v =
      fields_of_sealed id (ciphers.encode (nonce ++ ciphers.seal aead nonce plaintext context)) v (
        omega (
          arith,
          filled,
          encodes (nonce ++ ciphers.seal aead nonce plaintext context),
          length-append nonce (ciphers.seal aead nonce plaintext context),
        ))

  unsealed :
      (aead : ciphers.Aead)
      → unseal ciphers aead
          (ciphers.encode (nonce ++ ciphers.seal aead nonce plaintext context))
          context
        ≡ ok plaintext
  unfolding unseal
  unsealed aead =
      let (a, b) = take-drop-append nonce (ciphers.seal aead nonce plaintext context) in
      let o = opens aead nonce plaintext context (sym (fits aead)) in
      let l = length-append nonce (ciphers.seal aead nonce plaintext context) in
      let d = decodes (nonce ++ ciphers.seal aead nonce plaintext context) in
      let g : ltb (length (nonce ++ ciphers.seal aead nonce plaintext context)) (length nonce)
          ≡ false =
        ground (arith, l) in
      rw (unseal, d, fits aead, g, a, b, o) refl

  -- Any keyring with that key under that id.
  reads :
      (kr : Keyring ciphers) (id : Str) (aead : ciphers.Aead)
      → valid_id id ≡ true
      → key ciphers kr.keys id ≡ some aead
      → decrypt ciphers kr (sealed_by id aead) context ≡ ok plaintext
  unfolding decrypt
  reads kr id aead v k = rw (decrypt, fields id aead v, k) (unsealed aead)

  encrypts :
      (kr : Keyring ciphers) (aead : ciphers.Aead)
      → key ciphers kr.keys kr.primary_id ≡ some aead
      → encrypt ciphers kr (some nonce) plaintext context ≡ ok (sealed_by kr.primary_id aead)
  unfolding encrypt
  encrypts kr aead k = rw (encrypt, k) refl

  -- If opening undoes sealing, strict base64 decoding undoes encoding, which never shortens, and
  -- the nonce has the size of every cipher's and is not empty, then a keyring that could be built
  -- seals every text, opens it again in the same context, and does not ask for its rotation.
  pub decrypt-encrypt :
      (specs : List Str) (kr : Keyring ciphers)
      → new_keyring ciphers specs ≡ ok kr
      → (sealed : Str) × (encrypt ciphers kr (some nonce) plaintext context ≡ ok sealed)
        × (decrypt ciphers kr sealed context ≡ ok plaintext)
        × (needs_rotation ciphers kr sealed ≡ false)
  unfolding needs_rotation key_id_of key
  decrypt-encrypt specs kr h =
      let (v, (aead, k)) = new_keyring-primary ciphers specs kr h in
      (
        sealed_by kr.primary_id aead,
        encrypts kr aead k,
        reads kr kr.primary_id aead v k,
        rw (needs_rotation, key_id_of, fields kr.primary_id aead v, str_eq_refl kr.primary_id) refl,
      )

  -- If opening undoes sealing, strict base64 decoding undoes encoding, which never shortens, and
  -- the nonce has the size of every cipher's and is not empty, then a text that a keyring seals can
  -- be opened, in the same context, by the keyring with a new key put in front, which reports that
  -- it needs rotation.
  pub decrypt-rotated :
      (spec : Str) (specs : List Str) (old new : Keyring ciphers)
      → new_keyring ciphers specs ≡ ok old
      → new_keyring ciphers (spec ∷ specs) ≡ ok new
      → (sealed : Str) × (encrypt ciphers old (some nonce) plaintext context ≡ ok sealed)
        × (decrypt ciphers new sealed context ≡ ok plaintext)
        × (needs_rotation ciphers new sealed ≡ true)
  unfolding needs_rotation key_id_of key
  decrypt-rotated spec specs old new h h' =
      let (v, (aead, k)) = new_keyring-primary ciphers specs old h in
      let (apart, k') = kept aead k in
      (
        sealed_by old.primary_id aead,
        encrypts old aead k,
        reads new old.primary_id aead v k',
        rw (needs_rotation, key_id_of, fields old.primary_id aead v, apart) refl,
      )
    where
      both :
          (aead : ciphers.Aead) (i : Str)
          → key ciphers old.keys old.primary_id ≡ some aead
          → key ciphers old.keys i ≡ none
          → i ≡ old.primary_id
          → ⊥
      both aead i k m s = cc

      differ :
          (aead : ciphers.Aead) (i : Str)
          → key ciphers old.keys old.primary_id ≡ some aead
          → key ciphers old.keys i ≡ none
          → str_eq i old.primary_id ≡ false
      differ aead i k m = elim (Bool-cases (str_eq i old.primary_id)) [
        | inl s ↦ absurd (both aead i k m ((str_eq_iff i old.primary_id).0 s))
        | inr s ↦ s
      ]

      other_way : (i : Str) → str_eq i old.primary_id ≡ false → str_eq old.primary_id i ≡ false
      other_way i d = ground (arith, str_eq_iff i old.primary_id, str_eq_iff old.primary_id i)

      kept :
          (aead : ciphers.Aead)
          → key ciphers old.keys old.primary_id ≡ some aead
          → (str_eq old.primary_id new.primary_id ≡ false)
            × (key ciphers new.keys old.primary_id ≡ some aead)
      kept aead k =
          let (a, p, _) = new_keyring-keys ciphers specs old h in
          let (b, q, _) = new_keyring-keys ciphers (spec ∷ specs) new h' in
          let (i, other, e, n, l) = add_keys-cons ciphers spec specs [] new.keys b in
          let (f, m) = add_keys-front ciphers specs [] old.keys new.keys i other n a l in
          let d = differ aead i k m in
          let r : new.primary_id ≡ i = rw (q, f) refl in (rw r (other_way i d), rw (f, key, d) k)

-- ===== src/Crypto/Password/Verification.antt =====
-- A password verifies against its own hash: internal/crypto/password.go.
use smtp_auth_proxy.Prelude.{
  ℕ, ◌≤◌, ◌≡◌, refl, sym, subst, ◌⊎◌, inl, inr, Bool, true, false, some, ◌∷◌, ◌++◌, arith, ltb,
  if◌then◌else◌, Bool-cases, length, [],
}
use smtp_auth_proxy.Strings.{
  Str, str_eq, codes, split, split-append, split_whole, contains_byte, cut, number, decimal,
}
use smtp_auth_proxy.Crypto.Password.{
  Argon, Hashed, ok, Argon2Params, default_params, encoded_hash, hash_password_with, parse_params,
  decode_rest, decode_parts, decode_hash, weaker_than_default, verify_password,
}

abbrev cost : ℕ → ℕ → ℕ → Argon2Params
cost parallelism salt_length key_length = record {
  memory = 65536;
  iterations = 3;
  parallelism = parallelism;
  salt_length = salt_length;
  key_length = key_length;
}

-- The default parameters have a parallelism of 1 or 2.
default_cases :
    (cpus : ℕ)
    → 1 ≤ cpus
    → (default_params cpus ≡ cost 1 16 32) ⊎ (default_params cpus ≡ cost 2 16 32)
unfolding default_params
default_cases cpus h = elim (Bool-cases (ltb cpus 2)) [
  | inl e ↦ let one : cpus ≡ 1 = ground arith in inl (rw one refl)
  | inr e ↦ inr (rw e refl)
]

abbrev answered : Bool → Bool → Hashed (Bool × Bool)
answered match renew = if match then ok (true, renew) else ok (false, false)

parsed_params :
    (parse_params (codes "m=65536,t=3,p=1") ≡ some (cost 1 0 0))
    × (parse_params (codes "m=65536,t=3,p=2") ≡ some (cost 2 0 0))
unfolding parse_params split cut number str_eq
parsed_params = (refl, refl)

abbrev pub key_of : Argon → Argon2Params → Str → Str → Str
key_of argon p salt password =
    argon.id_key password salt p.iterations p.memory p.parallelism p.key_length

module _ (argon : Argon) (strict : (s : Str) → argon.decode_strict (argon.encode s) ≡ some s)
    (clean : (s : Str) → contains_byte (argon.encode s) b'$' ≡ false)
    (version : argon.scan_version (codes "v=19") ≡ some 19)
    (sized : (password salt : Str) (iterations memory parallelism n : ℕ)
      → length (argon.id_key password salt iterations memory parallelism n) ≡ n) where
  tail :
      (salt key : Str)
      → split (argon.encode salt ++ b'$' ∷ argon.encode key) b'$'
        ≡ argon.encode salt ∷ argon.encode key ∷ []
  tail salt key =
      rw
        (
          split-append (argon.encode salt) (argon.encode key) b'$' (clean salt),
          split_whole (argon.encode key) b'$' (clean key),
        )
        refl

  rest_lem :
      (q : ℕ) (salt key : Str)
      → length salt ≡ 16
      → length key ≡ 32
      → decode_rest argon (cost q 0 0) (argon.encode salt) (argon.encode key)
        ≡ ok (record { params = cost q 16 32; salt = salt; key = key })
  unfolding decode_rest
  rest_lem q salt key l k = rw (decode_rest, strict salt, strict key, l, k) refl

  decode-encoded_one :
      (salt key : Str)
      → length salt ≡ 16
      → length key ≡ 32
      → decode_hash argon (encoded_hash argon (cost 1 16 32) salt key)
        ≡ ok (record { params = cost 1 16 32; salt = salt; key = key })
  unfolding decode_hash encoded_hash split decimal str_eq decode_parts
  decode-encoded_one salt key l k =
      rw (tail salt key, version, parsed_params.0, tail salt key) (rest_lem 1 salt key l k)

  decode-encoded_two :
      (salt key : Str)
      → length salt ≡ 16
      → length key ≡ 32
      → decode_hash argon (encoded_hash argon (cost 2 16 32) salt key)
        ≡ ok (record { params = cost 2 16 32; salt = salt; key = key })
  unfolding decode_hash encoded_hash split decimal str_eq decode_parts
  decode-encoded_two salt key l k =
      rw (tail salt key, version, parsed_params.1, tail salt key) (rest_lem 2 salt key l k)

  module _ (cpus : ℕ) (password other salt : Str) (l : length salt ≡ 16)
      (o : length other ≤ 1024) where
    abbrev Verified : Argon2Params → Type 0
    Verified p =
        verify_password argon cpus (encoded_hash argon p salt (key_of argon p salt password)) other
        ≡ ok (str_eq (key_of argon p salt other) (key_of argon p salt password), false)

    compared :
        (q : ℕ)
        → decode_hash argon
            (encoded_hash argon (cost q 16 32) salt (key_of argon (cost q 16 32) salt password))
          ≡ ok (record {
            params = cost q 16 32;
            salt = salt;
            key = key_of argon (cost q 16 32) salt password;
          })
        → Verified (cost q 16 32)
    unfolding verify_password weaker_than_default
    compared q d =
        let short : ltb 1024 (length other) ≡ false = ground arith in
        let same = answer (
          str_eq (key_of argon (cost q 16 32) salt other)
            (key_of argon (cost q 16 32) salt password)) in
        rw (verify_password, short, d) same
      where
        answer : (b : Bool) → answered b (weaker_than_default cpus (cost q 16 32)) ≡ ok (b, false)
        answer true = refl
        answer false = refl

    default-Verified : 1 ≤ cpus → Verified (default_params cpus)
    default-Verified c = elim (default_cases cpus c) [
      | inl e ↦ subst Verified (sym e) (
          compared 1 (
            decode-encoded_one salt (key_of argon (cost 1 16 32) salt password) l
              (sized password salt 3 65536 1 32)))
      | inr e ↦ subst Verified (sym e) (
          compared 2 (
            decode-encoded_two salt (key_of argon (cost 2 16 32) salt password) l
              (sized password salt 3 65536 2 32)))
    ]

    -- If strict base64 decoding undoes encoding, which writes no dollar sign, and Argon2 derives
    -- keys of the length asked for, then, with at least one processor, a password of at most 1024
    -- bytes is verified against a hash that the defaults and a salt of 16 bytes gave another one
    -- exactly when Argon2 derives the same key for both, and the hash is not reported as weak.
    pub verify-hash :
        (hash : Str)
        → 1 ≤ cpus
        → hash_password_with argon password (default_params cpus) (some salt) ≡ ok hash
        → verify_password argon cpus hash other
          ≡ ok (
            str_eq
                (key_of argon (default_params cpus) salt other)
                (key_of argon (default_params cpus) salt password),
            false,
          )
    unfolding hash_password_with
    verify-hash hash c h =
        subst
          (λ t.
            verify_password argon cpus t other
            ≡ ok (
              str_eq (key_of argon (default_params cpus) salt other)
                  (key_of argon (default_params cpus) salt password),
              false,
            ))
          made (default-Verified c)
      where
        made :
            encoded_hash argon
              (default_params cpus)
              salt
              (key_of argon (default_params cpus) salt password)
            ≡ hash
        made = ground arith

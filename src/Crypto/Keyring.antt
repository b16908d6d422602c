-- ===== src/Crypto/Keyring.antt =====
-- The keys that seal stored secrets, and their rotation: internal/crypto/keyring.go.
pub mod Rotation
pub mod RoundTrip
use smtp_auth_proxy.Prelude.{
  ℕ, Bool, false, not, ◌&&◌, ◌||◌, Option, none, some, List, ◌∷◌, ◌++◌, ltb, leb, ◌==◌,
  if◌then◌else◌, is_some, length, take, drop, [],
}
use smtp_auth_proxy.Strings.{Str, str_eq, codes, cut, contains_any, trim_right}

-- The standard library: AES-GCM of a 32-byte key, and base64 with the URL's and the standard alphabet.
pub record Ciphers : Type 1 where
  pub Aead : Type 0
  pub new_gcm : Str → Option Aead
  pub nonce_size : Aead → ℕ
  pub seal : Aead → Str → Str → Str → Str
  pub open_sealed : Aead → Str → Str → Str → Option Str
  pub encode : Str → Str
  pub decode : Str → Option Str
  pub decode_std : Str → Option Str
  pub decode_strict : Str → Option Str

-- `bad_spec` stands for the errors of `parseKeySpec`.
pub data KeyError : Type 0 where
  no_keys unknown_key malformed decrypt_failed bad_spec duplicate no_randomness : KeyError

pub data Outcome {ℓ} (A : Type ℓ) : Type ℓ where
  ok : A → Outcome A
  err : KeyError → Outcome A

abbrev pub sealed_version : Str
sealed_version = codes "v1"

abbrev pub key_len : ℕ
key_len = 32

abbrev pub max_key_id_len : ℕ
max_key_id_len = 32

abbrev pub dot : ℕ
dot = b'.'

abbrev pub colon : ℕ
colon = b':'

-- The test of `parseKeySpec` and `GenerateKey`.
unfoldable pub valid_id : Str → Bool
valid_id id =
    not (length id == 0)
    && leb (length id) max_key_id_len
    && not (contains_any id (dot ∷ colon ∷ []))

-- `KeyIDOf` and the first half of `Decrypt`: the key's id and the payload.
unfoldable pub fields_of : Str → Option (Str × Str)
fields_of sealed = elim (cut sealed dot) [
  | none ↦ none
  | some (version, rest) ↦
      if not (str_eq version sealed_version) then none else elim (cut rest dot) [
        | none ↦ none
        | some (id, payload) ↦
            if length id == 0 || length payload == 0 then none else some (id, payload)
      ]
]

unfoldable pub key_id_of : Str → Outcome Str
unfolding fields_of
key_id_of sealed = elim (fields_of sealed) [ none ↦ err malformed | some (id, payload) ↦ ok id ]

module _ (ciphers : Ciphers) where
  pub record Keyring : Type 0 where
    pub primary_id : Str
    pub keys : List (Str × ciphers.Aead)

  -- The map's lookup.
  unfoldable pub key : List (Str × ciphers.Aead) → Str → Option ciphers.Aead
  key [] id = none
  key ((i, aead) ∷ rest) id = if str_eq i id then some aead else key rest id

  unfoldable pub decode_key : Str → Option Str
  decode_key encoded =
      let trimmed = trim_right (λ c. c == b'=') encoded in
      let decoded : Option Str = elim (ciphers.decode trimmed) [
        | none ↦ ciphers.decode_std trimmed
        | some k ↦ some k
      ] in
      elim decoded [ none ↦ none | some k ↦ if length k == key_len then some k else none ]

  -- `none` is an error.
  unfoldable pub parse_key_spec : Str → Option (Str × ciphers.Aead)
  unfolding valid_id decode_key
  parse_key_spec spec = elim (cut spec colon) [
    | none ↦ none
    | some (id, encoded) ↦ if not (valid_id id) then none else elim (decode_key encoded) [
      | none ↦ none
      | some k ↦ elim (ciphers.new_gcm k) [ none ↦ none | some aead ↦ some (id, aead) ]
    ]
  ]

  -- The loop of `NewKeyring`, with the keys so far.
  unfoldable pub add_keys :
      List Str → List (Str × ciphers.Aead) → Outcome (List (Str × ciphers.Aead))
  unfolding key parse_key_spec
  add_keys [] keys = ok keys
  add_keys (spec ∷ specs) keys = elim (parse_key_spec spec) [
    | none ↦ err bad_spec
    | some (id, aead) ↦
        let rest = add_keys specs (keys ++ (id, aead) ∷ []) in
        if is_some (key keys id) then err duplicate else rest
  ]

  abbrev pub first_id : List (Str × ciphers.Aead) → Str
  first_id [] = []
  first_id ((id, _) ∷ _) = id

  unfoldable pub new_keyring : List Str → Outcome Keyring
  unfolding add_keys
  new_keyring specs = if length specs == 0 then err no_keys else elim (add_keys specs []) [
    | err e ↦ err e
    | ok keys ↦ ok (record { primary_id = first_id keys; keys = keys })
  ]

  -- With the nonce that is read, or `none` when reading it fails.
  unfoldable pub encrypt : Keyring → Option Str → Str → Str → Outcome Str
  unfolding key
  encrypt kr nonce plaintext context = elim (key kr.keys kr.primary_id) [
    | none ↦ err no_keys
    | some aead ↦ elim nonce [
      | none ↦ err no_randomness
      | some n ↦ ok (
          sealed_version
          ++ dot ∷ kr.primary_id
          ++ dot ∷ ciphers.encode (n ++ ciphers.seal aead n plaintext context))
    ]
  ]

  -- The end of `Decrypt`, with the key.
  unfoldable pub unseal : ciphers.Aead → Str → Str → Outcome Str
  unseal aead payload context = elim (ciphers.decode_strict payload) [
    | none ↦ err malformed
    | some raw ↦
        if ltb (length raw) (ciphers.nonce_size aead)
        then err malformed
        else elim (ciphers.open_sealed aead (take (ciphers.nonce_size aead) raw)
            (drop (ciphers.nonce_size aead) raw) context) [
              | none ↦ err decrypt_failed
              | some plaintext ↦ ok plaintext
            ]
  ]

  unfoldable pub decrypt : Keyring → Str → Str → Outcome Str
  unfolding fields_of key unseal
  decrypt kr sealed context = elim (fields_of sealed) [
    | none ↦ err malformed
    | some (id, payload) ↦ elim (key kr.keys id) [
      | none ↦ err unknown_key
      | some aead ↦ unseal aead payload context
    ]
  ]

  unfoldable pub needs_rotation : Keyring → Str → Bool
  unfolding key_id_of
  needs_rotation kr sealed = elim (key_id_of sealed) [
    | err e ↦ false
    | ok id ↦ not (str_eq id kr.primary_id)
  ]

  -- With the bytes that are read for the key.
  unfoldable pub generate_key : Str → Option Str → Option Str
  unfolding valid_id
  generate_key id random =
      if not (valid_id id)
      then none
      else elim random [ none ↦ none | some k ↦ some (id ++ colon ∷ ciphers.encode k) ]

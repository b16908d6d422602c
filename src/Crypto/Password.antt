-- ===== src/Crypto/Password.antt =====
-- Password hashes: internal/crypto/password.go.
pub mod Verification
use smtp_auth_proxy.Prelude.{
  ℕ, Bool, true, false, not, ◌||◌, Option, none, some, List, ◌∷◌, ◌++◌, ltb, ◌==◌, if◌then◌else◌,
  length, get_or, [],
}
use smtp_auth_proxy.Strings.{Str, str_eq, codes, cut, split, number, decimal}
use smtp_auth_proxy.Admin.Local.{Passwords}

-- The libraries: `argon2.IDKey` of a password, a salt, the iterations, the memory, the parallelism and
-- the key's length; base64; and the number that `fmt.Sscanf` reads with the format `v=%d`, a negative
-- one as 0.
pub record Argon : Type 0 where
  pub id_key : Str → Str → ℕ → ℕ → ℕ → ℕ → Str
  pub encode : Str → Str
  pub decode_strict : Str → Option Str
  pub scan_version : Str → Option ℕ

pub data HashError : Type 0 where
  invalid_hash incompatible too_long no_randomness : HashError

pub data Hashed {ℓ} (A : Type ℓ) : Type ℓ where
  ok : A → Hashed A
  err : HashError → Hashed A

abbrev pub max_password_len : ℕ
max_password_len = 1024

-- `argon2.Version`
abbrev pub argon2_version : ℕ
argon2_version = 19

pub record Argon2Params : Type 0 where
  pub memory : ℕ
  pub iterations : ℕ
  pub parallelism : ℕ
  pub salt_length : ℕ
  pub key_length : ℕ

-- With the number of processors.
unfoldable pub default_params : ℕ → Argon2Params
default_params cpus = record {
  memory = 65536;
  iterations = 3;
  parallelism = if ltb cpus 2 then cpus else 2;
  salt_length = 16;
  key_length = 32;
}

unfoldable pub encoded_hash : Argon → Argon2Params → Str → Str → Str
encoded_hash argon p salt key =
    codes "$argon2id$v="
    ++ decimal argon2_version
    ++ codes "$m="
    ++ decimal p.memory
    ++ codes ",t="
    ++ decimal p.iterations
    ++ codes ",p="
    ++ decimal p.parallelism
    ++ b'$' ∷ argon.encode salt
    ++ b'$' ∷ argon.encode key

-- `HashPasswordWith`, with the salt that is read.
unfoldable pub hash_password_with : Argon → Str → Argon2Params → Option Str → Hashed Str
unfolding encoded_hash
hash_password_with argon password p salt =
    if ltb max_password_len (length password) then err too_long else elim salt [
      | none ↦ err no_randomness
      | some s ↦ ok (
          encoded_hash argon p s
            (argon.id_key password s p.iterations p.memory p.parallelism p.key_length))
    ]

-- The parameters that `parseParams` has seen.
pub record Seen : Type 0 where
  pub m : Option ℕ
  pub t : Option ℕ
  pub p : Option ℕ

unfoldable pub set_param : Seen → Str → ℕ → Option Seen
set_param seen name n =
    if str_eq name (codes "m")
    then some (record seen { m = some n })
    else if str_eq name (codes "t")
    then some (record seen { t = some n })
    else if str_eq name (codes "p")
    then (if ltb 255 n then none else some (record seen { p = some n }))
    else none

unfoldable pub parse_field : Seen → Str → Option Seen
unfolding set_param
parse_field seen field = elim (cut field b'=') [
  | none ↦ none
  | some (name, value) ↦ elim (number value) [
    | none ↦ none
    | some n ↦ if n == 0 || ltb 4294967295 n then none else set_param seen name n
  ]
]

unfoldable pub parse_fields : List Str → Seen → Option Seen
unfolding parse_field
parse_fields [] seen = some seen
parse_fields (field ∷ fields) seen = elim (parse_field seen field) [
  | none ↦ none
  | some later ↦ parse_fields fields later
]

-- The lengths of the salt and the key come later.
unfoldable pub params_of : Seen → Option Argon2Params
params_of seen = elim seen.m [
  | none ↦ none
  | some m ↦ elim seen.t [
    | none ↦ none
    | some t ↦ elim seen.p [
      | none ↦ none
      | some p ↦
          some (record {
            memory = m;
            iterations = t;
            parallelism = p;
            salt_length = 0;
            key_length = 0;
          })
    ]
  ]
]

unfoldable pub parse_params : Str → Option Argon2Params
unfolding parse_fields params_of
parse_params s = elim (parse_fields (split s b',') (record { m = none; t = none; p = none })) [
  | none ↦ none
  | some seen ↦ params_of seen
]

pub record Decoded : Type 0 where
  pub params : Argon2Params
  pub salt : Str
  pub key : Str

-- The end of `decodeHash`, with the parameters.
unfoldable pub decode_rest : Argon → Argon2Params → Str → Str → Hashed Decoded
decode_rest argon p salt key = elim (argon.decode_strict salt) [
  | none ↦ err invalid_hash
  | some s ↦ elim (argon.decode_strict key) [
    | none ↦ err invalid_hash
    | some k ↦
        if length s == 0 || length k == 0
        then err invalid_hash
        else ok (record {
          params = record p { salt_length = length s; key_length = length k };
          salt = s;
          key = k;
        })
  ]
]

unfoldable pub decode_parts : Argon → List Str → Hashed Decoded
unfolding parse_params decode_rest
decode_parts argon parts =
    if not (length parts == 6) || not (str_eq (get_or parts 0 []) [])
    then err invalid_hash
    else if not (str_eq (get_or parts 1 []) (codes "argon2id"))
    then err incompatible
    else elim (argon.scan_version (get_or parts 2 [])) [
      | none ↦ err invalid_hash
      | some version ↦
          if not (version == argon2_version)
          then err incompatible
          else elim (parse_params (get_or parts 3 [])) [
            | none ↦ err invalid_hash
            | some p ↦ decode_rest argon p (get_or parts 4 []) (get_or parts 5 [])
          ]
    ]

unfoldable pub decode_hash : Argon → Str → Hashed Decoded
unfolding decode_parts
decode_hash argon encoded = decode_parts argon (split encoded b'$')

unfoldable pub weaker_than_default : ℕ → Argon2Params → Bool
unfolding default_params
weaker_than_default cpus p =
    let d = default_params cpus in
    ltb p.memory d.memory
    || ltb p.iterations d.iterations
    || ltb p.key_length d.key_length
    || ltb p.salt_length d.salt_length

-- `VerifyPassword`: whether the password matches, and whether the hash is to be renewed.
unfoldable pub verify_password : Argon → ℕ → Str → Str → Hashed (Bool × Bool)
unfolding decode_hash weaker_than_default
verify_password argon cpus encoded password =
    if ltb max_password_len (length password)
    then err too_long
    else elim (decode_hash argon encoded) [
      | err e ↦ err e
      | ok d ↦
          let got =
            argon.id_key password d.salt d.params.iterations d.params.memory d.params.parallelism
              d.params.key_length in
          if str_eq got d.key
          then ok (true, weaker_than_default cpus d.params)
          else ok (false, false)
    ]

-- What signing in uses of this, with the salt that is drawn.
unfoldable pub argon_passwords : Argon → ℕ → Option Str → Passwords
unfolding verify_password hash_password_with
argon_passwords argon cpus salt = record {
  verify = λ encoded password. elim (verify_password argon cpus encoded password) [
    | err e ↦ none
    | ok answer ↦ some answer
  ];
  hash = λ password. elim (hash_password_with argon password (default_params cpus) salt) [
    | err e ↦ none
    | ok h ↦ some h
  ];
}

-- ===== src/Crypto/Examples.antt =====
-- The theorems about keys and passwords with a cipher and a hash that do not hide anything.
use smtp_auth_proxy.Prelude.{
  ◌≡◌, refl, true, false, some, ◌∷◌, arith, ℕ, zero, suc, ◌+◌, ◌-◌, ap, none, ◌++◌, if◌then◌else◌,
  length, take, replicate, length-append, length-take, [],
}
use smtp_auth_proxy.Strings.{contains_byte, Str, codes, cut, contains_any, trim_right, str_eq}
use smtp_auth_proxy.Crypto.Fixtures.{glass}
use smtp_auth_proxy.Crypto.Keyring.{Keyring, ok, new_keyring, encrypt, decrypt, needs_rotation}
use smtp_auth_proxy.Crypto.Keyring.RoundTrip.{decrypt-rotated}
use smtp_auth_proxy.Crypto.Password.{
  Argon, ok as hash_ok, default_params, encoded_hash, hash_password_with, verify_password,
}
use smtp_auth_proxy.Crypto.Password.Verification.{key_of, verify-hash}

abbrev first_spec : Str
first_spec = codes "a:0123456789abcdef0123456789abcdef"

abbrev second_spec : Str
second_spec = codes "b:fedcba9876543210fedcba9876543210"

abbrev first_key : Str × Str
first_key = (codes "a", codes "0123456789abcdef0123456789abcdef")

abbrev second_key : Str × Str
second_key = (codes "b", codes "fedcba9876543210fedcba9876543210")

abbrev old_ring : Keyring glass
old_ring = record { primary_id = codes "a"; keys = first_key ∷ [] }

abbrev new_ring : Keyring glass
new_ring = record { primary_id = codes "b"; keys = second_key ∷ first_key ∷ [] }

old_ring_made : new_keyring glass (first_spec ∷ []) ≡ ok old_ring
unfolding new_keyring cut contains_any trim_right str_eq
old_ring_made = refl

new_ring_made : new_keyring glass (second_spec ∷ first_spec ∷ []) ≡ ok new_ring
unfolding new_keyring cut contains_any trim_right str_eq
new_ring_made = refl

decrypt-rotated_example :
    (sealed : Str) × (encrypt glass old_ring (some (7 ∷ 8 ∷ [])) (codes "secret") (codes "row")
      ≡ ok sealed)
    × (decrypt glass new_ring sealed (codes "row") ≡ ok (codes "secret"))
    × (needs_rotation glass new_ring sealed ≡ true)
decrypt-rotated_example =
    decrypt-rotated glass (λ _ _ _ _ _. refl) (λ _. refl) (λ _. omega arith) (7 ∷ 8 ∷ [])
      (codes "secret") (codes "row") (λ _. refl) (omega arith) second_spec (first_spec ∷ [])
      old_ring new_ring old_ring_made new_ring_made

abbrev shifted : ℕ → Str → Str
shifted n [] = []
shifted n (c ∷ s) = (c + n) ∷ shifted n s

abbrev unshifted : ℕ → Str → Str
unshifted n [] = []
unshifted n (c ∷ s) = (c - n) ∷ unshifted n s

-- A password's bytes, padded to the length of the key, and a text whose bytes are moved past `$`.
abbrev padding : Argon
padding = record {
  id_key = λ password salt t m p n. take n (password ++ replicate n 0);
  encode = shifted 40;
  decode_strict = λ s. some (unshifted 40 s);
  scan_version = λ s. if str_eq s (codes "v=19") then some 19 else none;
}

unshifted-shifted : (s : Str) → unshifted 40 (shifted 40 s) ≡ s
unshifted-shifted [] = refl
unshifted-shifted (c ∷ s) = ground (arith, unshifted-shifted s)

shifted_clean : (s : Str) → contains_byte (shifted 40 s) b'$' ≡ false
unfolding contains_byte
shifted_clean [] = refl
shifted_clean (c ∷ s) = ground (arith, shifted_clean s)

length-replicate : (n : ℕ) → length {A = ℕ} (replicate n 0) ≡ n
length-replicate zero = refl
length-replicate (suc n) = ground (arith, length-replicate n)

padded_length : (s : Str) (n : ℕ) → length (take n (s ++ replicate n 0)) ≡ n
padded_length s n =
    omega (
      arith,
      length-take n (s ++ replicate n 0),
      length-append s (replicate n 0),
      length-replicate n,
    )

abbrev salt : Str
salt = codes "0123456789abcdef"

version_19 : padding.scan_version (codes "v=19") ≡ some 19
unfolding str_eq
version_19 = refl

abbrev hash_of_secret : Str
hash_of_secret =
    encoded_hash padding (default_params 4) salt
      (key_of padding (default_params 4) salt (codes "secret"))

hashed :
    hash_password_with padding (codes "secret") (default_params 4) (some salt)
    ≡ hash_ok hash_of_secret
unfolding hash_password_with
hashed = refl

verify-hash_example :
    verify_password padding 4 hash_of_secret (codes "guess")
    ≡ hash_ok (
      str_eq
          (key_of padding (default_params 4) salt (codes "guess"))
          (key_of padding (default_params 4) salt (codes "secret")),
      false,
    )
verify-hash_example =
    verify-hash padding (λ s. ap some (unshifted-shifted s)) shifted_clean version_19
      (λ password salt t m p n. padded_length password n) 4 (codes "secret") (codes "guess") salt
      refl (omega arith) hash_of_secret (omega arith) hashed

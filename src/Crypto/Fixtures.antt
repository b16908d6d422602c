-- ===== src/Crypto/Fixtures.antt =====
-- A cipher that does not hide anything.
use smtp_auth_proxy.Prelude.{some}
use smtp_auth_proxy.Strings.{Str}
use smtp_auth_proxy.Crypto.Keyring.{Ciphers}

abbrev pub glass : Ciphers
glass = record {
  Aead = Str;
  new_gcm = λ k. some k;
  nonce_size = λ _. 2;
  seal = λ aead nonce plaintext context. plaintext;
  open_sealed = λ aead nonce text context. some text;
  encode = λ s. s;
  decode = λ s. some s;
  decode_std = λ s. some s;
  decode_strict = λ s. some s;
}

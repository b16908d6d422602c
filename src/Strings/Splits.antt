-- ===== src/Strings/Splits.antt =====
-- What a search finds, as an equation of the text.
use native.Mathlib.Numerals.{add-one}
use smtp_auth_proxy.Prelude.{
  ℕ, zero, suc, ◌+◌, ◌<◌, ◌≡◌, refl, false, none, some, ◌∷◌, ◌++◌, arith, length, take, drop, [],
}
use smtp_auth_proxy.Strings.Equality.{Str}
use smtp_auth_proxy.Strings.Search.{last_index_byte, contains_byte, cut_prefix, cut, split}

last_index_none : (s : Str) (c : ℕ) → last_index_byte s c ≡ none → contains_byte s c ≡ false
unfolding last_index_byte contains_byte
last_index_none [] c h = refl
last_index_none (x ∷ s) c h = ground (arith, last_index_none s c)

pub none_last_index : (s : Str) (c : ℕ) → contains_byte s c ≡ false → last_index_byte s c ≡ none
unfolding last_index_byte contains_byte
none_last_index [] c h = refl
none_last_index (x ∷ s) c h = ground (arith, none_last_index s c)

split_suc :
    (s : Str) (c at : ℕ)
    → last_index_byte s c ≡ some at
    → (s ≡ take at s ++ c ∷ drop (suc at) s)
      × (contains_byte (drop (suc at) s) c ≡ false)
      × (at < length s)
unfolding last_index_byte contains_byte
split_suc [] c at h = cc
split_suc (x ∷ s) c zero h = ground (arith, last_index_none s c)
split_suc (x ∷ s) c (suc at) h = ground (arith, split_suc s c at)

append_suc :
    (l d : Str) (c : ℕ)
    → contains_byte d c ≡ false
    → (last_index_byte (l ++ c ∷ d) c ≡ some (length l)) × (drop (suc (length l)) (l ++ c ∷ d) ≡ d)
unfolding last_index_byte
append_suc [] d c h = ground (arith, none_last_index d c)
append_suc (x ∷ l) d c h = ground (arith, append_suc l d c)

-- The last occurrence splits the text: before it, the byte, and a rest without the byte.
pub last_index_split :
    (s : Str) (c at : ℕ)
    → last_index_byte s c ≡ some at
    → (s ≡ take at s ++ c ∷ drop (at + 1) s)
      × (contains_byte (drop (at + 1) s) c ≡ false)
      × (at < length s)
last_index_split s c at h = rw add-one (split_suc s c at h)

-- The other way round.
pub last_index-append :
    (l d : Str) (c : ℕ)
    → contains_byte d c ≡ false
    → (last_index_byte (l ++ c ∷ d) c ≡ some (length l)) × (drop (length l + 1) (l ++ c ∷ d) ≡ d)
last_index-append l d c h = rw add-one (append_suc l d c h)

-- The first occurrence is the separator.
pub cut-append : (a b : Str) (c : ℕ) → contains_byte a c ≡ false → cut (a ++ c ∷ b) c ≡ some (a, b)
unfolding cut contains_byte
cut-append [] b c h = ground arith
cut-append (x ∷ a) b c h = ground (arith, cut-append a b c)

pub split-append :
    (a b : Str) (c : ℕ) → contains_byte a c ≡ false → split (a ++ c ∷ b) c ≡ a ∷ split b c
unfolding split contains_byte
split-append [] b c h = ground arith
split-append (x ∷ a) b c h = ground (arith, split-append a b c)

pub split_whole : (a : Str) (c : ℕ) → contains_byte a c ≡ false → split a c ≡ a ∷ []
unfolding split contains_byte
split_whole [] c h = refl
split_whole (x ∷ a) c h = ground (arith, split_whole a c)

pub cut_prefix-some : (s p r : Str) → cut_prefix s p ≡ some r → s ≡ p ++ r
unfolding cut_prefix
cut_prefix-some s [] r h = cc
cut_prefix-some [] (p ∷ ps) r h = cc
cut_prefix-some (x ∷ s) (p ∷ ps) r h = ground (arith, cut_prefix-some s ps r)

pub cut_prefix-append : (p r : Str) → cut_prefix (p ++ r) p ≡ some r
unfolding cut_prefix
cut_prefix-append [] r = refl
cut_prefix-append (x ∷ p) r = ground (arith, cut_prefix-append p r)

-- ===== src/Config/Expand.antt =====
-- The references of a configuration file to variables and files: internal/config/expand.go. The texts
-- of the errors are left out.
pub mod Totality
use smtp_auth_proxy.Prelude.{
  ℕ, zero, suc, ◌+◌, ◌⊎◌, inl, inr, Bool, true, false, not, ◌&&◌, ◌||◌, Option, none, some, ◌∷◌,
  ◌++◌, ltb, ◌==◌, if◌then◌else◌, length, take, drop, [],
}
use smtp_auth_proxy.Strings.{Str, codes, cut, cut_prefix, index, trim_space}

pub data ExpandError : Type 0 where
  unset_variable unterminated empty_reference empty_path relative_path too_large unreadable :
      ExpandError

-- `out_of_fuel` is no answer of the source.
pub data Expansion : Type 0 where
  expanded : Str → Expansion
  refused : ExpandError → Expansion
  out_of_fuel : Expansion

-- The process's environment and files, with the size that stat gives, and filepath.IsAbs.
pub record Environment : Type 0 where
  pub lookup : Str → Option Str
  pub is_abs : Str → Bool
  pub size : Str → Option ℕ
  pub read_file : Str → Option Str

-- The lexical state of YAML: `inComment` and `quote`, of which one at most is set.
pub data Mode : Type 0 where
  plain comment single double : Mode

abbrev pub max_file_secret_size : ℕ
max_file_secret_size = 1048576

abbrev pub newline : ℕ
newline = 10

abbrev pub apostrophe : ℕ
apostrophe = 39

abbrev pub quotation : ℕ
quotation = 34

abbrev pub backslash : ℕ
backslash = 92

abbrev pub dollar : ℕ
dollar = 36

abbrev pub hash : ℕ
hash = 35

abbrev pub opening : ℕ
opening = 123

abbrev pub closing : ℕ
closing = 125

-- Whether a number sign after the byte, which the start of the text has none of, begins a comment.
abbrev pub begins_comment : Option ℕ → Bool
begins_comment none = true
begins_comment (some p) = p == 32 || p == 9 || p == newline

-- The state after a byte that is not half of an escape.
unfoldable pub next_mode : Mode → Option ℕ → ℕ → Mode
next_mode plain previous c =
    if c == apostrophe
    then single
    else if c == quotation
    then double
    else if c == hash && begins_comment previous
    then comment
    else plain
next_mode comment previous c = if c == newline then plain else comment
next_mode single previous c = if c == newline || c == apostrophe then plain else single
next_mode double previous c = if c == newline || c == quotation then plain else double

-- The doubled apostrophe and the backslash, before the byte `d`.
unfoldable pub is_escape : Mode → ℕ → ℕ → Bool
is_escape plain c d = false
is_escape comment c d = false
is_escape single c d = c == apostrophe && d == apostrophe
is_escape double c d = c == backslash

abbrev pub in_comment : Mode → Bool
in_comment comment = true
in_comment _ = false

abbrev pub prefixed : Str → Expansion → Expansion
prefixed s (expanded t) = expanded (s ++ t)
prefixed s (refused e) = refused e
prefixed s out_of_fuel = out_of_fuel

module _ (env : Environment) where
  unfoldable pub resolve_file : Str → ExpandError ⊎ Str
  resolve_file raw =
      let path = trim_space raw in
      if length path == 0
      then inl empty_path
      else if not (env.is_abs path)
      then inl relative_path
      else if elim (env.size path) [ none ↦ false | some n ↦ ltb max_file_secret_size n ]
      then inl too_large
      else elim (env.read_file path) [
        | none ↦ inl unreadable
        | some content ↦ inr (trim_space content)
      ]

  -- The name and the fallback, if there is one.
  unfoldable pub fallback_of : Str → Str × Option Str
  fallback_of ref = elim (index ref (codes ":-")) [
    | none ↦ (ref, none)
    | some i ↦ (take i ref, some (drop (i + 2) ref))
  ]

  abbrev pub fallback_or : Option Str → ExpandError ⊎ Str
  fallback_or none = inl unset_variable
  fallback_or (some value) = inr value

  unfoldable pub resolve : Str → ExpandError ⊎ Str
  unfolding resolve_file fallback_of
  resolve ref =
      let (name, fallback) = fallback_of ref in
      if length ref == 0 then inl empty_reference else elim (cut_prefix ref (codes "file:")) [
        | some path ↦ resolve_file path
        | none ↦ elim (env.lookup name) [
          | none ↦ fallback_or fallback
          | some value ↦ if length value == 0 then fallback_or fallback else inr value
        ]
      ]

  -- A turn of the loop at a byte that is not half of an escape; `continue` is the rest of the loop.
  unfoldable pub turn : (Option ℕ → Mode → Str → Expansion) → Mode → ℕ → Str → Expansion
  unfolding resolve
  turn continue mode c s =
      if in_comment mode || not (c == dollar)
      then prefixed (c ∷ []) (continue (some c) mode s)
      else elim s [
        | [] ↦ prefixed (dollar ∷ []) (continue (some c) mode [])
        | d ∷ rest ↦
            if d == dollar
            then prefixed (dollar ∷ []) (continue (some dollar) mode rest)
            else if not (d == opening)
            then prefixed (dollar ∷ []) (continue (some c) mode (d ∷ rest))
            else elim (cut rest closing) [
              | none ↦ refused unterminated
              | some (ref, later) ↦ elim (resolve ref) [
                | inl e ↦ refused e
                | inr value ↦ prefixed value (continue (some closing) mode later)
              ]
            ]
      ]

  -- One byte, or an escape of two.
  unfoldable pub step : (Option ℕ → Mode → Str → Expansion) → Option ℕ → Mode → ℕ → Str → Expansion
  unfolding is_escape next_mode turn
  step continue previous mode c [] = turn continue (next_mode mode previous c) c []
  step continue previous mode c (d ∷ s) =
      if is_escape mode c d
      then prefixed (c ∷ d ∷ []) (continue (some d) mode s)
      else turn continue (next_mode mode previous c) c (d ∷ s)

  -- The loop, from the byte after `previous`; each turn takes one byte at least.
  unfoldable pub expand_from : ℕ → Option ℕ → Mode → Str → Expansion
  unfolding step
  expand_from fuel previous mode [] = expanded []
  expand_from zero previous mode (c ∷ s) = out_of_fuel
  expand_from (suc fuel) previous mode (c ∷ s) = step (expand_from fuel) previous mode c s

  -- `expand`
  unfoldable pub expand : Str → Expansion
  unfolding expand_from
  expand raw = expand_from (length raw) none plain raw

-- ===== src/Policy/Address.antt =====
-- Addresses and allow-list patterns: internal/policy/address.go.
pub mod Patterns
use smtp_auth_proxy.Prelude.{
  ℕ, ◌+◌, ◌-◌, Bool, false, ◌||◌, Option, none, some, List, ◌∷◌, ltb, ◌==◌, if◌then◌else◌, length,
  drop, [],
}
use smtp_auth_proxy.Strings.{
  Str, str_eq, codes, trim_space, trim, to_lower, last_index_byte, contains_byte, contains_any,
  cut_prefix,
}

-- Go's `net/mail`: the parsers of one address (a display name and the address) and of a list, and
-- the rendering of an address with its display name. They are the standard library's; nothing is
-- assumed of them.
pub record Mail : Type 0 where
  pub parse_one : Str → Option (Str × Str)
  pub parse_list : Str → Option (List (Str × Str))
  pub format : Str → Str → Str

-- The texts of the errors, which wrap `ErrNoAddress` or `ErrMalformedAddress`, are left out.
pub data AddressError : Type 0 where
  no_address malformed : AddressError

pub data Result {ℓ} (A : Type ℓ) : Type ℓ where
  ok : A → Result A
  err : AddressError → Result A

pub record Address : Type 0 where
  pub display : Str
  pub original : Str
  pub normalized : Str
  pub domain : Str

abbrev pub empty : Address
empty = record { display = []; original = []; normalized = []; domain = [] }

abbrev pub max_address_len : ℕ
max_address_len = 320

unfoldable pub is_empty : Address → Bool
is_empty a = length a.normalized == 0

-- From the parser's answer to the address; the '@' has to have something on both sides.
unfoldable pub from_parsed : Str × Str → Result Address
from_parsed (name, address) = elim (last_index_byte address b'@') [
  | none ↦ err malformed
  | some at ↦
      if at == 0 || at == length address - 1
      then err malformed
      else ok (record {
        display = name;
        original = address;
        normalized = to_lower address;
        domain = to_lower (drop (at + 1) address);
      })
]

unfoldable pub parse_address : Mail → Str → Result Address
unfolding from_parsed
parse_address mail raw =
    let trimmed = trim_space raw in
    if length trimmed == 0 || str_eq trimmed (codes "<>")
    then ok empty
    else if ltb max_address_len (length trimmed)
    then err malformed
    else elim (mail.parse_one trimmed) [
      | some parsed ↦ from_parsed parsed
      | none ↦ elim (mail.parse_one (trim trimmed (codes "<>"))) [
        | some parsed ↦ from_parsed parsed
        | none ↦ err malformed
      ]
    ]

-- `MustParseAddress`; `none` is its panic.
unfoldable pub must_parse_address : Mail → Str → Option Address
must_parse_address mail raw = elim (parse_address mail raw) [ ok a ↦ some a | err e ↦ none ]

-- `Address.String`
unfoldable pub to_string : Mail → Address → Str
unfolding is_empty
to_string mail a =
    if is_empty a
    then []
    else if length a.display == 0
    then a.original
    else mail.format a.display a.original

unfoldable pub parse_header_from : Mail → Str → Result Address
parse_header_from mail header =
    let trimmed = trim_space header in
    if length trimmed == 0 then err no_address else elim (mail.parse_list trimmed) [
      | none ↦ parse_address mail trimmed
      | some [] ↦ err no_address
      | some ((name, address) ∷ []) ↦ elim (parse_address mail address) [
        | err e ↦ err e
        | ok a ↦ ok (record a { display = name })
      ]
      | some _ ↦ err malformed
    ]

abbrev pub any_local : Str
any_local = codes "*@"

-- The comparison with a pattern that is trimmed and in lower case.
unfoldable pub matches_clean : Str → Str → Bool
matches_clean normalized pattern =
    if length pattern == 0 || length normalized == 0
    then false
    else elim (cut_prefix pattern any_local) [
      | none ↦ str_eq normalized pattern
      | some domain ↦ if length domain == 0 then false else elim (last_index_byte normalized b'@') [
        | none ↦ false
        | some at ↦ str_eq (drop (at + 1) normalized) domain
      ]
    ]

unfoldable pub matches_pattern : Str → Str → Bool
matches_pattern normalized pattern = matches_clean normalized (to_lower (trim_space pattern))

pub data PatternError : Type 0 where
  empty_pattern matches_all bad_domain unsupported bad_address : PatternError

-- `none` accepts the pattern.
unfoldable pub validate_pattern : Mail → Str → Option PatternError
validate_pattern mail pattern =
    let trimmed = trim_space pattern in
    if length trimmed == 0
    then some empty_pattern
    else if str_eq trimmed (codes "*") || str_eq trimmed (codes "*@*")
    then some matches_all
    else elim (cut_prefix trimmed any_local) [
      | some domain ↦
          if length domain == 0 || contains_any domain (codes "*@ ") then some bad_domain else none
      | none ↦
          if contains_byte trimmed b'*'
          then some unsupported
          else elim (parse_address mail trimmed) [ ok _ ↦ none | err _ ↦ some bad_address ]
    ]

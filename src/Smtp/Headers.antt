-- ===== src/Smtp/Headers.antt =====
-- The header block of a submission: internal/smtpsrv/headers.go.
pub mod Lines
pub mod Body
use smtp_auth_proxy.Prelude.{
  ℕ, ◌+◌, ◌⊎◌, inl, inr, Bool, true, false, not, ◌&&◌, ◌||◌, Option, none, some, List, ◌∷◌, ◌++◌,
  ltb, ◌==◌, if◌then◌else◌, length, take, drop, [],
}
use smtp_auth_proxy.Strings.{
  Str, str_eq, codes, trim_space, trim_right, contains_byte, contains_any, index_byte, index,
}

-- Go's `net/textproto` and the iteration over a map: reading a header block, the value of a field
-- (the empty string when it is missing), the canonical form of a field name, and the order in which
-- `range` visits a map.
pub record Textproto : Type 1 where
  pub Header : Type 0
  pub read_header : Str → Option Header
  pub get : Header → Str → Str
  pub canonical : Str → Str
  pub range : List (Str × Str) → List (Str × Str)

pub data HeaderError : Type 0 where
  no_separator too_large unreadable : HeaderError

abbrev pub max_header_bytes : ℕ
max_header_bytes = 1048576

abbrev pub crlf : Str
crlf = 13 ∷ 10 ∷ []

abbrev pub blank_crlf : Str
blank_crlf = 13 ∷ 10 ∷ 13 ∷ 10 ∷ []

abbrev pub blank_lf : Str
blank_lf = 10 ∷ 10 ∷ []

-- `none` is `ErrNoHeaderSeparator`.
unfoldable pub find_header_end : Str → Option ℕ
find_header_end raw = elim (index raw blank_crlf) [
  | some i ↦ some (i + 4)
  | none ↦ elim (index raw blank_lf) [ some i ↦ some (i + 2) | none ↦ none ]
]

-- `splitLines`; every line but the last one ends in its LF.
unfoldable pub split_lines : Str → List Str
split_lines [] = []
split_lines (x ∷ s) =
    let rest = split_lines s in
    if x == 10
    then (x ∷ []) ∷ rest
    else elim rest [ [] ↦ (x ∷ []) ∷ [] | line ∷ lines ↦ (x ∷ line) ∷ lines ]

-- The replacer of "\r\n", "\r" and "\n" by a space.
unfoldable pub replace_newlines : Str → Str
replace_newlines [] = []
replace_newlines (x ∷ []) = (if x == 13 || x == 10 then 32 else x) ∷ []
replace_newlines (x ∷ y ∷ s) =
    let both = replace_newlines s in
    let one = replace_newlines (y ∷ s) in
    if x == 13 && y == 10 then 32 ∷ both else if x == 13 || x == 10 then 32 ∷ one else x ∷ one

unfoldable pub sanitize_header_value : Str → Str
sanitize_header_value v = if not (contains_any v crlf) then v else trim_space (replace_newlines v)

pub record HeaderEdit : Type 0 where
  pub key : Str
  pub value : Str
  pub prepend : Bool

-- A write to the map `replace`.
unfoldable pub put : List (Str × Str) → Str → Str → List (Str × Str)
put [] key value = (key, value) ∷ []
put ((k, v) ∷ rest) key value =
    let later = put rest key value in if str_eq k key then (key, value) ∷ rest else (k, v) ∷ later

unfoldable pub lookup : List (Str × Str) → Str → Option Str
lookup [] key = none
lookup ((k, v) ∷ rest) key = let later = lookup rest key in if str_eq k key then some v else later

unfoldable pub member : Str → List Str → Bool
member key [] = false
member key (k ∷ rest) = str_eq k key || member key rest

-- Trimming "\r\n" from the end of a line.
unfoldable pub trim_eol : Str → Str
trim_eol line = trim_right (λ c. c == 13 || c == 10) line

abbrev pub is_continuation : Str → Bool
is_continuation [] = false
is_continuation (c ∷ _) = c == 32 || c == 9

-- The offset of the first colon, and 0 where the source has a negative one: it tests `colon <= 0`.
unfoldable pub colon : Str → ℕ
unfolding index_byte
colon line = elim (index_byte line b':') [ none ↦ 0 | some i ↦ i ]

-- Writes a line before what the rest of the walk writes.
unfoldable pub write_line : Str → Str × List Str → Str × List Str
write_line line (out, seen) = (line ++ (crlf ++ out), seen)

module _ (text : Textproto) where
  pub record Message : Type 0 where
    pub raw : Str
    pub header_end : ℕ
    pub header : text.Header

  -- `parseMessage`; the list of keys, which nothing reads, is left out.
  unfoldable pub parse_message : Str → (HeaderError ⊎ Message)
  unfolding find_header_end
  parse_message raw = elim (find_header_end raw) [
    | none ↦ inl no_separator
    | some end ↦
        if ltb max_header_bytes end then inl too_large else elim (text.read_header (take end raw)) [
          | none ↦ inl unreadable
          | some header ↦ inr (record { raw = raw; header_end = end; header = header })
        ]
  ]

  unfoldable pub body : Message → Str
  body m = drop m.header_end m.raw

  unfoldable pub get : Message → Str → Str
  get m key = text.get m.header key

  -- A header line without its CRLF, and with it.
  unfoldable pub field : Str → Str → Str
  field key value = text.canonical key ++ (codes ": " ++ sanitize_header_value value)

  unfoldable pub header_line : Str → Str → Str
  unfolding field
  header_line key value = field key value ++ crlf

  unfoldable pub replacements : List HeaderEdit → List (Str × Str) → List (Str × Str)
  replacements [] replace = replace
  replacements (e ∷ edits) replace =
      if e.prepend
      then replacements edits replace
      else replacements edits (put replace (text.canonical e.key) e.value)

  unfoldable pub prepended : List HeaderEdit → Str
  unfolding header_line
  prepended [] = []
  prepended (e ∷ edits) =
      let rest = prepended edits in if e.prepend then header_line e.key e.value ++ rest else rest

  -- The walk over the lines of the block: what it writes and the fields it has seen.
  unfoldable pub walk : List (Str × Str) → Bool → List Str → List Str → Str × List Str
  unfolding trim_eol write_line lookup colon field
  walk replace skipping seen [] = ([], seen)
  walk replace skipping seen (line ∷ lines) =
      let trimmed = trim_eol line in
      let same = walk replace skipping seen lines in
      let kept = write_line trimmed (walk replace false seen lines) in
      let key = text.canonical (trim_space (take (colon trimmed) trimmed)) in
      let dropped = walk replace true (key ∷ seen) lines in
      if length trimmed == 0
      then ([], seen)
      else if is_continuation trimmed
      then (if skipping then same else write_line trimmed same)
      else if colon trimmed == 0
      then kept
      else elim (lookup replace key) [
        | none ↦ kept
        | some value ↦ if length value == 0 then dropped else write_line (field key value) dropped
      ]

  -- The fields that the message did not have.
  unfoldable pub added : List (Str × Str) → List Str → Str
  unfolding header_line member
  added [] seen = []
  added ((key, value) ∷ rest) seen =
      let later = added rest seen in
      if not (member key seen) && not (length value == 0)
      then header_line key value ++ later
      else later

  -- The header block that `rewriteHeaders` writes, without the blank line.
  unfoldable pub block : Message → List HeaderEdit → Str
  unfolding replacements prepended walk added split_lines
  block m edits =
      let replace = replacements edits [] in
      let (kept, seen) = walk replace false [] (split_lines (take m.header_end m.raw)) in
      prepended edits ++ (kept ++ added (text.range replace) seen)

  unfoldable pub rewrite_headers : Message → List HeaderEdit → Str
  unfolding block body
  rewrite_headers m edits = block m edits ++ (crlf ++ body m)

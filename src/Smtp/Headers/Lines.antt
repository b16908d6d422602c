-- ===== src/Smtp/Headers/Lines.antt =====
-- Blocks of written lines, and where the first blank line is: `findHeaderEnd` of
-- internal/smtpsrv/headers.go.
use smtp_auth_proxy.Prelude.{
  ℕ, ◌+◌, ◌≤◌, ◌≡◌, refl, ap, inl, inr, false, none, some, ◌∷◌, ◌++◌, append_assoc, arith,
  Option-cases, length, length-append, [],
}
use smtp_auth_proxy.Strings.{Str, cut_prefix, index, contains_byte}
use smtp_auth_proxy.Smtp.Headers.{crlf, blank_crlf, find_header_end}

-- A text of lines that end in CRLF, none of them empty and none with an LF inside.
pub data IsBlock : Str → Type 0 where
  no_lines : IsBlock []
  line :
      (c : ℕ) (l rest : Str)
      → contains_byte (c ∷ l) 10 ≡ false
      → IsBlock rest
      → IsBlock ((c ∷ l) ++ (crlf ++ rest))

pub IsBlock-append : (a b : Str) → IsBlock a → IsBlock b → IsBlock (a ++ b)
IsBlock-append _ b no_lines k = k
IsBlock-append _ b (line c l rest n h) k =
    rw (append_assoc (c ∷ l) (crlf ++ rest) b) (line c l (rest ++ b) n (IsBlock-append rest b h k))

-- What follows a line: the next one does not start with CRLF, or it is the blank line.
Starts : Str → Type 0
Starts s = cut_prefix s crlf ≡ none

starts :
    (c : ℕ) (l rest : Str) → contains_byte (c ∷ l) 10 ≡ false → Starts ((c ∷ l) ++ (crlf ++ rest))
unfolding Starts cut_prefix contains_byte
starts c [] rest h = ground arith
starts c (d ∷ l) rest h = ground arith

-- Within a line no blank line is found.
index-line :
    (l rest : Str)
    → contains_byte l 10 ≡ false
    → Starts rest
    → index (l ++ (crlf ++ rest)) blank_crlf
      ≡ elim (index rest blank_crlf) [ none ↦ none | some i ↦ some (length l + 2 + i) ]
unfolding Starts index cut_prefix contains_byte
index-line [] rest h k = elim (Option-cases (index rest blank_crlf)) [
  | inl e ↦ ground arith
  | inr (i, e) ↦ ground arith
]
index-line (x ∷ []) rest h k =
    let later = index-line [] rest refl k in
    elim (Option-cases (index rest blank_crlf)) [ inl e ↦ ground arith | inr (i, e) ↦ ground arith ]
index-line (x ∷ y ∷ l) rest h k =
    let later = index-line (y ∷ l) rest (ground arith) k in
    elim (Option-cases (index rest blank_crlf)) [ inl e ↦ ground arith | inr (i, e) ↦ ground arith ]

index-last :
    (l body : Str)
    → contains_byte l 10 ≡ false
    → index (l ++ (crlf ++ (crlf ++ body))) blank_crlf ≡ some (length l)
unfolding index cut_prefix contains_byte
index-last [] body h = refl
index-last (x ∷ []) body h = let later = index-last [] body refl in ground arith
index-last (x ∷ y ∷ l) body h = let later = index-last (y ∷ l) body (ground arith) in ground arith

-- The blank line after a block is at its last CRLF.
index-block :
    (c : ℕ) (l rest body : Str)
    → contains_byte (c ∷ l) 10 ≡ false
    → IsBlock rest
    → index ((c ∷ l) ++ (crlf ++ (rest ++ (crlf ++ body)))) blank_crlf
      ≡ some (length (c ∷ l) + length rest)
index-block c l _ body n no_lines = rw (index-last (c ∷ l) body n) (ap some (omega arith))
index-block c l _ body n (line d m rest k h) =
    let first =
      index-line (c ∷ l) ((d ∷ m) ++ (crlf ++ (rest ++ (crlf ++ body)))) n
        (starts d m (rest ++ (crlf ++ body)) k) in
    let later = index-block d m rest body k h in
    rw
      (
        append_assoc (d ∷ m) (crlf ++ rest) (crlf ++ body),
        first,
        later,
        length-append (d ∷ m) (crlf ++ rest),
      )
      (ap some (omega arith))

found : (raw : Str) (i : ℕ) → index raw blank_crlf ≡ some i → find_header_end raw ≡ some (i + 4)
unfolding find_header_end
found raw i e = ground arith

-- A block with a line, the blank line and a body: the header ends behind the blank line.
pub find_header_end-block :
    (block body : Str)
    → IsBlock block
    → 1 ≤ length block
    → find_header_end (block ++ (crlf ++ body)) ≡ some (length block + 2)
find_header_end-block _ body no_lines h = ground arith
find_header_end-block _ body (line c l rest n k) h =
    rw
      (
        append_assoc (c ∷ l) (crlf ++ rest) (crlf ++ body),
        found _ _ (index-block c l rest body n k),
        length-append (c ∷ l) (crlf ++ rest),
      )
      (ap some (omega arith))

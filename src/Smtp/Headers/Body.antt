-- ===== src/Smtp/Headers/Body.antt =====
-- What `rewriteHeaders` of internal/smtpsrv/headers.go writes: a block of lines, which a reader of
-- the result splits from the same body.
use smtp_auth_proxy.Prelude.{
  ℕ, zero, suc, ◌+◌, ◌≤◌, ◌≡◌, refl, ap, ◌≢◌, ◌⊎◌, inl, inr, Bool, true, false, not, ◌&&◌, Option,
  none, some, List, ◌∷◌, ◌++◌, append_assoc, arith, ◌==◌, if◌then◌else◌, if_cases, ==_iff, length,
  take, drop, length-append, All, [],
}
use smtp_auth_proxy.Strings.{
  Str, codes, trim_space, trim_left, trim_right, is_space, contains_byte, contains_any,
}
use smtp_auth_proxy.Smtp.Headers.{
  Textproto, Message, HeaderEdit, crlf, find_header_end, split_lines, replace_newlines,
  sanitize_header_value, trim_eol, write_line, colon, is_continuation, put, lookup, member, field,
  header_line, replacements, prepended, walk, added, block, body, rewrite_headers,
}
use smtp_auth_proxy.Smtp.Headers.Lines.{
  IsBlock, no_lines, line, IsBlock-append, find_header_end-block,
}

-- No byte of the text ends a line.
abbrev OneLine : Str → Type 0
OneLine s = contains_byte s 10 ≡ false

append_one : (s t : Str) → OneLine s → OneLine t → OneLine (s ++ t)
unfolding contains_byte
append_one [] t h k = k
append_one (x ∷ s) t h k = ground (arith, append_one s t)

trim_left_one : (p : ℕ → Bool) (s : Str) → OneLine s → OneLine (trim_left p s)
unfolding contains_byte trim_left
trim_left_one p [] h = refl
trim_left_one p (x ∷ s) h = ground (arith, trim_left_one p s)

trim_right_one : (p : ℕ → Bool) (s : Str) → OneLine s → OneLine (trim_right p s)
unfolding contains_byte trim_right
trim_right_one p [] h = refl
trim_right_one p (x ∷ s) h = ground (arith, trim_right_one p s)

replace_one : (s : Str) → OneLine (replace_newlines s)
unfolding contains_byte replace_newlines
replace_one [] = refl
replace_one (x ∷ []) = ground arith
replace_one (x ∷ y ∷ s) = ground (arith, replace_one s, replace_one (y ∷ s))

clean_one : (s : Str) → contains_any s crlf ≡ false → OneLine s
unfolding contains_byte contains_any
clean_one [] h = refl
clean_one (x ∷ s) h = ground (arith, clean_one s)

-- A sanitized value stays on its line.
pub sanitize_one : (v : Str) → contains_byte (sanitize_header_value v) 10 ≡ false
unfolding sanitize_header_value trim_space
sanitize_one v =
    if_cases OneLine (not (contains_any v crlf)) (λ h. clean_one v (ground arith))
      (λ h. trim_right_one is_space _ (trim_left_one is_space _ (replace_one v)))

-- An LF stands nowhere but at the end.
IsLine : Str → Type 0
IsLine [] = Unit
IsLine (x ∷ s) = ((x ≡ 10) × (s ≡ [])) ⊎ ((x ≢ 10) × IsLine s)

split_lines-IsLine : (s : Str) → All IsLine (split_lines s)
unfolding split_lines IsLine
split_lines-IsLine [] = tt
split_lines-IsLine (x ∷ s) =
    let later = split_lines-IsLine s in
    if_cases (All IsLine) (x == 10) (λ e. (inl ((==_iff x 10).0 e, refl), later))
      (λ e. joined (split_lines s) later (λ z. ground arith))
  where
    joined :
        (lines : List Str)
        → All IsLine lines
        → x ≢ 10
        → All IsLine (elim lines [ [] ↦ (x ∷ []) ∷ [] | l ∷ ls ↦ (x ∷ l) ∷ ls ])
    joined [] h n = (inr (n, tt), tt)
    joined (l ∷ ls) h n = (inr (n, h.0), h.1)

trim_eol_one : (s : Str) → IsLine s → OneLine (trim_eol s)
unfolding trim_eol IsLine trim_right contains_byte
trim_eol_one [] h = refl
trim_eol_one (x ∷ s) h = ground (arith, trim_eol_one s)

-- A text that is one line, written as one.
line-IsBlock :
    (l : Str)
    → OneLine l
    → (length l == 0) ≡ false
    → (rest : Str) → IsBlock rest
    → IsBlock (l ++ (crlf ++ rest))
line-IsBlock [] h e rest k = ground arith
line-IsBlock (c ∷ l) h e rest k = line c l rest h k

module _ (text : Textproto)
    (canonical_one : (k : Str)
      → contains_byte k 10 ≡ false
      → contains_byte (text.canonical k) 10 ≡ false) where
  field_one : (key value : Str) → OneLine key → OneLine (field text key value)
  unfolding field contains_byte
  field_one key value h =
      append_one (text.canonical key) (codes ": " ++ sanitize_header_value value)
        (canonical_one key h)
        (append_one (codes ": ") (sanitize_header_value value) refl (sanitize_one value))

  field_nonempty : (key value : Str) → (length (field text key value) == 0) ≡ false
  unfolding field
  field_nonempty key value =
      let n = length-append (text.canonical key) (codes ": " ++ sanitize_header_value value) in
      ground arith

  write_line-IsBlock :
      (l : Str) (r : Str × List Str)
      → OneLine l
      → (length l == 0) ≡ false
      → IsBlock r.0
      → IsBlock (write_line l r).0
  unfolding write_line
  write_line-IsBlock l r h e k = line-IsBlock l h e r.0 k

  field-IsBlock :
      (key value : Str) (r : Str × List Str)
      → OneLine key
      → IsBlock r.0
      → IsBlock (write_line (field text key value) r).0
  field-IsBlock key value r h k =
      write_line-IsBlock (field text key value) r (field_one key value h) (field_nonempty key value)
        k

  take_one : (n : ℕ) (s : Str) → OneLine s → OneLine (take n s)
  unfolding contains_byte
  take_one zero s h = refl
  take_one (suc n) [] h = refl
  take_one (suc n) (x ∷ s) h = ground (arith, take_one n s)

  walk_line :
      (replace : List (Str × Str)) (skipping : Bool) (seen : List Str) (l : Str) (lines : List Str)
      → IsLine l
      → ((skip : Bool) (keys : List Str) → IsBlock (walk text replace skip keys lines).0)
      → IsBlock (walk text replace skipping seen (l ∷ lines)).0
  unfolding walk
  walk_line replace skipping seen l lines h later =
      if_cases Written (length trimmed == 0) (λ _. no_lines)
        (λ e.
          if_cases Written (is_continuation trimmed)
            (λ _.
              if_cases Written skipping (λ _. same)
                (λ _.
                  write_line-IsBlock trimmed (walk text replace skipping seen lines) one e same))
            (λ _.
              if_cases Written (colon trimmed == 0) (λ _. kept e)
                (λ _. looked e (lookup replace key))))
    where
      Written : Str × List Str → Type 0
      Written r = IsBlock r.0

      trimmed : Str
      trimmed = trim_eol l

      one : OneLine trimmed
      one = trim_eol_one l h

      key : Str
      key = text.canonical (trim_space (take (colon trimmed) trimmed))

      key_one : OneLine key
      key_one =
          unfold trim_space in
          canonical_one _ (
            trim_right_one is_space _
              (trim_left_one is_space _ (take_one (colon trimmed) trimmed one)))

      same : IsBlock (walk text replace skipping seen lines).0
      same = later skipping seen

      kept :
          (length trimmed == 0) ≡ false
          → IsBlock (write_line trimmed (walk text replace false seen lines)).0
      kept e =
          write_line-IsBlock trimmed (walk text replace false seen lines) one e (later false seen)

      dropped : IsBlock (walk text replace true (key ∷ seen) lines).0
      dropped = later true (key ∷ seen)

      looked :
          (length trimmed == 0) ≡ false
          → (o : Option Str)
          → Written (elim o [
            | none ↦ write_line trimmed (walk text replace false seen lines)
            | some value ↦
                if length value == 0
                then walk text replace true (key ∷ seen) lines
                else write_line (field text key value) (walk text replace true (key ∷ seen) lines)
          ])
      looked e none = kept e
      looked e (some value) =
          if_cases Written (length value == 0) (λ _. dropped)
            (λ _.
              field-IsBlock key value (walk text replace true (key ∷ seen) lines) key_one dropped)

  walk-IsBlock :
      (replace : List (Str × Str)) (skipping : Bool) (seen : List Str) (lines : List Str)
      → All IsLine lines
      → IsBlock (walk text replace skipping seen lines).0
  walk-IsBlock replace skipping seen [] h = unfold walk in no_lines
  walk-IsBlock replace skipping seen (l ∷ lines) h =
      walk_line replace skipping seen l lines h.0
        (λ skip keys. walk-IsBlock replace skip keys lines h.1)

  -- A name of an edit, in canonical form or not, has no LF.
  KeysClean : List HeaderEdit → Type 0
  KeysClean edits = All (λ e. OneLine e.key) edits

  prepended-IsBlock : (edits : List HeaderEdit) → KeysClean edits → IsBlock (prepended text edits)
  unfolding prepended header_line KeysClean
  prepended-IsBlock [] h = no_lines
  prepended-IsBlock (e ∷ edits) h =
      let rest = prepended-IsBlock edits h.1 in
      if_cases IsBlock e.prepend
        (λ _. rw (append_assoc (field text e.key e.value) crlf (prepended text edits)) (
          line-IsBlock (field text e.key e.value) (field_one e.key e.value h.0)
            (field_nonempty e.key e.value) _ rest))
        (λ _. rest)

  pub EntriesClean : List (Str × Str) → Type 0
  EntriesClean entries = All (λ (e : Str × Str). OneLine e.0) entries

  put_clean :
      (entries : List (Str × Str)) (key value : Str)
      → EntriesClean entries
      → OneLine key
      → EntriesClean (put entries key value)
  unfolding put EntriesClean
  put_clean [] key value h k = (k, tt)
  put_clean ((name, old) ∷ rest) key value h k = ground (arith, put_clean rest key value h.1 k)

  replacements_clean :
      (edits : List HeaderEdit) (entries : List (Str × Str))
      → KeysClean edits
      → EntriesClean entries
      → EntriesClean (replacements text edits entries)
  unfolding replacements KeysClean
  replacements_clean [] entries h k = k
  replacements_clean (e ∷ edits) entries h k =
      if_cases EntriesClean e.prepend (λ _. replacements_clean edits entries h.1 k)
        (λ _.
          replacements_clean edits (put entries (text.canonical e.key) e.value) h.1
            (put_clean entries (text.canonical e.key) e.value k (canonical_one e.key h.0)))

  added-IsBlock :
      (entries : List (Str × Str)) (seen : List Str)
      → EntriesClean entries
      → IsBlock (added text entries seen)
  unfolding added header_line EntriesClean
  added-IsBlock [] seen h = no_lines
  added-IsBlock ((key, value) ∷ rest) seen h =
      let later = added-IsBlock rest seen h.1 in
      if_cases IsBlock (not (member key seen) && not (length value == 0))
        (λ _. rw (append_assoc (field text key value) crlf (added text rest seen)) (
          line-IsBlock (field text key value) (field_one key value h.0) (field_nonempty key value) _
            later))
        (λ _. later)

  module _
      (range_clean : (entries : List (Str × Str))
        → EntriesClean entries
        → EntriesClean (text.range entries)) where
    block-IsBlock :
        (m : Message text) (edits : List HeaderEdit)
        → KeysClean edits
        → IsBlock (block text m edits)
    unfolding block EntriesClean
    block-IsBlock m edits h =
        let replace = replacements text edits [] in
        let walked = walk text replace false [] (split_lines (take m.header_end m.raw)) in
        IsBlock-append (prepended text edits) _ (prepended-IsBlock edits h) (
          IsBlock-append walked.0 _
            (walk-IsBlock replace false [] (split_lines (take m.header_end m.raw))
              (split_lines-IsLine (take m.header_end m.raw)))
            (added-IsBlock (text.range replace) walked.1
              (range_clean replace (replacements_clean edits [] h tt))))

    drop_past : (a b : Str) → drop (length a + 2) (a ++ (crlf ++ b)) ≡ b
    drop_past [] b = refl
    drop_past (x ∷ a) b = ground (arith, drop_past a b)

    -- If the canonical form of a field name without an LF has none, and ranging over a map with
    -- such names visits only such names, then a message whose header is rewritten by edits with
    -- such names splits again, at the end of its header block, into a block and the unchanged body,
    -- provided that the written block has a line: neither a value of an edit nor a field of the
    -- message puts in a blank line.
    pub rewrite_headers-body :
        (m : Message text) (edits : List HeaderEdit)
        → All (λ e. contains_byte e.key 10 ≡ false) edits
        → 1 ≤ length (block text m edits)
        → elim (find_header_end (rewrite_headers text m edits)) [
          | none ↦ none
          | some end ↦ some (drop end (rewrite_headers text m edits))
        ]
          ≡ some (body text m)
    unfolding rewrite_headers KeysClean
    rewrite_headers-body m edits h n =
        rw (find_header_end-block (block text m edits) (body text m) (block-IsBlock m edits h) n)
          (ap some (drop_past (block text m edits) (body text m)))

-- ===== src/Config/Expand/Totality.antt =====
-- The expansion ends, and leaves a text without references alone: internal/config/expand.go.
use smtp_auth_proxy.Prelude.{
  ℕ, option_cases, zero, suc, ◌≤◌, ◌≡◌, refl, ap, ◌∙◌, subst, ◌≢◌, ◌⊎◌, inl, inr, Bool, true, false,
  not, ◌||◌, Option, none, some, ◌∷◌, arith, ◌==◌, if_cases, length, [],
}
use smtp_auth_proxy.Strings.{Str, cut, contains_byte}
use smtp_auth_proxy.Config.Expand.{
  Environment, ExpandError, Expansion, expanded, refused, out_of_fuel, Mode, plain, comment,
  next_mode, is_escape, in_comment, prefixed, dollar, opening, closing, newline, hash, resolve,
  turn, step, expand_from, expand, unterminated,
}

-- The expansion is an answer of the source.
abbrev pub IsAnswer : Expansion → Type 0
IsAnswer r = r ≢ out_of_fuel

prefixed-IsAnswer : (s : Str) (r : Expansion) → IsAnswer r → IsAnswer (prefixed s r)
prefixed-IsAnswer s (expanded t) h e = cc
prefixed-IsAnswer s (refused x) h e = cc
prefixed-IsAnswer s out_of_fuel h e = h refl

expanded-IsAnswer : (s : Str) → IsAnswer (expanded s)
expanded-IsAnswer s e = cc

refused-IsAnswer : (x : ExpandError) → IsAnswer (refused x)
refused-IsAnswer x e = cc

abbrev Short : ℕ → Option (Str × Str) → Type 0
Short n none = Unit
Short n (some p) = length p.1 ≤ n

longer :
    (x n : ℕ) (o : Option (Str × Str))
    → Short n o
    → Short (suc n) (elim o as (λ _. Option (Str × Str)) [
      | none ↦ none
      | some (before, after) ↦ some (x ∷ before, after)
    ])
longer x n none h = tt
longer x n (some p) h = omega (arith, h)

cut-Short : (s : Str) (c : ℕ) → Short (length s) (cut s c)
unfolding cut
cut-Short [] c = tt
cut-Short (x ∷ s) c =
    if_cases (Short (suc (length s))) (x == c) (λ _. omega arith)
      (λ _. longer x (length s) (cut s c) (cut-Short s c))

length-cut : (s : Str) (c : ℕ) {p : Str × Str} → cut s c ≡ some p → length p.1 ≤ length s
length-cut s c h = subst (Short (length s)) h (cut-Short s c)

neither : (a b : Bool) → (a || b) ≡ false → (a ≡ false) × (b ≡ false)
neither true b h = cc
neither false b h = (refl, h)

module _ (env : Environment) where
  -- `n` is the length that the rest of the loop can take.
  module _ (continue : Option ℕ → Mode → Str → Expansion) (n : ℕ)
      (ends : (previous : Option ℕ) (mode : Mode) (s : Str)
        → length s ≤ n
        → IsAnswer (continue previous mode s)) where
    continued :
        (prefix : Str) (previous : Option ℕ) (mode : Mode) (s : Str)
        → length s ≤ n
        → IsAnswer (prefixed prefix (continue previous mode s))
    continued prefix previous mode s h =
        prefixed-IsAnswer prefix (continue previous mode s) (ends previous mode s h)

    turn-IsAnswer :
        (mode : Mode) (c : ℕ) (s : Str) → length s ≤ n → IsAnswer (turn env continue mode c s)
    unfolding turn
    turn-IsAnswer mode c [] h =
        if_cases IsAnswer (in_comment mode || not (c == dollar))
          (λ _. continued (c ∷ []) (some c) mode [] h)
          (λ _. continued (dollar ∷ []) (some c) mode [] h)
    turn-IsAnswer mode c (d ∷ rest) h =
        let short : length rest ≤ n = omega arith in
        if_cases IsAnswer (in_comment mode || not (c == dollar))
          (λ _. continued (c ∷ []) (some c) mode (d ∷ rest) h)
          (λ _.
            if_cases IsAnswer (d == dollar)
              (λ _. continued (dollar ∷ []) (some dollar) mode rest short)
              (λ _.
                if_cases IsAnswer (not (d == opening))
                  (λ _. continued (dollar ∷ []) (some c) mode (d ∷ rest) h)
                  (λ _.
                    option_cases IsAnswer (cut rest closing) (λ _. refused-IsAnswer unterminated)
                      (λ p e.
                        by_value p.1 (resolve env p.0)
                          (omega (arith, length-cut rest closing e, short))))))
      where
        by_value :
            (later : Str) (o : ExpandError ⊎ Str)
            → length later ≤ n
            → IsAnswer (elim o [
              | inl e ↦ refused e
              | inr value ↦ prefixed value (continue (some closing) mode later)
            ])
        by_value later (inl x) k = refused-IsAnswer x
        by_value later (inr value) k = continued value (some closing) mode later k

    step-IsAnswer :
        (previous : Option ℕ) (mode : Mode) (c : ℕ) (s : Str)
        → length s ≤ n
        → IsAnswer (step env continue previous mode c s)
    unfolding step
    step-IsAnswer previous mode c [] h = turn-IsAnswer (next_mode mode previous c) c [] h
    step-IsAnswer previous mode c (d ∷ s) h =
        if_cases IsAnswer (is_escape mode c d)
          (λ _. continued (c ∷ d ∷ []) (some d) mode s (omega arith))
          (λ _. turn-IsAnswer (next_mode mode previous c) c (d ∷ s) h)

  expand_from-IsAnswer :
      (fuel : ℕ) (previous : Option ℕ) (mode : Mode) (s : Str)
      → length s ≤ fuel
      → IsAnswer (expand_from env fuel previous mode s)
  unfolding expand_from
  expand_from-IsAnswer fuel previous mode [] h = expanded-IsAnswer []
  expand_from-IsAnswer zero previous mode (c ∷ s) h = absurd (omega (arith, h))
  expand_from-IsAnswer (suc fuel) previous mode (c ∷ s) h =
      step-IsAnswer (expand_from env fuel) fuel (expand_from-IsAnswer fuel) previous mode c s
        (omega (arith, h))

  -- Whatever the text of the configuration, the variables and the files, the loop that expands
  -- references ends with a text or an error: the fuel that it is given, one turn for each byte of
  -- the text, is never used up.
  pub expand-IsAnswer : (raw : Str) → IsAnswer (expand env raw)
  unfolding expand
  expand-IsAnswer raw = expand_from-IsAnswer (length raw) none plain raw (omega arith)

  -- A text without a dollar sign.
  plain_turn :
      (continue : Option ℕ → Mode → Str → Expansion) (mode : Mode) (c : ℕ) (s : Str)
      → (c == dollar) ≡ false
      → turn env continue mode c s ≡ prefixed (c ∷ []) (continue (some c) mode s)
  unfolding turn
  plain_turn continue mode c s h =
      if_cases (λ r. r ≡ prefixed (c ∷ []) (continue (some c) mode s))
        (in_comment mode || not (c == dollar)) (λ _. refl) (λ f. ground arith)

  expand_from_plain :
      (fuel : ℕ) (previous : Option ℕ) (mode : Mode) (s : Str)
      → length s ≤ fuel
      → contains_byte s dollar ≡ false
      → expand_from env fuel previous mode s ≡ expanded s
  unfolding expand_from step contains_byte
  expand_from_plain fuel previous mode [] h n = refl
  expand_from_plain zero previous mode (c ∷ s) h n = absurd (omega (arith, h))
  expand_from_plain (suc fuel) previous mode (c ∷ []) h n =
      plain_turn (expand_from env fuel) (next_mode mode previous c) c []
        (neither (c == dollar) false n).0
      ∙ ap (prefixed (c ∷ []))
          (expand_from_plain fuel (some c) (next_mode mode previous c) [] (omega arith) refl)
  expand_from_plain (suc fuel) previous mode (c ∷ d ∷ s) h n =
      let (n0, n1) = neither (c == dollar) (contains_byte (d ∷ s) dollar) n in
      let (n2, n3) = neither (d == dollar) (contains_byte s dollar) n1 in
      if_cases (λ r. r ≡ expanded (c ∷ d ∷ s)) (is_escape mode c d)
        (λ _.
          ap (prefixed (c ∷ d ∷ [])) (expand_from_plain fuel (some d) mode s (omega (arith, h)) n3))
        (λ _.
          plain_turn (expand_from env fuel) (next_mode mode previous c) c (d ∷ s) n0
          ∙ ap (prefixed (c ∷ [])) (
              expand_from_plain fuel (some c) (next_mode mode previous c) (d ∷ s) (omega (arith, h))
                n1))

  -- A text without a dollar sign is its own expansion, whatever the environment.
  pub expand_plain : (raw : Str) → contains_byte raw dollar ≡ false → expand env raw ≡ expanded raw
  unfolding expand
  expand_plain raw n = expand_from_plain (length raw) none plain raw (omega arith) n

  stays :
      (previous : Option ℕ) (c : ℕ)
      → (c == newline) ≡ false
      → next_mode comment previous c ≡ comment
  unfolding next_mode
  stays previous c h = ground arith

  -- A turn in a comment.
  comment_turn :
      (continue : Option ℕ → Mode → Str → Expansion) (previous : Option ℕ) (c : ℕ) (s : Str)
      → (c == newline) ≡ false
      → continue (some c) comment s ≡ expanded s
      → turn env continue (next_mode comment previous c) c s ≡ expanded (c ∷ s)
  unfolding turn
  comment_turn continue previous c s h e =
      ap (λ m. turn env continue m c s) (stays previous c h) ∙ ap (prefixed (c ∷ [])) e

  expand_from_comment :
      (fuel : ℕ) (previous : Option ℕ) (s : Str)
      → length s ≤ fuel
      → contains_byte s newline ≡ false
      → expand_from env fuel previous comment s ≡ expanded s
  unfolding expand_from step contains_byte is_escape
  expand_from_comment fuel previous [] h n = refl
  expand_from_comment zero previous (c ∷ s) h n = absurd (omega (arith, h))
  expand_from_comment (suc fuel) previous (c ∷ []) h n =
      comment_turn (expand_from env fuel) previous c [] (neither (c == newline) false n).0
        (expand_from_comment fuel (some c) [] (omega arith) refl)
  expand_from_comment (suc fuel) previous (c ∷ d ∷ s) h n =
      let (n0, n1) = neither (c == newline) (contains_byte (d ∷ s) newline) n in
      comment_turn (expand_from env fuel) previous c (d ∷ s) n0
        (expand_from_comment fuel (some c) (d ∷ s) (omega (arith, h)) n1)

  -- A comment without a newline that starts the text is its own expansion, whatever the
  -- environment: a reference in it is neither looked up nor an error.
  pub expand_comment :
      (s : Str) → contains_byte s newline ≡ false → expand env (hash ∷ s) ≡ expanded (hash ∷ s)
  unfolding expand expand_from step next_mode is_escape turn
  expand_comment [] n = refl
  expand_comment (d ∷ s) n =
      ap (prefixed (hash ∷ []))
        (expand_from_comment (length (d ∷ s)) (some hash) (d ∷ s) (omega arith) n)

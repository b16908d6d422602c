-- ===== src/Strings/Search.antt =====
-- Searching, trimming and case mapping.
use smtp_auth_proxy.Prelude.{
  ℕ, zero, suc, ◌+◌, ◌-◌, ◌/◌, ◌%◌, ◌≡◌, refl, Bool, false, ◌&&◌, ◌||◌, Option, none, some, List,
  ◌∷◌, ◌++◌, map, arith, ltb, leb, ◌==◌, if◌then◌else◌, is_some, length, ◌*◌, [],
}
use smtp_auth_proxy.Strings.Equality.{Str, str_eq}

-- strings.IndexByte and strings.LastIndex of one byte.
unfoldable pub index_byte : Str → ℕ → Option ℕ
index_byte [] c = none
index_byte (x ∷ s) c =
    let rest = index_byte s c in
    if x == c then some 0 else elim rest [ none ↦ none | some i ↦ some (suc i) ]

unfoldable pub last_index_byte : Str → ℕ → Option ℕ
last_index_byte [] c = none
last_index_byte (x ∷ s) c = elim (last_index_byte s c) [
  | some i ↦ some (suc i)
  | none ↦ if x == c then some 0 else none
]

-- strings.Cut with a separator of one byte.
unfoldable pub cut : Str → ℕ → Option (Str × Str)
cut [] c = none
cut (x ∷ s) c =
    let rest = cut s c in
    if x == c
    then some ([], s)
    else elim rest [ none ↦ none | some (before, after) ↦ some (x ∷ before, after) ]

unfoldable pub contains_byte : Str → ℕ → Bool
contains_byte [] c = false
contains_byte (x ∷ s) c = x == c || contains_byte s c

-- strings.ContainsAny(s, cutset)
unfoldable pub contains_any : Str → Str → Bool
unfolding contains_byte
contains_any [] cutset = false
contains_any (x ∷ s) cutset = contains_byte cutset x || contains_any s cutset

-- strings.CutPrefix: what follows the prefix.
unfoldable pub cut_prefix : Str → Str → Option Str
cut_prefix s [] = some s
cut_prefix [] (p ∷ ps) = none
cut_prefix (x ∷ s) (p ∷ ps) = let rest = cut_prefix s ps in if x == p then rest else none

-- bytes.Index: the offset of the first occurrence.
unfoldable pub index : Str → Str → Option ℕ
unfolding cut_prefix
index [] sub = if is_some (cut_prefix [] sub) then some 0 else none
index (x ∷ s) sub =
    let rest = index s sub in
    if is_some (cut_prefix (x ∷ s) sub)
    then some 0
    else elim rest [ none ↦ none | some i ↦ some (suc i) ]

-- A sequence of digits, with the value so far; `number` is strconv.ParseUint in base 10, but for its
-- bound.
unfoldable pub digits : Str → ℕ → Option ℕ
digits [] n = some n
digits (c ∷ s) n =
    let rest = digits s (10 * n + (c - b'0')) in if leb b'0' c && leb c b'9' then rest else none

unfoldable pub number : Str → Option ℕ
unfolding digits
number s = if length s == 0 then none else digits s 0

-- strings.Split with a separator of one byte.
abbrev pub longer_head : ℕ → List Str → List Str
longer_head x [] = (x ∷ []) ∷ []
longer_head x (field ∷ fields) = (x ∷ field) ∷ fields

unfoldable pub split : Str → ℕ → List Str
split [] c = [] ∷ []
split (x ∷ s) c = let rest = split s c in if x == c then [] ∷ rest else longer_head x rest

abbrev pub is_space : ℕ → Bool
is_space c = c == 32 || leb 9 c && leb c 13

-- What is left after the leading bytes that qualify; `trim_right` drops the trailing ones.
unfoldable pub trim_left : (ℕ → Bool) → Str → Str
trim_left p [] = []
trim_left p (x ∷ s) = let rest = trim_left p s in if p x then rest else x ∷ s

unfoldable pub trim_right : (ℕ → Bool) → Str → Str
trim_right p [] = []
trim_right p (x ∷ s) = let rest = trim_right p s in if length rest == 0 && p x then [] else x ∷ rest

unfoldable pub trim_space : Str → Str
unfolding trim_left trim_right
trim_space s = trim_right is_space (trim_left is_space s)

-- strings.Trim(s, cutset)
unfoldable pub trim : Str → Str → Str
unfolding trim_left trim_right contains_byte
trim s cutset = trim_right (contains_byte cutset) (trim_left (contains_byte cutset) s)

unfoldable pub lower : ℕ → ℕ
lower c = if leb b'A' c && leb c b'Z' then c + 32 else c

unfoldable pub upper : ℕ → ℕ
upper c = if leb b'a' c && leb c b'z' then c - 32 else c

unfoldable pub to_lower : Str → Str
unfolding lower
to_lower = map lower

unfoldable pub equal_fold : Str → Str → Bool
unfolding to_lower str_eq
equal_fold s t = str_eq (to_lower s) (to_lower t)

-- strings.Join(parts, sep)
unfoldable pub join : Str → List Str → Str
join sep [] = []
join sep (s ∷ []) = s
join sep (s ∷ t ∷ rest) = s ++ (sep ++ join sep (t ∷ rest))

-- %d: `n` digits are always enough for `n`.
unfoldable pub decimal_from : ℕ → ℕ → Str
decimal_from zero n = []
decimal_from (suc fuel) n =
    let rest = decimal_from fuel (n / 10) in
    if ltb n 10 then (48 + n) ∷ [] else rest ++ (48 + n % 10) ∷ []

unfoldable pub decimal : ℕ → Str
unfolding decimal_from
decimal n = decimal_from (suc n) n

pub lower_idem : (c : ℕ) → lower (lower c) ≡ lower c
unfolding lower
lower_idem c = ground arith

pub to_lower_idem : (s : Str) → to_lower (to_lower s) ≡ to_lower s
unfolding to_lower
to_lower_idem [] = refl
to_lower_idem (c ∷ s) = cc (lower_idem c, to_lower_idem s)

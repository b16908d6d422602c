-- ===== src/Oauth/Xoauth2.antt =====
-- The initial response of the XOAUTH2 mechanism: internal/oauth/xoauth2.go.
use smtp_auth_proxy.Prelude.{
  ℕ, ◌≡◌, refl, sym, ap, ◌∙◌, subst, inl, inr, true, false, ◌||◌, Option, none, some, ◌∷◌, ◌++◌,
  arith, ◌==◌, if◌then◌else◌, ==_iff, Bool-cases, length, [],
}
use smtp_auth_proxy.Strings.{Str, codes, contains_byte, contains_any, split, split-append}

abbrev pub separator : ℕ
separator = 1

abbrev pub controls : Str
controls = separator ∷ 13 ∷ 10 ∷ []

unfoldable pub build_xoauth2 : Str → Str → Option Str
build_xoauth2 mailbox access_token =
    if length mailbox == 0 || length access_token == 0
    then none
    else if contains_any mailbox controls || contains_any access_token controls
    then none
    else some (
        (codes "user=" ++ mailbox)
        ++ separator ∷ ((codes "auth=Bearer " ++ access_token) ++ separator ∷ separator ∷ []))

contains_any-byte :
    (s t : Str) (c : ℕ)
    → contains_byte t c ≡ true
    → contains_any s t ≡ false
    → contains_byte s c ≡ false
unfolding contains_any contains_byte
contains_any-byte [] t c i h = refl
contains_any-byte (x ∷ s) t c i h = elim (Bool-cases (x == c)) [
  | inl e ↦
      (let q : contains_byte t x ≡ true =
          subst (λ z. contains_byte t z ≡ true) (sym ((==_iff x c).0 e)) i in
        ground (arith))
  | inr n ↦ ground (arith, contains_any-byte s t c i)
]

accepted :
    (mailbox access_token : Str) {response : Str}
    → build_xoauth2 mailbox access_token ≡ some response
    → (contains_any mailbox controls ≡ false)
      × (contains_any access_token controls ≡ false)
      × (response
          ≡ (codes "user=" ++ mailbox)
            ++ separator ∷ ((codes "auth=Bearer " ++ access_token) ++ separator ∷ separator ∷ []))
unfolding build_xoauth2
accepted mailbox access_token h = ground arith

-- When the initial response of XOAUTH2 is built, splitting it at its separator gives back the
-- mailbox and the token, each in its field, then two empty fields: neither can add a field.
pub build_xoauth2-split :
    (mailbox access_token : Str) {response : Str}
    → build_xoauth2 mailbox access_token ≡ some response
    → split response separator
      ≡ (codes "user=" ++ mailbox) ∷ (codes "auth=Bearer " ++ access_token) ∷ [] ∷ [] ∷ []
unfolding build_xoauth2 contains_byte split
build_xoauth2-split mailbox access_token h =
    let (m, t, e) = accepted mailbox access_token h in
    let m1 = contains_any-byte mailbox controls separator refl m in
    let t1 = contains_any-byte access_token controls separator refl t in
    let head : Str = codes "user=" ++ mailbox in
    let tail : Str = codes "auth=Bearer " ++ access_token in
    let first = split-append head (tail ++ separator ∷ separator ∷ []) separator m1 in
    let second = split-append tail (separator ∷ []) separator t1 in
    ap (λ r. split r separator) e ∙ first ∙ ap (λ rest. head ∷ rest) second

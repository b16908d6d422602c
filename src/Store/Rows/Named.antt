-- ===== src/Store/Rows/Named.antt =====
-- The row that a key names, after a statement about another key.
use smtp_auth_proxy.Prelude.{
  ◌≡◌, refl, sym, ap, ◌∙◌, subst, inl, inr, Bool, true, false, ◌||◌, some, List, ◌∷◌, arith,
  Bool-cases, [],
}
use smtp_auth_proxy.Strings.{Str, str_eq, str_eq_iff, str_eq→eq}
use smtp_auth_proxy.Store.Rows.Members.{find-key}
use smtp_auth_proxy.Store.Rows.{
  any, filter, delete_where, update_where, find, find-update_where, changed,
}

module _ {ℓ} {A : Type ℓ} (key : A → Str) where
  pub find-any :
      (p : A → Bool) (k : Str) (xs : List A) {x : A}
      → find key k xs ≡ some x
      → any p xs ≡ false
      → p x ≡ false
  unfolding find any
  find-any p k [] h n = cc
  find-any p k (y ∷ ys) {x} h n = elim (Bool-cases (str_eq (key y) k)) [
    | inl e ↦ (let q : y ≡ x = ground arith in subst (λ z. p z ≡ false) q (ground arith))
    | inr e ↦ find-any p k ys (ground arith) (ground arith)
  ]

  pub find-delete_other :
      (id k : Str) (xs : List A)
      → str_eq k id ≡ false
      → find key k (delete_where (λ x. str_eq (key x) id) xs) ≡ find key k xs
  unfolding find filter
  find-delete_other id k [] h = refl
  find-delete_other id k (x ∷ xs) h = ground (
    arith,
    str_eq_iff (key x) k,
    str_eq_iff (key x) id,
    str_eq_iff k id,
    find-delete_other id k xs h,
  )

  pub find-update_other :
      (f : A → A) (id k : Str) (xs : List A) {x : A}
      → ((y : A) → key (f y) ≡ key y)
      → find key k xs ≡ some x
      → str_eq (key x) id ≡ false
      → find key k (update_where (λ y. str_eq (key y) id) f xs) ≡ some x
  find-update_other f id k xs keeps h n =
      find-update_where key (λ y. str_eq (key y) id) f keeps k xs
      ∙ ap (changed key (λ y. str_eq (key y) id) f) h
      ∙ rw n refl

  -- A row whose id and other unique text are free hides no other.
  pub find-cons_free :
      (row : A) (q : A → Bool) (k : Str) (xs : List A) {x : A}
      → find key k xs ≡ some x
      → any (λ y. str_eq (key y) (key row) || q y) xs ≡ false
      → find key k (row ∷ xs) ≡ some x
  unfolding find
  find-cons_free row q k xs {x} h n =
      let f : str_eq (key x) (key row) ≡ false =
        either (str_eq (key x) (key row)) (q x)
          (find-any (λ y. str_eq (key y) (key row) || q y) k xs h n) in
      elim (Bool-cases (str_eq (key row) k)) [
        | inl e ↦ absurd (
            true_ne_false (
              sym (
                (str_eq_iff (key x) (key row)).1
                  (find-key key k xs h ∙ sym (str_eq→eq (key row) k e)))
              ∙ f))
        | inr e ↦ rw e h
      ]
    where
      either : (a b : Bool) → (a || b) ≡ false → a ≡ false
      either true b e = cc
      either false b e = refl

      true_ne_false : true ≡ false → ⊥
      true_ne_false e = cc

-- ===== src/Store/Rows/Members.antt =====
-- Which rows a statement leaves in a table, and what holds of all of them.
use smtp_auth_proxy.Prelude.{
  ℕ, zero, suc, ◌≡◌, refl, Bool, true, some, List, ◌∷◌, arith, leb, subst, In-cons, In-head, length,
  take, Bool-cases, inl, inr, All, In, ◌⊎◌, ◌+◌, ◌≤◌, sym, false, ◌||◌, none, if◌then◌else◌, [],
}
use smtp_auth_proxy.Strings.{Str, str_eq, str_eq_iff, str_eq_refl}
use smtp_auth_proxy.Store.Rows.{
  update_where, filter, insert_by, order_by, find, Unique, insert_sorted, sort_by, str_leb,
}

module _ {ℓ κ} {A : Type ℓ} (P : A → Type κ) where
  pub All-update_where :
      (p : A → Bool) (f : A → A) (xs : List A)
      → ((x : A) → P x → p x ≡ true → P (f x))
      → All P xs
      → All P (update_where p f xs)
  unfolding update_where
  All-update_where p f [] keep h = tt
  All-update_where p f (x ∷ xs) keep h = elim (Bool-cases (p x)) [
    | inl e ↦ rw e (keep x h.0 e, All-update_where p f xs keep h.1)
    | inr e ↦ rw e (h.0, All-update_where p f xs keep h.1)
  ]

  pub All-filter : (p : A → Bool) (xs : List A) → All P xs → All P (filter p xs)
  unfolding filter
  All-filter p [] h = tt
  All-filter p (x ∷ xs) h = elim (Bool-cases (p x)) [
    | inl e ↦ rw e (h.0, All-filter p xs h.1)
    | inr e ↦ rw e (All-filter p xs h.1)
  ]

  pub All-find :
      (key : A → Str) (k : Str) (xs : List A) {x : A} → All P xs → find key k xs ≡ some x → P x
  unfolding find
  All-find key k [] h e = cc
  All-find key k (y ∷ ys) {x} h e = elim (Bool-cases (str_eq (key y) k)) [
    | inl s ↦ subst P (some_injective (rw s at e)) h.0
    | inr s ↦ All-find key k ys h.1 (rw s at e)
  ]
    where
      some_injective : some y ≡ some x → y ≡ x
      some_injective q = cc

module _ {ℓ} {A : Type ℓ} where
  pub In-take : {x : A} (n : ℕ) (xs : List A) → In x (take n xs) → In x xs
  In-take zero xs h = elim h [ ]
  In-take (suc n) [] h = h
  In-take (suc n) (y ∷ ys) In.here = In.here
  In-take (suc n) (y ∷ ys) (In.there h) = In.there (In-take n ys h)

  In-insert_by :
      {x : A} (rank : A → ℕ) (y : A) (ys : List A) → In x (insert_by rank y ys) → (x ≡ y) ⊎ In x ys
  unfolding insert_by
  In-insert_by rank y [] h = In-cons h
  In-insert_by {x} rank y (z ∷ zs) h = elim (Bool-cases (leb (rank y) (rank z))) [
    | inl e ↦ In-cons (rw e at h)
    | inr e ↦ elim (In-cons (rw e at h)) [
      | inl q ↦ inr (In-head q)
      | inr k ↦ elim (In-insert_by rank y zs k) [ inl q ↦ inl q | inr l ↦ inr (In.there l) ]
    ]
  ]

  pub In-order_by : {x : A} (rank : A → ℕ) (xs : List A) → In x (order_by rank xs) → In x xs
  unfolding order_by
  In-order_by rank [] h = h
  In-order_by rank (y ∷ ys) h = elim (In-insert_by rank y (order_by rank ys) h) [
    | inl q ↦ In-head q
    | inr k ↦ In.there (In-order_by rank ys k)
  ]

  pub In-filter : {x : A} (p : A → Bool) (xs : List A) → In x (filter p xs) → In x xs × (p x ≡ true)
  unfolding filter
  In-filter p [] h = elim h [ ]
  In-filter {x} p (y ∷ ys) h = elim (Bool-cases (p y)) [
    | inl e ↦ elim (In-cons (rw e at h)) [
      | inl q ↦ (In-head q, rw q e)
      | inr k ↦ let (l, r) = In-filter p ys k in (In.there l, r)
    ]
    | inr e ↦ let (l, r) = In-filter p ys (rw e at h) in (In.there l, r)
  ]

  pub In-update_where :
      {y : A} (p : A → Bool) (f : A → A) (xs : List A)
      → In y (update_where p f xs)
      → (x : A) × In x xs × (y ≡ (if p x then f x else x))
  unfolding update_where
  In-update_where p f [] h = elim h [ ]
  In-update_where p f (x ∷ xs) h = elim (In-cons h) [
    | inl q ↦ (x, In.here, q)
    | inr k ↦ let (z, i, q) = In-update_where p f xs k in (z, In.there i, q)
  ]

  pub All-In {κ} : (P : A → Type κ) {x : A} (xs : List A) → All P xs → In x xs → P x
  All-In P [] h i = elim i [ ]
  All-In P (y ∷ ys) h i = elim (In-cons i) [
    | inl q ↦ subst P (sym q) h.0
    | inr k ↦ All-In P ys h.1 k
  ]

  pub length-filter_or :
      (a b : A → Bool) (xs : List A)
      → length (filter (λ x. a x || b x) xs) ≤ length (filter a xs) + length (filter b xs)
  unfolding filter
  length-filter_or a b [] = omega arith
  length-filter_or a b (x ∷ xs) = ground (arith, length-filter_or a b xs)

  pub length-filter-update_where :
      (q p : A → Bool) (f : A → A) (xs : List A)
      → All (λ x. q x ≡ false) xs
      → length (filter q (update_where p f xs)) ≤ length (filter p xs)
  unfolding filter update_where
  length-filter-update_where q p f [] h = omega arith
  length-filter-update_where q p f (x ∷ xs) h = elim (Bool-cases (p x)) [
    | inl e ↦ rw e (ground (arith, length-filter-update_where q p f xs h.1))
    | inr e ↦ rw (e, h.0) (length-filter-update_where q p f xs h.1)
  ]

  pub All-map {κ μ} :
      (P : A → Type κ) (Q : A → Type μ) (xs : List A) → ((x : A) → P x → Q x) → All P xs → All Q xs
  All-map P Q [] f h = tt
  All-map P Q (x ∷ xs) f h = (f x h.0, All-map P Q xs f h.1)

  pub length-filter-false : (xs : List A) → length (filter (λ _. false) xs) ≡ 0
  unfolding filter
  length-filter-false [] = refl
  length-filter-false (x ∷ xs) = length-filter-false xs

  length-insert_by :
      (rank : A → ℕ) (y : A) (ys : List A) → length (insert_by rank y ys) ≡ suc (length ys)
  unfolding insert_by
  length-insert_by rank y [] = refl
  length-insert_by rank y (z ∷ zs) = ground (arith, length-insert_by rank y zs)

  pub length-order_by : (rank : A → ℕ) (xs : List A) → length (order_by rank xs) ≡ length xs
  unfolding order_by
  length-order_by rank [] = refl
  length-order_by rank (x ∷ xs) =
      omega (arith, length-insert_by rank x (order_by rank xs), length-order_by rank xs)

module _ {ℓ} {A : Type ℓ} (key : A → Str) where
  -- A row of the table is the row that its key finds.
  pub find-In : {x : A} (xs : List A) → Unique key xs → In x xs → find key (key x) xs ≡ some x
  unfolding find
  find-In [] u h = elim h [ ]
  find-In {x} (y ∷ ys) u h = elim (In-cons h) [
    | inl q ↦ rw q (unfold find in rw (str_eq_refl (key y)))
    | inr k ↦ elim (Bool-cases (str_eq (key y) (key x))) [
      | inl e ↦ absurd (absent ((str_eq_iff _ _).0 e) (find-In ys u.1 k))
      | inr e ↦ rw e (find-In ys u.1 k)
    ]
  ]
    where
      absent : key y ≡ key x → find key (key x) ys ≡ some x → ⊥
      absent e f = cc (u.0, e, f)

  pub find-key : (k : Str) (xs : List A) {x : A} → find key k xs ≡ some x → key x ≡ k
  unfolding find
  find-key k [] e = cc
  find-key k (y ∷ ys) {x} e = ground (arith, str_eq_iff (key y) k, find-key k ys {x = x})

  pub find→In : (k : Str) (xs : List A) {x : A} → find key k xs ≡ some x → In x xs
  unfolding find
  find→In k [] e = cc
  find→In k (y ∷ ys) {x} e = elim (Bool-cases (str_eq (key y) k)) [
    | inl s ↦ In-head (some_injective (rw s at e))
    | inr s ↦ In.there (find→In k ys (rw s at e))
  ]
    where
      some_injective : some y ≡ some x → x ≡ y
      some_injective q = cc

  length-filter_absent :
      (k : Str) (xs : List A)
      → find key k xs ≡ none
      → length (filter (λ x. str_eq (key x) k) xs) ≡ 0
  unfolding find filter
  length-filter_absent k [] h = refl
  length-filter_absent k (x ∷ xs) h = ground (arith, length-filter_absent k xs)

  -- A primary key selects one row at most.
  pub length-filter_key :
      (k : Str) (xs : List A) → Unique key xs → length (filter (λ x. str_eq (key x) k) xs) ≤ 1
  unfolding filter
  length-filter_key k [] u = omega arith
  length-filter_key k (x ∷ xs) u = elim (Bool-cases (str_eq (key x) k)) [
    | inl e ↦ rw e (omega (arith, length-filter_absent k xs (rw (← (str_eq_iff _ _).0 e) u.0)))
    | inr e ↦ rw e (length-filter_key k xs u.1)
  ]

  In-insert_sorted :
      {x : A} (y : A) (ys : List A) → In x (insert_sorted key y ys) → (x ≡ y) ⊎ In x ys
  unfolding insert_sorted
  In-insert_sorted y [] h = In-cons h
  In-insert_sorted {x} y (z ∷ zs) h = elim (Bool-cases (str_leb (key y) (key z))) [
    | inl e ↦ In-cons (rw e at h)
    | inr e ↦ elim (In-cons (rw e at h)) [
      | inl q ↦ inr (In-head q)
      | inr k ↦ elim (In-insert_sorted y zs k) [ inl q ↦ inl q | inr l ↦ inr (In.there l) ]
    ]
  ]

  pub In-sort_by : {x : A} (xs : List A) → In x (sort_by key xs) → In x xs
  unfolding sort_by
  In-sort_by [] h = h
  In-sort_by (y ∷ ys) h = elim (In-insert_sorted y (sort_by key ys) h) [
    | inl q ↦ In-head q
    | inr k ↦ In.there (In-sort_by ys k)
  ]

-- ===== src/Store/Rows.antt =====
-- A table as the list of its rows, and the forms of SQL statement that the repositories execute: a
-- lookup by key, UPDATE ... WHERE, DELETE ... WHERE, ORDER BY ... LIMIT.
pub mod Members
pub mod Named
use smtp_auth_proxy.Prelude.{
  ℕ, ◌≡◌, refl, Bool, true, false, not, ◌||◌, Option, none, some, List, ◌∷◌, arith, leb,
  if◌then◌else◌, length, Bool-cases, inl, inr, ◌==◌, [],
}
use smtp_auth_proxy.Strings.{Str, str_eq, str_eq_iff}

module _ {ℓ} {A : Type ℓ} where
  unfoldable pub any : (A → Bool) → List A → Bool
  any p [] = false
  any p (x ∷ xs) = p x || any p xs

  unfoldable pub update_where : (A → Bool) → (A → A) → List A → List A
  update_where p f [] = []
  update_where p f (x ∷ xs) = (if p x then f x else x) ∷ update_where p f xs

  unfoldable pub filter : (A → Bool) → List A → List A
  filter p [] = []
  filter p (x ∷ xs) = let rest = filter p xs in if p x then x ∷ rest else rest

  abbrev pub delete_where : (A → Bool) → List A → List A
  delete_where p = filter (λ x. not (p x))

  -- How many rows a statement touches.
  abbrev pub count_where : (A → Bool) → List A → ℕ
  count_where p xs = length (filter p xs)

  -- ORDER BY a number; rows with equal numbers keep the table's order.
  unfoldable pub insert_by : (A → ℕ) → A → List A → List A
  insert_by rank x [] = x ∷ []
  insert_by rank x (y ∷ ys) =
      let rest = insert_by rank x ys in if leb (rank x) (rank y) then x ∷ y ∷ ys else y ∷ rest

  unfoldable pub order_by : (A → ℕ) → List A → List A
  unfolding insert_by
  order_by rank [] = []
  order_by rank (x ∷ xs) = insert_by rank x (order_by rank xs)

-- The order of texts by their bytes.
unfoldable pub str_leb : Str → Str → Bool
str_leb [] t = true
str_leb (x ∷ s) [] = false
str_leb (x ∷ s) (y ∷ t) = let rest = str_leb s t in if x == y then rest else leb x y

module _ {ℓ} {A : Type ℓ} (key : A → Str) where
  -- ORDER BY a text.
  unfoldable pub insert_sorted : A → List A → List A
  unfolding str_leb
  insert_sorted x [] = x ∷ []
  insert_sorted x (y ∷ ys) =
      let rest = insert_sorted x ys in if str_leb (key x) (key y) then x ∷ y ∷ ys else y ∷ rest

  unfoldable pub sort_by : List A → List A
  unfolding insert_sorted
  sort_by [] = []
  sort_by (x ∷ xs) = insert_sorted x (sort_by xs)

  -- The row with a key.
  unfoldable pub find : Str → List A → Option A
  find k [] = none
  find k (x ∷ xs) = if str_eq (key x) k then some x else find k xs

  -- The key is a primary key.
  abbrev pub Unique : List A → Type ℓ
  Unique [] = Unit
  Unique (x ∷ xs) = (find (key x) xs ≡ none) × Unique xs

  abbrev pub changed : (A → Bool) → (A → A) → Option A → Option A
  changed p f none = none
  changed p f (some x) = some (if p x then f x else x)

  abbrev pub kept : (A → Bool) → Option A → Option A
  kept p none = none
  kept p (some x) = if p x then none else some x

  module _ (p : A → Bool) (f : A → A) (keeps : (x : A) → key (f x) ≡ key x) where
    pub find-update_where :
        (k : Str) (xs : List A) → find k (update_where p f xs) ≡ changed p f (find k xs)
    unfolding find update_where
    find-update_where k [] = refl
    find-update_where k (x ∷ xs) = ground (arith, keeps x, find-update_where k xs)

    pub update_where-Unique : (xs : List A) → Unique xs → Unique (update_where p f xs)
    unfolding update_where
    update_where-Unique [] h = tt
    update_where-Unique (x ∷ xs) h =
        (ground (arith, keeps x, find-update_where (key x) xs, h.0), update_where-Unique xs h.1)

  find-filter-none :
      (p : A → Bool) (k : Str) (xs : List A) → find k xs ≡ none → find k (filter p xs) ≡ none
  unfolding find filter
  find-filter-none p k [] h = refl
  find-filter-none p k (x ∷ xs) h = ground (arith, find-filter-none p k xs)

  pub find-delete_where :
      (p : A → Bool) (k : Str) (xs : List A)
      → Unique xs
      → find k (delete_where p xs) ≡ kept p (find k xs)
  unfolding find filter
  find-delete_where p k [] u = refl
  find-delete_where p k (x ∷ xs) u = ground (
    arith,
    str_eq_iff (key x) k,
    find-delete_where p k xs u.1,
    find-filter-none (λ y. not (p y)) k xs,
  )

  pub delete_where-Unique : (p : A → Bool) (xs : List A) → Unique xs → Unique (delete_where p xs)
  unfolding filter
  delete_where-Unique p [] u = tt
  delete_where-Unique p (x ∷ xs) u = elim (Bool-cases (p x)) [
    | inl e ↦ rw e (delete_where-Unique p xs u.1)
    | inr e ↦ rw e (find-filter-none (λ y. not (p y)) (key x) xs u.0, delete_where-Unique p xs u.1)
  ]

  any_absent :
      (p : A → Bool) (k : Str) (xs : List A)
      → find k xs ≡ none
      → any (λ x. if str_eq (key x) k then p x else false) xs ≡ false
  unfolding any find
  any_absent p k [] h = refl
  any_absent p k (x ∷ xs) h = elim (Bool-cases (str_eq (key x) k)) [
    | inl e ↦ absurd (some_ne_none x (rw e at h))
    | inr e ↦ rw e (any_absent p k xs (rw e at h))
  ]
    where
      some_ne_none : (y : A) → some y ≡ none → ⊥
      some_ne_none y e = cc

  or_false : (b : Bool) → (b || false) ≡ b
  or_false true = refl
  or_false false = refl

  -- A statement that names its row touches one exactly if the row is there and qualifies.
  pub any-find :
      (p : A → Bool) (k : Str) (xs : List A)
      → Unique xs
      → any (λ x. if str_eq (key x) k then p x else false) xs
        ≡ elim (find k xs) [ none ↦ false | some x ↦ p x ]
  unfolding any find
  any-find p k [] u = refl
  any-find p k (x ∷ xs) u = elim (Bool-cases (str_eq (key x) k)) [
    | inl e ↦ rw (e, any_absent p k xs (rw (← (str_eq_iff _ _).0 e) u.0)) (or_false (p x))
    | inr e ↦ rw e (any-find p k xs u.1)
  ]

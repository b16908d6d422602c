-- ===== src/Admin/Users/Administered.antt =====
-- Someone can always administer the proxy: the guards of internal/adminapi/users.go.
pub mod Actions
use smtp_auth_proxy.Prelude.{
  option_cases, ℕ, ◌≡◌, refl, sym, subst, ◌⊎◌, inl, inr, Bool, true, false, not, ◌&&◌, ◌||◌, none,
  some, List, ◌∷◌, arith, ltb, if_cases, Bool-cases, Option-cases, length, All, In, [],
}
use smtp_auth_proxy.Strings.{Str, str_eq, str_eq_iff, codes}
use smtp_auth_proxy.Store.Models.{Role}
use smtp_auth_proxy.Store.Rows.{
  any, update_where, filter, delete_where, find, Unique, update_where-Unique, delete_where-Unique,
}
use smtp_auth_proxy.Store.Rows.Members.{find-In, find→In, find-key}
use smtp_auth_proxy.Store.Users.{
  AdminUser, AdminDb, AdminError, Result, ok, err, not_found, create, get, update, delete, stamped,
  updated, with_id, user_id_of, known_role, known_source, clashes,
}
use smtp_auth_proxy.Store.Sessions.{delete_for_user}
use smtp_auth_proxy.Admin.Rbac.{parse_role}
use smtp_auth_proxy.Admin.Local.{Passwords}
use smtp_auth_proxy.Admin.Users.{
  Answer, user_is, CreateUserRequest, UpdateUserRequest, is_admin, is_active_admin, another_admin,
  require_another_admin, losing_admin, edited, requested_role, save_user, create_user, update_user,
  delete_user, set_user_password, conflicting, store_error, same_role, invalid_fields, internal,
  invalid, new_user,
}

module _ {ℓ} {A : Type ℓ} (p sel : A → Bool) where
  -- A row that the statement does not select stays.
  any-update_other :
      (f : A → A) (xs : List A)
      → any (λ x. not (sel x) && p x) xs ≡ true
      → any p (update_where sel f xs) ≡ true
  unfolding any update_where
  any-update_other f [] h = h
  any-update_other f (x ∷ xs) h = ground (arith, any-update_other f xs)

  any-delete_other :
      (xs : List A) → any (λ x. not (sel x) && p x) xs ≡ true → any p (delete_where sel xs) ≡ true
  unfolding any filter
  any-delete_other [] h = h
  any-delete_other (x ∷ xs) h = ground (arith, any-delete_other xs)

  -- The selected rows keep the property.
  pub any-update_kept :
      (f : A → A) (xs : List A)
      → All (λ x. sel x ≡ true → p x ≡ true → p (f x) ≡ true) xs
      → any p xs ≡ true
      → any p (update_where sel f xs) ≡ true
  unfolding any update_where
  any-update_kept f [] k h = h
  any-update_kept f (x ∷ xs) k h = ground (arith, k.0, any-update_kept f xs k.1)

  -- The selected rows do not have it.
  any-delete_kept :
      (xs : List A)
      → All (λ x. sel x ≡ true → p x ≡ false) xs
      → any p xs ≡ true
      → any p (delete_where sel xs) ≡ true
  unfolding any filter
  any-delete_kept [] k h = h
  any-delete_kept (x ∷ xs) k h = ground (arith, k.0, any-delete_kept xs k.1)

-- The ids are unique, and an administrator can act.
unfoldable pub IsAdministered : AdminDb → Type 0
IsAdministered db = Unique user_id_of db.users × (any is_active_admin db.users ≡ true)

pub In-All {ℓ κ} :
    {A : Type ℓ} (P : A → Type κ) (xs : List A) → ((x : A) → In x xs → P x) → All P xs
In-All P [] f = tt
In-All P (x ∷ xs) f = (f x In.here, In-All P xs (λ y i. f y (In.there i)))

-- The only row with the id.
only :
    (us : List AdminUser) (u x : AdminUser)
    → Unique user_id_of us
    → find user_id_of u.id us ≡ some u
    → In x us
    → with_id u.id x ≡ true
    → x ≡ u
only us u x q f i e = let g = find-In user_id_of us q i in let k = (str_eq_iff x.id u.id).0 e in cc

absent :
    (row : AdminUser) (us : List AdminUser)
    → any (λ x. str_eq x.id row.id || clashes row x) us ≡ false
    → find user_id_of row.id us ≡ none
unfolding any find
absent row [] h = refl
absent row (x ∷ us) h = ground (arith, absent row us)

-- A property of all branches is one of the match.
pub result_cases {ℓ κ μ} :
    {A : Type ℓ} {B : Type κ} (P : B → Type μ) (r : Result A) {g : AdminError → B} {f : A → B}
    → ((e : AdminError) → r ≡ err e → P (g e))
    → ((a : A) → r ≡ ok a → P (f a))
    → P (elim r [ err e ↦ g e | ok a ↦ f a ])
result_cases P (err e) h k = h e refl
result_cases P (ok a) h k = k a refl

abbrev pub Good {ℓ} : {A : Type ℓ} → AdminDb × A → Type 0
Good r = IsAdministered r.0

module _ (db : AdminDb) (good : IsAdministered db) where
  create-IsAdministered :
      (u : AdminUser) (new_id : Str) (now : ℕ) → IsAdministered (create db u new_id now).0
  unfolding create IsAdministered any
  create-IsAdministered u new_id now =
      let row = stamped u new_id now in
      if_cases Good (not (known_role row.role && known_source row.source)) (λ _. good)
        (λ _.
          if_cases Good (any (λ x. str_eq x.id row.id || clashes row x) db.users) (λ _. good)
            (λ c. ((absent row db.users c, good.0), ground (arith, good.1))))

  -- `update` of a row that was read, changed or not.
  pub update-IsAdministered :
      (u v : AdminUser) (now : ℕ)
      → find user_id_of u.id db.users ≡ some u
      → v.id ≡ u.id
      → (is_active_admin u ≡ true → is_active_admin v ≡ true)
        ⊎ (require_another_admin db u.id ≡ true)
      → IsAdministered (update db v now).0
  unfolding update IsAdministered require_another_admin another_admin is_active_admin
  update-IsAdministered u v now f e h =
      if_cases Good (not (any (with_id v.id) db.users)) (λ _. good)
        (λ _.
          if_cases Good (not (known_role v.role && known_source v.source)) (λ _. good)
            (λ _.
              if_cases Good (any (λ x. not (str_eq x.id v.id) && clashes v x) db.users) (λ _. good)
                (λ _. (
                  update_where-Unique user_id_of (with_id v.id) (updated v now) (λ x. refl) db.users
                      good.0,
                  elim h [
                    | inl k ↦
                        any-update_kept is_active_admin (with_id v.id) (updated v now) db.users
                          (In-All _ db.users (λ x i s a. k (rw (← same x i s) a))) good.1
                    | inr k ↦
                        any-update_other is_active_admin (with_id v.id) (updated v now) db.users
                          (rw e k)
                  ],
                ))))
    where
      same : (x : AdminUser) → In x db.users → with_id v.id x ≡ true → x ≡ u
      same x i s = only db.users u x good.0 f i (rw (← e) s)

  delete-IsAdministered :
      (u : AdminUser)
      → find user_id_of u.id db.users ≡ some u
      → (is_active_admin u ≡ false) ⊎ (require_another_admin db u.id ≡ true)
      → IsAdministered (delete db u.id).0
  unfolding delete IsAdministered require_another_admin another_admin
  delete-IsAdministered u f h =
      if_cases Good (any (with_id u.id) db.users)
        (λ _. (
          delete_where-Unique user_id_of (with_id u.id) db.users good.0,
          elim h [
            | inl k ↦
                any-delete_kept is_active_admin (with_id u.id) db.users
                  (In-All _ db.users (λ x i s. rw (only db.users u x good.0 f i s) k)) good.1
            | inr k ↦ any-delete_other is_active_admin (with_id u.id) db.users k
          ],
        ))
        (λ _. good)

  pub get-find :
      (id : Str) (u : AdminUser)
      → get db id ≡ ok u
      → (u.id ≡ id) × (find user_id_of u.id db.users ≡ some u)
  unfolding get
  get-find id u h = elim (Option-cases (find user_id_of id db.users)) [
    | inl e ↦ absurd (missing e)
    | inr (v, e) ↦
        let g = found v e in
        let k = find-key user_id_of id db.users g in
        (k, subst (λ i. find user_id_of i db.users ≡ some u) (sym k) g)
  ]
    where
      missing : find user_id_of id db.users ≡ none → ⊥
      missing e = ground arith

      found :
          (v : AdminUser)
          → find user_id_of id db.users ≡ some v
          → find user_id_of id db.users ≡ some u
      found v e = ground arith

  revoked-IsAdministered : (id : Str) → IsAdministered (delete_for_user db id).0
  unfolding delete_for_user IsAdministered
  revoked-IsAdministered id = good

not_losing :
    (u v : AdminUser)
    → losing_admin v u.role ≡ false
    → is_active_admin u ≡ true
    → is_active_admin v ≡ true
unfolding losing_admin is_active_admin
not_losing u v h k = ground arith

module _ (db : AdminDb) (good : IsAdministered db) where
  save_user-IsAdministered :
      (u v : AdminUser) (previous : Role) (now : ℕ)
      → find user_id_of u.id db.users ≡ some u
      → v.id ≡ u.id
      → (is_active_admin u ≡ true → is_active_admin v ≡ true)
        ⊎ (require_another_admin db u.id ≡ true)
      → Good (save_user db v previous now)
  unfolding save_user delete_for_user IsAdministered
  save_user-IsAdministered u v previous now f e h =
      result_cases Good (update db v now).1 (λ _ _. saved)
        (λ _ _.
          if_cases Good (not (same_role v.role previous) || v.disabled) (λ _. saved) (λ _. saved))
    where
      saved : IsAdministered (update db v now).0
      saved = update-IsAdministered db good u v now f e h

  pub create_user-IsAdministered :
      (passwords : Passwords) (req : CreateUserRequest) (new_id : Str) (now : ℕ)
      → Good (create_user passwords db req new_id now)
  unfolding create_user
  create_user-IsAdministered passwords req new_id now =
      if_cases Good (ltb 0 (length (invalid_fields req))) (λ _. good)
        (λ _.
          option_cases Good (parse_role req.role) (λ _. good)
            (λ role _.
              option_cases Good (passwords.hash req.password) (λ _. good)
                (λ hash _. create-IsAdministered db good (new_user req role hash) new_id now)))

  pub update_user-IsAdministered :
      (id : Str) (req : UpdateUserRequest) (now : ℕ) → Good (update_user db id req now)
  unfolding update_user edited
  update_user-IsAdministered id req now =
      result_cases Good (get db id) (λ _ _. good)
        (λ u h.
          let (_, f) = get-find db good id u h in
          option_cases Good (requested_role req u) (λ _. good)
            (λ role _.
              if_cases Good
                (losing_admin (edited u req role) u.role && not (require_another_admin db u.id))
                (λ _. good)
                (λ g.
                  save_user-IsAdministered u (edited u req role) u.role now f refl
                    (guarded u (edited u req role) g))))
    where
      guarded :
          (u v : AdminUser)
          → (losing_admin v u.role && not (require_another_admin db u.id)) ≡ false
          → (is_active_admin u ≡ true → is_active_admin v ≡ true)
            ⊎ (require_another_admin db u.id ≡ true)
      guarded u v g = elim (Bool-cases (losing_admin v u.role)) [
        | inl e ↦ inr (ground arith)
        | inr e ↦ inl (not_losing u v e)
      ]

  pub delete_user-IsAdministered : (actor : AdminUser) (id : Str) → Good (delete_user db actor id)
  unfolding delete_user
  delete_user-IsAdministered actor id =
      result_cases Good (get db id) (λ _ _. good)
        (λ u h.
          let (k, f) = get-find db good id u h in
          if_cases Good (str_eq u.id actor.id) (λ _. good)
            (λ _.
              if_cases Good (is_active_admin u && not (require_another_admin db u.id)) (λ _. good)
                (λ g.
                  subst (λ i. IsAdministered (delete db i).0) k
                    (delete-IsAdministered db good u f (guarded u g)))))
    where
      guarded :
          (u : AdminUser)
          → (is_active_admin u && not (require_another_admin db u.id)) ≡ false
          → (is_active_admin u ≡ false) ⊎ (require_another_admin db u.id ≡ true)
      guarded u g = elim (Bool-cases (is_active_admin u)) [
        | inl e ↦ inr (ground arith)
        | inr e ↦ inl e
      ]

-- ===== src/Admin/Users/Administered/Actions.antt =====
-- Every way in which internal/adminapi/users.go and internal/adminauth/local.go change the table of
-- administrators.
use smtp_auth_proxy.Prelude.{
  option_cases, ℕ, ◌≡◌, refl, inl, inr, Bool, not, Option, none, some, List, ◌∷◌, arith, ltb, ◌==◌,
  if◌then◌else◌, if_cases, Option-cases, length, [],
}
use smtp_auth_proxy.Strings.{Str, str_eq, codes}
use smtp_auth_proxy.Store.Models.{null_string}
use smtp_auth_proxy.Store.Rows.{any, update_where, update_where-Unique, find}
use smtp_auth_proxy.Store.Rows.Members.{find-In, find→In}
use smtp_auth_proxy.Store.Users.{
  AdminUser, AdminDb, ok, update, with_id, user_id_of, username_of, locked_at, get, get_by_username,
  record_failed_login, record_successful_login, failed_once, signed_in,
}
use smtp_auth_proxy.Store.Sessions.{delete_for_user}
use smtp_auth_proxy.Admin.Local.{
  Passwords, LocalConfig, set_password, authenticate, check_user, verified, let_in, rehash,
}
use smtp_auth_proxy.Admin.Users.{
  CreateUserRequest, UpdateUserRequest, is_active_admin, create_user, update_user, delete_user,
  set_user_password, min_password_length,
}
use smtp_auth_proxy.Admin.Users.Administered.{
  IsAdministered, Good, result_cases, update-IsAdministered, create_user-IsAdministered,
  update_user-IsAdministered, delete_user-IsAdministered, get-find, any-update_kept, In-All,
}

module _ (db : AdminDb) (good : IsAdministered db) where
  -- A write to columns that do not matter here.
  touched :
      (sel : AdminUser → Bool) (f : AdminUser → AdminUser)
      → ((x : AdminUser) → (f x).id ≡ x.id)
      → ((x : AdminUser) → is_active_admin (f x) ≡ is_active_admin x)
      → IsAdministered (record db { users = update_where sel f db.users })
  unfolding IsAdministered
  touched sel f k a = (
    update_where-Unique user_id_of sel f k db.users good.0,
    any-update_kept is_active_admin sel f db.users (In-All _ db.users (λ x i s h. rw (a x) h))
        good.1,
  )

  failed :
      (id : Str) (threshold lock_for now : ℕ)
      → Good (record_failed_login db id threshold lock_for now)
  unfolding record_failed_login is_active_admin
  failed id threshold lock_for now =
      if_cases Good (any (with_id id) db.users)
        (λ _. touched (with_id id) (failed_once threshold lock_for now) (λ _. refl) (λ _. refl))
        (λ _. good)

  succeeded : (id : Str) (now : ℕ) → IsAdministered (record_successful_login db id now)
  unfolding record_successful_login is_active_admin
  succeeded id now = touched (with_id id) (signed_in now) (λ _. refl) (λ _. refl)

  -- A write of the row as it was read, with another password.
  repassworded :
      (u : AdminUser) (hash : Option Str) (t now : ℕ)
      → find user_id_of u.id db.users ≡ some u
      → IsAdministered (update db (record u { password_hash = hash; updated_at = t }) now).0
  unfolding is_active_admin
  repassworded u hash t now f =
      update-IsAdministered db good u (record u { password_hash = hash; updated_at = t }) now f refl
        (inl (λ h. h))

  get_by_username-find :
      (username : Str) (u : AdminUser)
      → get_by_username db username ≡ ok u
      → find user_id_of u.id db.users ≡ some u
  unfolding get_by_username IsAdministered
  get_by_username-find username u h = elim (Option-cases (find username_of username db.users)) [
    | inl e ↦ absurd (missing e)
    | inr (v, e) ↦
        find-In user_id_of db.users good.0 (find→In username_of username db.users (found v e))
  ]
    where
      missing : find username_of username db.users ≡ none → ⊥
      missing e = ground arith

      found :
          (v : AdminUser)
          → find username_of username db.users ≡ some v
          → find username_of username db.users ≡ some u
      found v e = ground arith

  set_password-IsAdministered :
      (passwords : Passwords) (u : AdminUser) (password : Str) (now : ℕ)
      → find user_id_of u.id db.users ≡ some u
      → Good (set_password passwords db u password now)
  unfolding set_password delete_for_user IsAdministered
  set_password-IsAdministered passwords u password now f =
      option_cases Good (passwords.hash password) (λ _. good)
        (λ h _.
          let saved = repassworded u (null_string h) u.updated_at now f in
          result_cases Good (update db (record u { password_hash = null_string h }) now).1
            (λ _ _. saved) (λ _ _. saved))

  set_user_password-IsAdministered :
      (passwords : Passwords) (local : Bool) (id password : Str) (now : ℕ)
      → Good (set_user_password passwords local db id password now)
  unfolding set_user_password
  set_user_password-IsAdministered passwords local id password now =
      if_cases Good (not local) (λ _. good)
        (λ _.
          if_cases Good (ltb (length password) min_password_length) (λ _. good)
            (λ _.
              result_cases Good (get db id) (λ _ _. good)
                (λ u h.
                  if_cases Good (not (str_eq u.source (codes "local"))) (λ _. good)
                    (λ _.
                      set_password-IsAdministered passwords u password now
                        (get-find db good id u h).1))))

  rehash-IsAdministered :
      (passwords : Passwords) (u : AdminUser) (password : Str) (now : ℕ)
      → find user_id_of u.id db.users ≡ some u
      → Good (rehash passwords db u password now)
  unfolding rehash
  rehash-IsAdministered passwords u password now f =
      option_cases Good (passwords.hash password) (λ _. good)
        (λ h _. repassworded u (null_string h) now now f)

  renewed-IsAdministered :
      (passwords : Passwords) (u : AdminUser) (password : Str) (now : ℕ) (renew : Bool)
      → find user_id_of u.id db.users ≡ some u
      → Good (if renew then rehash passwords db u password now else (db, u))
  renewed-IsAdministered passwords u password now renew f =
      if_cases Good renew (λ _. rehash-IsAdministered passwords u password now f) (λ _. good)

module _ (passwords : Passwords) (config : LocalConfig) (db : AdminDb)
    (good : IsAdministered db) where
  verified-IsAdministered :
      (u : AdminUser) (password : Str) (now : ℕ) (o : Option (Bool × Bool))
      → find user_id_of u.id db.users ≡ some u
      → Good (verified passwords config db u password now o)
  unfolding verified let_in
  verified-IsAdministered u password now none f = good
  verified-IsAdministered u password now (some (match, renew)) f =
      if_cases Good (not match)
        (λ _. failed db good u.id config.lockout_threshold config.lockout_duration now)
        (λ _.
          if_cases Good u.disabled (λ _. good)
            (λ _.
              let kept = renewed-IsAdministered db good passwords u password now renew f in
              succeeded (if renew then rehash passwords db u password now else (db, u)).0 kept u.id
                now))

  authenticate-IsAdministered :
      (username password : Str) (now : ℕ)
      → Good (authenticate passwords config db username password now)
  unfolding authenticate check_user
  authenticate-IsAdministered username password now =
      if_cases Good (not config.enabled) (λ _. good)
        (λ _.
          result_cases Good (get_by_username db username) (λ _ _. good)
            (λ u h.
              if_cases Good (locked_at u now) (λ _. good)
                (λ _.
                  option_cases Good u.password_hash (λ _. good)
                    (λ p _.
                      if_cases Good (length p == 0) (λ _. good)
                        (λ _.
                          verified-IsAdministered u password now (passwords.verify p password)
                            (get_by_username-find db good username u h))))))

-- A request to one of the handlers, or a sign-in.
pub data Action : Type 0 where
  creating : CreateUserRequest → Str → Action
  updating : Str → UpdateUserRequest → Action
  deleting : AdminUser → Str → Action
  setting_password : Bool → Str → Str → Action
  signing_in_by_password : LocalConfig → Str → Str → Action

unfoldable pub act : Passwords → AdminDb → Action → ℕ → AdminDb
act passwords db (creating req new_id) now = (create_user passwords db req new_id now).0
act passwords db (updating id req) now = (update_user db id req now).0
act passwords db (deleting actor id) now = (delete_user db actor id).0
act passwords db (setting_password local id password) now =
    (set_user_password passwords local db id password now).0
act passwords db (signing_in_by_password config username password) now =
    (authenticate passwords config db username password now).0

-- The actions, each with its time.
unfoldable pub act_all : Passwords → AdminDb → List (Action × ℕ) → AdminDb
unfolding act
act_all passwords db [] = db
act_all passwords db ((action, now) ∷ rest) = act_all passwords (act passwords db action now) rest

module _ (passwords : Passwords) where
  act-IsAdministered :
      (db : AdminDb) (action : Action) (now : ℕ)
      → IsAdministered db
      → IsAdministered (act passwords db action now)
  unfolding act
  act-IsAdministered db (creating req new_id) now good =
      create_user-IsAdministered db good passwords req new_id now
  act-IsAdministered db (updating id req) now good = update_user-IsAdministered db good id req now
  act-IsAdministered db (deleting actor id) now good = delete_user-IsAdministered db good actor id
  act-IsAdministered db (setting_password local id password) now good =
      set_user_password-IsAdministered db good passwords local id password now
  act-IsAdministered db (signing_in_by_password config username password) now good =
      authenticate-IsAdministered passwords config db good username password now

  -- While the ids of the administrators are unique and one of them has the role admin and is not
  -- disabled, no sequence of creations, updates, deletions, password changes and password sign-ins
  -- of administrators ends that.
  pub act_all-IsAdministered :
      (db : AdminDb) (actions : List (Action × ℕ))
      → IsAdministered db
      → IsAdministered (act_all passwords db actions)
  unfolding act_all
  act_all-IsAdministered db [] good = good
  act_all-IsAdministered db ((action, now) ∷ rest) good =
      act_all-IsAdministered (act passwords db action now) rest
        (act-IsAdministered db action now good)

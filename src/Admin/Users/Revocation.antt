-- ===== src/Admin/Users/Revocation.antt =====
-- When a change to a user ends the user's sessions: `handleUpdateUser` of internal/adminapi/users.go
-- and `SetPassword` of internal/adminauth/local.go.
use smtp_auth_proxy.Prelude.{
  option_cases, ℕ, ◌≡◌, refl, subst, ◌≢◌, ◌⊎◌, inl, inr, true, false, not, ◌&&◌, ◌||◌, Option, none,
  some, ◌∷◌, arith, if◌then◌else◌, if_cases, [],
}
use smtp_auth_proxy.Strings.{Str, codes}
use smtp_auth_proxy.Store.Models.{Role, null_string}
use smtp_auth_proxy.Store.Users.{AdminUser, AdminDb, ok, get, update}
use smtp_auth_proxy.Store.Sessions.{Authenticated, lookup, delete_for_user}
use smtp_auth_proxy.Store.Sessions.Revocation.{delete_for_user_lem}
use smtp_auth_proxy.Admin.Local.{Passwords, SignInError, set_password}
use smtp_auth_proxy.Admin.Users.{
  Answer, user_is, UpdateUserRequest, edited, requested_role, losing_admin, same_role, save_user,
  update_user, require_another_admin, conflicting, invalid,
}
use smtp_auth_proxy.Admin.Users.Administered.{result_cases}

-- No token is accepted as that user's.
pub IsSignedOut : AdminDb → Str → Type 0
IsSignedOut db id =
    (hash : Str) (idle_timeout now : ℕ) (a : Authenticated)
    → (lookup db hash idle_timeout now).1 ≡ ok a
    → a.user.id ≢ id

revoked-IsSignedOut : (db : AdminDb) (id : Str) → IsSignedOut (delete_for_user db id).0 id
unfolding IsSignedOut
revoked-IsSignedOut db id hash idle_timeout now a h =
    delete_for_user_lem db id hash idle_timeout now a h

abbrev Closed : AdminUser → AdminDb × Option SignInError → Type 0
Closed u r = r.1 ≡ none → IsSignedOut r.0 u.id

set_password-Closed :
    (passwords : Passwords) (db : AdminDb) (u : AdminUser) (password : Str) (now : ℕ)
    → Closed u (set_password passwords db u password now)
unfolding set_password
set_password-Closed passwords db u password now =
    option_cases (Closed u) (passwords.hash password) (λ _ h. cc)
      (λ p _.
        let later = (update db (record u { password_hash = null_string p }) now).0 in
        result_cases (Closed u) (update db (record u { password_hash = null_string p }) now).1
          (λ _ _ h. cc) (λ _ _ h. revoked-IsSignedOut later u.id))

-- A password that was set.
pub set_password_revokes :
    (passwords : Passwords) (db : AdminDb) (u : AdminUser) (password : Str) (now : ℕ) (hash : Str)
    (idle_timeout later : ℕ) (a : Authenticated)
    → (set_password passwords db u password now).1 ≡ none
    → (lookup (set_password passwords db u password now).0 hash idle_timeout later).1 ≡ ok a
    → a.user.id ≢ u.id
unfolding IsSignedOut
set_password_revokes passwords db u password now hash idle_timeout later a h l =
    set_password-Closed passwords db u password now h hash idle_timeout later a l

module _ (db : AdminDb) (now : ℕ) where
  -- What an answer means for the user's sessions.
  abbrev Ended : AdminUser → AdminDb × Answer → Type 0
  Ended u r =
      (v : AdminUser)
      → r.1 ≡ user_is v
      → (same_role v.role u.role ≡ false) ⊎ (v.disabled ≡ true)
      → IsSignedOut r.0 u.id

  same_user :
      (u v w : AdminUser) (previous : Role)
      → user_is u ≡ user_is v
      → (same_role v.role previous ≡ false) ⊎ (v.disabled ≡ true)
      → (not (same_role u.role previous) || u.disabled) ≡ false
      → ⊥
  same_user u v w previous e h n =
      let q : u ≡ v = cc in elim h [ inl k ↦ ground (arith, q) | inr k ↦ ground (arith, q) ]

  save_user-Ended : (u v : AdminUser) → v.id ≡ u.id → Ended u (save_user db v u.role now)
  unfolding save_user
  save_user-Ended u v e =
      result_cases (Ended u) (update db v now).1 (λ _ _ w h. cc)
        (λ _ _.
          if_cases (Ended u) (not (same_role v.role u.role) || v.disabled)
            (λ _ w h k.
              subst (λ i. IsSignedOut (delete_for_user (update db v now).0 v.id).0 i) e
                (revoked-IsSignedOut (update db v now).0 v.id))
            (λ n w h k. absurd (same_user v w u u.role h k n)))

  -- After an update that succeeds and leaves the user disabled or with another role, no token is
  -- accepted as that user's, whatever the time and the idle timeout.
  pub update_user_revokes :
      (id : Str) (req : UpdateUserRequest) (u v : AdminUser) (hash : Str) (idle_timeout later : ℕ)
      (a : Authenticated)
      → get db id ≡ ok u
      → (update_user db id req now).1 ≡ user_is v
      → (same_role v.role u.role ≡ false) ⊎ (v.disabled ≡ true)
      → (lookup (update_user db id req now).0 hash idle_timeout later).1 ≡ ok a
      → a.user.id ≢ u.id
  unfolding update_user edited IsSignedOut
  update_user_revokes id req u v hash idle_timeout later a g e k l =
      ended v e k hash idle_timeout later a l
    where
      found : Ended u (elim (requested_role req u) [
        | none ↦ (db, invalid (codes "role" ∷ []))
        | some role ↦
            if losing_admin (edited u req role) u.role && not (require_another_admin db u.id)
            then (db, conflicting)
            else save_user db (edited u req role) u.role now
      ])
      found =
          option_cases (Ended u) (requested_role req u) (λ _ w h. cc)
            (λ role _.
              if_cases (Ended u)
                (losing_admin (edited u req role) u.role && not (require_another_admin db u.id))
                (λ _ w h. cc) (λ _. save_user-Ended u (edited u req role) refl))

      ended : Ended u (update_user db id req now)
      ended = rw (update_user, g) found

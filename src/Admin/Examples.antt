-- ===== src/Admin/Examples.antt =====
-- The theorems about the management interface at concrete roles, users and requests.
use smtp_auth_proxy.Prelude.{◌≡◌, refl, ◌≢◌, true, arith, ℕ, ◌≤◌, inr, none, some, List, ◌∷◌, []}
use Prim.Native.Nat.{max}
use smtp_auth_proxy.Strings.{Str, codes, str_eq}
use smtp_auth_proxy.Store.Rows.{any, find, filter, update_where}
use smtp_auth_proxy.Store.Users.{AdminUser, ok, get, update}
use smtp_auth_proxy.Store.Sessions.{Authenticated, lookup, delete_for_user}
use smtp_auth_proxy.Store.Sessions.Revocation.{Live}
use smtp_auth_proxy.Policy.Fixtures.{tiny_net}
use smtp_auth_proxy.Admin.Local.{authenticate}
use smtp_auth_proxy.Admin.Local.Lockout.{
  guesses, guesses-le, Guess, Admitted, authenticate-Admitted,
}
use smtp_auth_proxy.Admin.Sessions.{authenticate as session_of, check_csrf}
use smtp_auth_proxy.Admin.Sessions.Requests.{request_authorized}
use smtp_auth_proxy.Admin.Users.{is_active_admin, UpdateUserRequest, update_user}
use smtp_auth_proxy.Admin.Users.Administered.{IsAdministered}
use smtp_auth_proxy.Admin.Users.Administered.Actions.{
  Action, updating, signing_in_by_password, deleting, act_all, act_all-IsAdministered,
}
use smtp_auth_proxy.Admin.Users.Revocation.{update_user_revokes}
use smtp_auth_proxy.Admin.Fixtures.{
  plain_passwords, sign_in_config, root, helper, root_session, admin_db, plain_web, session_config,
  posted,
}

administered : IsAdministered admin_db
unfolding IsAdministered any is_active_admin find str_eq
administered = ((refl, (refl, tt)), refl)

-- Disabling the last administrator, a wrong password, and deleting oneself.
abbrev actions : List (Action × ℕ)
actions =
    (
      updating (codes "root")
          (record { email = none; display_name = none; role = none; disabled = some true }),
      5,
    )
    ∷ (signing_in_by_password sign_in_config (codes "root") (codes "guess"), 6)
    ∷ (deleting root (codes "root"), 7)
    ∷ []

act_all-IsAdministered_example : IsAdministered (act_all plain_passwords admin_db actions)
act_all-IsAdministered_example =
    act_all-IsAdministered plain_passwords admin_db actions administered

abbrev disabling : UpdateUserRequest
disabling = record { email = none; display_name = none; role = none; disabled = some true }

abbrev disabled_helper : AdminUser
disabled_helper = record helper { disabled = true }

abbrev by_root : Authenticated
by_root = record { session = root_session; user = root }

update_user_revokes_example : root.id ≢ helper.id
unfolding update_user get update lookup find str_eq any delete_for_user filter update_where
update_user_revokes_example =
    update_user_revokes admin_db 5 (codes "helper") disabling helper disabled_helper (codes "root")
      50 6 by_root refl refl (inr refl) refl

guesses-le_example :
    guesses plain_passwords sign_in_config admin_db
      (codes "root")
      ((codes "x", 5) ∷ (codes "y", 6) ∷ [])
    ≤ max 1 3
unfolding Guess find str_eq
guesses-le_example =
    guesses-le plain_passwords sign_in_config refl (codes "root") (codes "secret") refl 5
      (omega arith) ((codes "x", 5) ∷ (codes "y", 6) ∷ []) admin_db root refl refl
      ((refl, omega arith, omega arith), ((refl, omega arith, omega arith), tt))

authenticate-Admitted_example :
    Admitted plain_passwords sign_in_config admin_db
      (codes "root")
      (codes "secret")
      5
      (authenticate plain_passwords sign_in_config admin_db (codes "root") (codes "secret") 5).1
authenticate-Admitted_example =
    authenticate-Admitted plain_passwords sign_in_config admin_db (codes "root") (codes "secret") 5

request_authorized_example :
    (token : Str) × (posted.cookie (codes "sid") ≡ some token)
    × Live admin_db token 50 6 (ok by_root)
    × (posted.csrf_header ≡ codes "csrf")
    × (posted.csrf_header ≢ [])
unfolding session_of check_csrf lookup find str_eq
request_authorized_example =
    request_authorized tiny_net plain_web session_config admin_db posted 6 by_root refl refl refl

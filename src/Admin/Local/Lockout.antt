-- ===== src/Admin/Local/Lockout.antt =====
-- How often a password can be guessed, and who is let in: `Authenticate` of
-- internal/adminauth/local.go.
use Prim.Native.Nat.{max}
use smtp_auth_proxy.Prelude.{
  ℕ, ◌+◌, ◌-◌, ◌≤◌, ◌<◌, ◌≡◌, refl, inl, inr, Bool, true, false, not, Option, none, some, List, ◌∷◌,
  arith, leb, ◌==◌, if◌then◌else◌, if_cases, Bool-cases, Option-cases, length, All, [],
}
use smtp_auth_proxy.Strings.{Str, str_eq_refl}
use smtp_auth_proxy.Store.Rows.{find, find-update_where, any}
use smtp_auth_proxy.Store.Users.{
  AdminUser, AdminDb, Result, ok, err, not_found, locked_at, get_by_username, username_of, with_id,
  failed_once, record_failed_login,
}
use smtp_auth_proxy.Admin.Local.{
  Passwords, LocalConfig, SignIn, welcome, refused, invalid_credentials, locked_out, let_in,
  verified, check_user, authenticate, rehash,
}

abbrev pub is_wrong : Option (Bool × Bool) → Bool
is_wrong (some (false, _)) = true
is_wrong _ = false

wrong_cases :
    (o : Option (Bool × Bool)) → is_wrong o ≡ true → (renew : Bool) × (o ≡ some (false, renew))
wrong_cases none e = cc
wrong_cases (some (true, renew)) e = cc
wrong_cases (some (false, renew)) e = (renew, refl)

-- 1 for an answer that was given after a look at the password.
abbrev pub looked : SignIn → ℕ
looked (refused invalid_credentials) = 1
looked _ = 0

-- How many of the guesses, each with its time, are answered after a look at the password.
unfoldable pub guesses : Passwords → LocalConfig → AdminDb → Str → List (Str × ℕ) → ℕ
guesses passwords config db username [] = 0
guesses passwords config db username ((password, now) ∷ rest) =
    let (later, answer) = authenticate passwords config db username password now in
    looked answer + guesses passwords config later username rest

module _ (passwords : Passwords) (config : LocalConfig) (on : config.enabled ≡ true)
    (username h : Str) (filled : (length h == 0) ≡ false) where
  any-with_id :
      (us : List AdminUser) (u : AdminUser)
      → find username_of username us ≡ some u
      → any (with_id u.id) us ≡ true
  unfolding find any
  any-with_id [] u e = cc
  any-with_id (x ∷ us) u e = ground (arith, any-with_id us u, str_eq_refl u.id)

  -- A wrong guess at a locked account.
  locked :
      (db : AdminDb) (u : AdminUser) (password : Str) (now : ℕ)
      → find username_of username db.users ≡ some u
      → locked_at u now ≡ true
      → authenticate passwords config db username password now ≡ (db, refused locked_out)
  unfolding authenticate check_user get_by_username
  locked db u password now f l = ground arith

  -- A wrong guess at an account that is not locked.
  guessed :
      (db : AdminDb) (u : AdminUser) (password : Str) (now : ℕ)
      → find username_of username db.users ≡ some u
      → u.password_hash ≡ some h
      → is_wrong (passwords.verify h password) ≡ true
      → locked_at u now ≡ false
      → authenticate passwords config db username password now ≡ (
        (record_failed_login db u.id config.lockout_threshold config.lockout_duration now).0,
        refused invalid_credentials,
      )
  unfolding authenticate check_user verified get_by_username
  guessed db u password now f p w l =
      let (renew, v) = wrong_cases (passwords.verify h password) w in ground arith

  after_guess :
      (db : AdminDb) (u : AdminUser) (now : ℕ)
      → find username_of username db.users ≡ some u
      → find username_of username
          (record_failed_login db u.id config.lockout_threshold config.lockout_duration now).0.users
        ≡ some (failed_once config.lockout_threshold config.lockout_duration now u)
  unfolding record_failed_login
  after_guess db u now f =
      let here = any-with_id db.users u f in
      let row =
        find-update_where username_of (with_id u.id)
          (failed_once config.lockout_threshold config.lockout_duration now) (λ x. refl) username
          db.users in
      rw (here, row, f, str_eq_refl u.id) refl

  module _ (start : ℕ) (threshold : 1 ≤ config.lockout_threshold) where
    -- Wrong passwords, within the time that a lockout takes.
    unfoldable pub Guess : Str × ℕ → Type 0
    Guess (password, now) =
        (is_wrong (passwords.verify h password) ≡ true)
        × (start ≤ now)
        × (now < start + config.lockout_duration)

    -- Locked for all of that time.
    Shut : AdminUser → Type 0
    Shut u = (t : ℕ) × (u.locked_until ≡ some t) × (start + config.lockout_duration ≤ t)

    Shut-locked :
        (u : AdminUser) (now : ℕ)
        → Shut u
        → now < start + config.lockout_duration
        → locked_at u now ≡ true
    unfolding locked_at Shut
    Shut-locked u now (t, e, l) k = ground arith

    Shut-guesses :
        (rest : List (Str × ℕ)) (db : AdminDb) (u : AdminUser)
        → find username_of username db.users ≡ some u
        → Shut u
        → All Guess rest
        → guesses passwords config db username rest ≡ 0
    unfolding guesses Guess
    Shut-guesses [] db u f l g = refl
    Shut-guesses ((password, now) ∷ rest) db u f l g =
        let e = locked db u password now f (Shut-locked u now l (g.0.2)) in
        rw e (omega (arith, Shut-guesses rest db u f l g.1))

    -- What one guess does to the row: it is shut, or it has an attempt less.
    counted :
        (u : AdminUser) (now : ℕ)
        → start ≤ now
        → config.lockout_threshold ≤ u.failed_logins + 1
        → Shut (failed_once config.lockout_threshold config.lockout_duration now u)
    unfolding Shut
    counted u now s m = (now + config.lockout_duration, ground arith, omega arith)

    -- For an account with a password and a lockout threshold of at least one, of the wrong
    -- passwords that are tried within the time of one lockout, at most as many are compared with
    -- the password as are missing from the threshold when they begin, or one if none is missing.
    pub guesses-le :
        (rest : List (Str × ℕ)) (db : AdminDb) (u : AdminUser)
        → find username_of username db.users ≡ some u
        → u.password_hash ≡ some h
        → All Guess rest
        → guesses passwords config db username rest
          ≤ max 1 (config.lockout_threshold - u.failed_logins)
    unfolding guesses Guess
    guesses-le [] db u f p g = omega arith
    guesses-le ((password, now) ∷ rest) db u f p g = elim (Bool-cases (locked_at u now)) [
      | inl l ↦
          let e = locked db u password now f l in rw e (omega (arith, guesses-le rest db u f p g.1))
      | inr l ↦
          let e = guessed db u password now f p g.0.0 l in
          let later =
            (record_failed_login db u.id config.lockout_threshold config.lockout_duration now).0 in
          let u' = failed_once config.lockout_threshold config.lockout_duration now u in
          let f' = after_guess db u now f in
          elim (Bool-cases (leb config.lockout_threshold (u.failed_logins + 1))) [
            | inl m ↦
                let none_left =
                  Shut-guesses rest later u' f' (counted u now g.0.1 (ground arith)) g.1 in
                rw (e, none_left) (omega arith)
            | inr m ↦ let fewer = guesses-le rest later u' f' p g.1 in rw e (ground arith)
          ]
    ]

-- Who is let in: a user whose row is found under the name, is neither disabled nor locked, and has
-- the hash of the password.
pub Admitted : Passwords → LocalConfig → AdminDb → Str → Str → ℕ → SignIn → Type 0
Admitted passwords config db username password now (refused e) = Unit
Admitted passwords config db username password now (welcome known) =
    (config.enabled ≡ true)
    × ((u : AdminUser) × (find username_of username db.users ≡ some u)
        × (known.id ≡ u.id)
        × (u.disabled ≡ false)
        × (locked_at u now ≡ false)
        × ((h : Str) × (renew : Bool) × (u.password_hash ≡ some h)
            × (1 ≤ length h)
            × (passwords.verify h password ≡ some (true, renew))))

module _ (passwords : Passwords) (config : LocalConfig) (db : AdminDb) (username password : Str)
    (now : ℕ) where
  abbrev pub Ok : AdminDb × SignIn → Type 0
  Ok r = Admitted passwords config db username password now r.1

  rehash-id : (u : AdminUser) → (rehash passwords db u password now).1.id ≡ u.id
  unfolding rehash
  rehash-id u = elim (Option-cases (passwords.hash password)) [
    | inl e ↦ rw (e, rehash) refl
    | inr (h, e) ↦ rw (e, rehash) refl
  ]

  renewed_id :
      (u : AdminUser) (renew : Bool)
      → (if renew then rehash passwords db u password now else (db, u)).1.id ≡ u.id
  renewed_id u true = rehash-id u
  renewed_id u false = refl

  let_in-Admitted :
      (u : AdminUser) (h : Str) (renew : Bool)
      → config.enabled ≡ true
      → find username_of username db.users ≡ some u
      → locked_at u now ≡ false
      → u.password_hash ≡ some h
      → 1 ≤ length h
      → passwords.verify h password ≡ some (true, renew)
      → Ok (let_in passwords db u password renew now)
  unfolding let_in Admitted
  let_in-Admitted u h renew on f l p n v =
      if_cases Ok u.disabled (λ _. tt)
        (λ d. (on, (u, f, renewed_id u renew, d, l, (h, renew, p, n, v))))

  verified-Admitted :
      (u : AdminUser) (h : Str) (o : Option (Bool × Bool))
      → passwords.verify h password ≡ o
      → config.enabled ≡ true
      → find username_of username db.users ≡ some u
      → locked_at u now ≡ false
      → u.password_hash ≡ some h
      → 1 ≤ length h
      → Ok (verified passwords config db u password now o)
  unfolding verified Admitted
  verified-Admitted u h none v on f l p n = tt
  verified-Admitted u h (some (false, renew)) v on f l p n = tt
  verified-Admitted u h (some (true, renew)) v on f l p n = let_in-Admitted u h renew on f l p n v

  hash-Admitted :
      (u : AdminUser) (o : Option Str)
      → u.password_hash ≡ o
      → config.enabled ≡ true
      → find username_of username db.users ≡ some u
      → locked_at u now ≡ false
      → Ok (elim o [
        | none ↦ (db, refused invalid_credentials)
        | some h ↦
            if length h == 0
            then (db, refused invalid_credentials)
            else verified passwords config db u password now (passwords.verify h password)
      ])
  unfolding Admitted
  hash-Admitted u none p on f l = tt
  hash-Admitted u (some h) p on f l =
      if_cases Ok (length h == 0) (λ _. tt)
        (λ n. verified-Admitted u h (passwords.verify h password) refl on f l p (ground arith))

  user-Admitted :
      (o : Option AdminUser)
      → find username_of username db.users ≡ o
      → config.enabled ≡ true
      → Ok (elim (elim o as (λ _. Result AdminUser) [ none ↦ err not_found | some u ↦ ok u ]) [
        | err e ↦ (db, refused invalid_credentials)
        | ok user ↦ check_user passwords config db user password now
      ])
  unfolding check_user Admitted
  user-Admitted none f on = tt
  user-Admitted (some u) f on =
      if_cases Ok (locked_at u now) (λ _. tt) (λ l. hash-Admitted u u.password_hash refl on f l)

  -- Whoever is let in with a name and a password is the stored user of that name, who is neither
  -- disabled nor locked and whose stored hash, not empty, is that of the password; and password
  -- sign-in is on.
  pub authenticate-Admitted : Ok (authenticate passwords config db username password now)
  unfolding authenticate get_by_username Admitted
  authenticate-Admitted =
      if_cases Ok (not config.enabled) (λ _. tt)
        (λ on. user-Admitted (find username_of username db.users) refl (ground arith))

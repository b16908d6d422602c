-- ===== src/Store/Sessions/Revocation.antt =====
-- When a session stops being valid: `Lookup` and `DeleteForUser` of internal/store/sessions.go.
use smtp_auth_proxy.Prelude.{
  ℕ, ◌+◌, ◌-◌, ◌≤◌, ◌<◌, ◌≡◌, refl, subst, ◌≢◌, ◌⊎◌, inl, inr, false, not, ◌&&◌, Option, none, some,
  List, ◌∷◌, arith, ltb, if_cases, Bool-cases, In, In-cons, [],
}
use smtp_auth_proxy.Strings.{Str, str_eq, str_eq_iff}
use smtp_auth_proxy.Store.Rows.{find, filter, delete_where}
use smtp_auth_proxy.Store.Rows.Members.{find→In, find-key}
use smtp_auth_proxy.Store.Users.{
  AdminUser, Session, AdminDb, not_found, Result, ok, err, user_id_of,
}
use smtp_auth_proxy.Store.Sessions.{
  Authenticated, hash_of, of_user, lookup, check_live, delete_for_user,
}

-- A session that is accepted has the token's hash, belongs to the user, and has neither expired nor
-- idled; and the user is not disabled.
pub Live : AdminDb → Str → ℕ → ℕ → Result Authenticated → Type 0
Live db hash idle_timeout now (err e) = Unit
Live db hash idle_timeout now (ok a) =
    In a.session db.sessions
    × In a.user db.users
    × (a.session.token_hash ≡ hash)
    × (a.user.id ≡ a.session.user_id)
    × (now < a.session.expires_at)
    × ((idle_timeout ≡ 0) ⊎ (now ≤ a.session.last_seen_at + idle_timeout))
    × (a.user.disabled ≡ false)

module _ (db : AdminDb) (hash : Str) (idle_timeout now : ℕ) where
  abbrev Valid : AdminDb × Result Authenticated → Type 0
  Valid r = Live db hash idle_timeout now r.1

  check_live-Live :
      (s : Session) (u : AdminUser)
      → find hash_of hash db.sessions ≡ some s
      → find user_id_of s.user_id db.users ≡ some u
      → Valid (check_live db s u idle_timeout now)
  unfolding check_live Live
  check_live-Live s u f g =
      if_cases Valid (not (ltb now s.expires_at)) (λ _. tt)
        (λ e.
          if_cases Valid (ltb 0 idle_timeout && ltb idle_timeout (now - s.last_seen_at)) (λ _. tt)
            (λ i.
              if_cases Valid u.disabled (λ _. tt)
                (λ d. (
                  find→In hash_of hash db.sessions f,
                  find→In user_id_of s.user_id db.users g,
                  find-key hash_of hash db.sessions f,
                  find-key user_id_of s.user_id db.users g,
                  ground arith,
                  ground arith,
                  d,
                ))))

  -- Only live sessions.
  pub lookup-Live : Live db hash idle_timeout now (lookup db hash idle_timeout now).1
  unfolding lookup Live
  lookup-Live = by_session (find hash_of hash db.sessions) refl
    where
      by_user :
          (s : Session) (o : Option AdminUser)
          → find hash_of hash db.sessions ≡ some s
          → find user_id_of s.user_id db.users ≡ o
          → Valid
              (elim o [ none ↦ (db, err not_found) | some u ↦ check_live db s u idle_timeout now ])
      by_user s none f g = tt
      by_user s (some u) f g = check_live-Live s u f g

      by_session :
          (o : Option Session)
          → find hash_of hash db.sessions ≡ o
          → Valid (elim o [
            | none ↦ (db, err not_found)
            | some s ↦ elim (find user_id_of s.user_id db.users) [
              | none ↦ (db, err not_found)
              | some u ↦ check_live db s u idle_timeout now
            ]
          ])
      by_session none f = tt
      by_session (some s) f = by_user s (find user_id_of s.user_id db.users) f refl

deleted_In :
    (user_id : Str) (ss : List Session) (s : Session)
    → In s (delete_where (of_user user_id) ss)
    → str_eq s.user_id user_id ≡ false
unfolding filter
deleted_In user_id [] s i = elim i [ ]
deleted_In user_id (x ∷ ss) s i = elim (Bool-cases (str_eq x.user_id user_id)) [
  | inl e ↦ deleted_In user_id ss s (rw e at i)
  | inr e ↦ elim (In-cons (rw e at i)) [ inl q ↦ rw q e | inr j ↦ deleted_In user_id ss s j ]
]

-- After a user's sessions are deleted, no token is accepted as that user's.
pub delete_for_user_lem :
    (db : AdminDb) (user_id hash : Str) (idle_timeout now : ℕ) (a : Authenticated)
    → (lookup (delete_for_user db user_id).0 hash idle_timeout now).1 ≡ ok a
    → a.user.id ≢ user_id
unfolding Live delete_for_user
delete_for_user_lem db user_id hash idle_timeout now a h =
    let (i, j, t, k, e1, e2, e3) =
      subst (Live (delete_for_user db user_id).0 hash idle_timeout now) h
        (lookup-Live (delete_for_user db user_id).0 hash idle_timeout now) in
    λ e.
      ground
        (arith, deleted_In user_id db.sessions a.session i, str_eq_iff a.session.user_id user_id)

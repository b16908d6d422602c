-- ===== src/Store/Messages/Claims.antt =====
-- What a claim takes: `ClaimMessages` of internal/store/messages.go.
use smtp_auth_proxy.Prelude.{
  ℕ, ◌+◌, ◌≤◌, ◌≡◌, refl, sym, ap, Bool, true, false, ◌&&◌, none, some, List, ◌∷◌, arith, length,
  take, map, Bool-cases, inl, inr, All, In, length-take, ◌⊎◌, subst, suc, [],
}
use smtp_auth_proxy.Strings.{Str, str_eq, str_eq_iff}
use smtp_auth_proxy.Store.Models.{Message}
use smtp_auth_proxy.Store.Rows.{
  update_where, filter, order_by, find, Unique, changed, find-update_where,
}
use smtp_auth_proxy.Store.Rows.Members.{
  In-take, In-order_by, In-filter, length-order_by, find-In, find-key, In-update_where, All-In,
  length-filter_or, length-filter_key, length-filter-false, length-filter-update_where, All-map,
}
use smtp_auth_proxy.Store.Messages.{
  Db, ok, id_of, is_due, has_id, chosen, leased, next_of, claim_messages, owned_by, expires_at,
  is_sending,
}

has_id→In :
    (ms : List Message) (k : Str)
    → has_id (map id_of ms) k ≡ true
    → (m : Message) × In m ms × (m.id ≡ k)
unfolding has_id
has_id→In [] k h = cc
has_id→In (m ∷ ms) k h = elim (Bool-cases (str_eq k m.id)) [
  | inl e ↦ (m, In.here, sym ((str_eq_iff _ _).0 e))
  | inr e ↦ let (x, i, q) = has_id→In ms k (rw e at h) in (x, In.there i, q)
]

length-filter-has_id :
    (ids : List Str) (ms : List Message)
    → Unique id_of ms
    → length (filter (λ m. has_id ids m.id) ms) ≤ length ids
unfolding has_id
length-filter-has_id [] ms u = omega (arith, length-filter-false ms)
length-filter-has_id (i ∷ ids) ms u = omega (
  arith,
  length-filter_or (λ m. str_eq m.id i) (λ m. has_id ids m.id) ms,
  length-filter_key id_of i ms u,
  length-filter-has_id ids ms u,
)

length-map {ℓ κ} :
    {A : Type ℓ} {B : Type κ} (f : A → B) (xs : List A) → length (map f xs) ≡ length xs
length-map f [] = refl
length-map f (x ∷ xs) = ap suc (length-map f xs)

module _ (db : Db) (unique : Unique id_of db.messages) where
  -- A chosen id is that of a due row.
  pub chosen_due :
      (limit now : ℕ) (k : Str) {m : Message}
      → has_id (chosen db limit now) k ≡ true
      → find id_of k db.messages ≡ some m
      → is_due now m ≡ true
  unfolding chosen
  chosen_due limit now k {m} h f =
      let due = filter (is_due now) db.messages in
      let (x, i, q) = has_id→In (take limit (order_by next_of due)) k h in
      let (j, d) =
        In-filter (is_due now) db.messages (In-order_by next_of due (In-take limit _ i)) in
      let g : find id_of k db.messages ≡ some x =
        subst (λ z. find id_of z db.messages ≡ some x) q (find-In id_of db.messages unique j) in
      same x d g
    where
      same :
          (x : Message)
          → is_due now x ≡ true
          → find id_of k db.messages ≡ some x
          → is_due now m ≡ true
      same x d g = cc

  module _ (owner : Str) (limit lease_for now : ℕ) where
    abbrev claimed : Message → Message
    claimed = leased owner (now + lease_for) now

    abbrev after : List Message
    after = (claim_messages db owner limit lease_for now).0.messages

    find_updated :
        (k : Str)
        → find id_of k (update_where (λ m. has_id (chosen db limit now) m.id) claimed db.messages)
          ≡ changed id_of
              (λ m. has_id (chosen db limit now) m.id)
              claimed
              (find id_of k db.messages)
    find_updated k =
        find-update_where id_of (λ m. has_id (chosen db limit now) m.id) claimed (λ m. refl) k
          db.messages

    id_of_found : (k : Str) {m : Message} → find id_of k db.messages ≡ some m → m.id ≡ k
    id_of_found k f = find-key id_of k db.messages f

    -- A claim leaves a row alone, or leases a due one.
    pub claim_row :
        (k : Str) {m : Message}
        → find id_of k db.messages ≡ some m
        → (find id_of k after ≡ some m)
          ⊎ ((is_due now m ≡ true) × (find id_of k after ≡ some (claimed m)))
    unfolding claim_messages
    claim_row k {m} f = elim (Bool-cases (has_id (chosen db limit now) m.id)) [
      | inl e ↦ ground (
        arith,
        find_updated k,
        chosen_due limit now k
            (subst (λ z. has_id (chosen db limit now) z ≡ true) (id_of_found k f) e) f,
      )
      | inr e ↦ ground (arith, find_updated k)
    ]

    pub claim_absent : (k : Str) → find id_of k db.messages ≡ none → find id_of k after ≡ none
    unfolding claim_messages
    claim_absent k f = ground (arith, find_updated k)

    -- A claim leaves a row that is not due, such as one under a live lease, as it was.
    pub claim-not_due :
        (k : Str) {m : Message}
        → find id_of k db.messages ≡ some m
        → is_due now m ≡ false
        → find id_of k after ≡ some m
    claim-not_due k {m} f d = elim (claim_row k f) [ inl e ↦ e | inr e ↦ absurd (clash e.0) ]
      where
        clash : is_due now m ≡ true → ⊥
        clash e = cc

    -- No row has the lease that the claim is about to write.
    abbrev pub IsFresh : Type 0
    IsFresh = All (λ m. (owned_by owner m && expires_at (now + lease_for) m) ≡ false) db.messages

    abbrev updated : List Message
    updated = update_where (λ m. has_id (chosen db limit now) m.id) claimed db.messages

    abbrev read_back : Message → Bool
    read_back m = owned_by owner m && expires_at (now + lease_for) m && is_sending m.status

    read_row :
        IsFresh
        → (y : Message) → In y (order_by next_of (filter read_back updated))
        → (m : Message) × (find id_of m.id db.messages ≡ some m)
          × (is_due now m ≡ true)
          × (y ≡ claimed m)
    read_row fresh y h =
        let (j, r) = In-filter read_back updated (In-order_by next_of _ h) in
        let (m, i, q) = In-update_where _ claimed db.messages j in
        let f = find-In id_of db.messages unique i in
        elim (Bool-cases (has_id (chosen db limit now) m.id)) [
          | inl e ↦ (m, f, chosen_due limit now m.id e f, rw e at q)
          | inr e ↦ absurd (stale m (All-In _ db.messages fresh i) (rw e at q) r)
        ]
      where
        stale :
            (m : Message)
            → (owned_by owner m && expires_at (now + lease_for) m) ≡ false
            → y ≡ m
            → read_back y ≡ true
            → ⊥
        stale m n q r = ground (arith)

    claim_result :
        (ms : List Message)
        → (claim_messages db owner limit lease_for now).1 ≡ ok ms
        → (ms ≡ []) ⊎ (ms ≡ order_by next_of (filter read_back updated))
    unfolding claim_messages
    claim_result ms e = ground arith

    -- Where no row is already leased to this owner until the same instant, every message that a
    -- claim hands out is the lease of a row that was due: its status, owner, expiry and time of
    -- update are set, and nothing else.
    pub claim_sound :
        (ms : List Message) (y : Message)
        → IsFresh
        → (claim_messages db owner limit lease_for now).1 ≡ ok ms
        → In y ms
        → (m : Message) × (find id_of m.id db.messages ≡ some m)
          × (is_due now m ≡ true)
          × (y ≡ claimed m)
    claim_sound ms y fresh e h = elim (claim_result ms e) [
      | inl q ↦ absurd (not_empty (subst (λ l. In y l) q h))
      | inr q ↦ read_row fresh y (subst (λ l. In y l) q h)
    ]
      where
        not_empty : In y [] → ⊥
        not_empty i = elim i [ ]

    length-chosen : length (chosen db limit now) ≤ limit
    unfolding chosen
    length-chosen =
        let due = order_by next_of (filter (is_due now) db.messages) in
        omega (arith, length-map id_of (take limit due), length-take limit due)

    length-read_back : IsFresh → length (order_by next_of (filter read_back updated)) ≤ limit
    length-read_back fresh = omega (
      arith,
      length-order_by next_of (filter read_back updated),
      length-filter-update_where read_back (λ m. has_id (chosen db limit now) m.id) claimed
          db.messages
          (All-map _ (λ m. read_back m ≡ false) db.messages (λ m e. ground arith) fresh),
      length-filter-has_id (chosen db limit now) db.messages unique,
      length-chosen,
    )

    -- Where no row is already leased to this owner until the same instant, a claim hands out at
    -- most as many messages as its limit.
    pub length-claim :
        (ms : List Message)
        → IsFresh
        → (claim_messages db owner limit lease_for now).1 ≡ ok ms
        → length ms ≤ limit
    length-claim ms fresh e = elim (claim_result ms e) [
      | inl q ↦ rw q (omega arith)
      | inr q ↦ rw q (length-read_back fresh)
    ]

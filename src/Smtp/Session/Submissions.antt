-- ===== src/Smtp/Session/Submissions.antt =====
-- Which submissions a session makes: `Data` of internal/smtpsrv/session.go.
use Prim.Native.Nat.{min}
use smtp_auth_proxy.Prelude.{
  ℕ, ◌+◌, ◌-◌, ◌≤◌, ◌≡◌, refl, subst, ◌≢◌, ◌⊎◌, inl, inr, true, false, Option, none, some, ◌∷◌,
  ◌++◌, arith, ◌==◌, if◌then◌else◌, if_cases, length, In, [],
}
use smtp_auth_proxy.Strings.{Str}
use smtp_auth_proxy.Store.Models.{Mailbox}
use smtp_auth_proxy.Policy.Address.{Address}
use smtp_auth_proxy.Policy.Resolve.{
  Action, Decision, Input, is_rejected, resolve, accepted, rewritten, rejected,
}
use smtp_auth_proxy.Policy.Resolve.Safety.{
  IsSound, Grant, through, refused as sound_refused, resolve-IsSound,
}
use smtp_auth_proxy.Smtp.Headers.{HeaderError, Message, parse_message}
use smtp_auth_proxy.Smtp.Session.{
  done, chunk_size, received_header, panicked, refused, auth_required, submission_rejected,
  Libraries, Config, Identity, Reader, Conn, Session, Submission, ended, step, read_loop,
  read_message, Reply,
}
use smtp_auth_proxy.Smtp.Session.Data.{
  submission_of, Stop, stop, decided, input_of, header_from_of, prepare_data, apply_decision,
}

module _ (lib : Libraries) where
  -- A submission is made for the identity of the session and all its recipients, one at least, from
  -- an enabled mailbox that is linked to the account, which has a grant for the From address.
  pub record IsAuthorized (s : Session lib) (sub : Submission lib) : Type 0 where
    pub by : s.identity ≡ some sub.identity
    pub to : (sub.recipients ≡ s.recipients) × (1 ≤ length sub.recipients)
    pub linked : In sub.mailbox sub.identity.mailboxes
    pub on : (sub.mailbox.enabled ≡ true) × (sub.identity.account.enabled ≡ true)
    pub granted :
        (from : Address) × (action : Action) × (is_rejected action ≡ false)
        × Grant (input_of lib sub.identity s from) sub.mailbox action
        × ((action ≡ rewritten) ⊎ (sub.header_from ≡ from))

  -- What stops early is refused.
  unfoldable pub Authorized : Session lib → Stop ⊎ Submission lib → Type 0
  Authorized s (inl (stop _ reply)) = reply ≢ done
  Authorized s (inr sub) = IsAuthorized s sub

  read_refuses :
      (limit left : ℕ) (buf : Str) (r : Reader) {reply : Reply}
      → read_loop limit left buf r ≡ inl reply
      → reply ≢ done
  unfolding read_loop
  read_refuses limit left buf ended {reply} h e = cc
  read_refuses limit left buf (step bytes report next) {reply} h e =
      let size = min chunk_size left in
      let rest =
        read_refuses limit (left - length (bytes size)) (buf ++ bytes size) (next size)
          {reply = reply} in
      ground arith

  apply_accepted :
      (parsed : Message lib.text) (d : Decision) (from : Address) (received : Str)
      {final : Str × Address}
      → apply_decision lib parsed d from received ≡ some final
      → d.action ≡ accepted
      → final.1 ≡ from
  unfolding apply_decision
  apply_accepted parsed d from received {final} h a = taken (rw a at h)
    where
      taken : {m : Str} → some (m, from) ≡ some final → final.1 ≡ from
      taken = λ q. cc

  live : (a : Action) → is_rejected a ≡ false → a ≡ rejected → ⊥
  live a h e = cc

  -- The mailbox of a decision that is sound and no rejection.
  sound_mailbox :
      (input : Input) (d : Decision) {mb : Mailbox}
      → IsSound input d
      → is_rejected d.action ≡ false
      → d.mailbox ≡ some mb
      → In mb input.mailboxes
        × (mb.enabled ≡ true)
        × (input.account.enabled ≡ true)
        × Grant input mb d.action
  sound_mailbox input d (sound_refused a m c) h e = absurd (live d.action h a)
  sound_mailbox input d {mb} (through mb' m i on account from same g) h e =
      subst
        (λ k.
          In k input.mailboxes
          × (k.enabled ≡ true)
          × (input.account.enabled ≡ true)
          × Grant input k d.action)
        (same_mailbox m e) (i, on, account, g)
    where
      same_mailbox : {k : Mailbox} → d.mailbox ≡ some k → d.mailbox ≡ some mb → k ≡ mb
      same_mailbox p = λ q. cc

  module _ (config : Config) (conn : Conn lib) (s : Session lib) (now : ℕ) (stamp : Str) where
    decided-Authorized :
        (identity : Identity) (parsed : Message lib.text) (from : Address)
        → s.identity ≡ some identity
        → 1 ≤ length s.recipients
        → Authorized s (
            decided lib config conn s identity parsed from
              (resolve (input_of lib identity s from))
              now
              stamp)
    unfolding decided Authorized
    decided-Authorized identity parsed from known some_recipient =
        if_cases (Authorized s) (is_rejected d.action) (λ _ e. cc) (λ h. mailbox h d.mailbox refl)
      where
        d : Decision
        d = resolve (input_of lib identity s from)

        finish :
            (mb : Mailbox) (o : Option (Str × Address))
            → is_rejected d.action ≡ false
            → d.mailbox ≡ some mb
            → apply_decision lib parsed d from (received_header lib config conn identity stamp) ≡ o
            → Authorized s (elim o [
              | none ↦ inl (stop [] panicked)
              | some final ↦ inr (submission_of lib config conn s identity parsed mb now final)
            ])
        finish mb none h m e = λ q. cc
        finish mb (some final) h m e =
            let (i, on, account, g) =
              sound_mailbox (input_of lib identity s from) d (resolve-IsSound _) h m in
            unfold submission_of input_of in
            record {
              by = known;
              to = (refl, some_recipient);
              linked = i;
              on = (on, account);
              granted = (from, d.action, h, g, carried d.action refl h final e);
            }
          where
            carried :
                (a : Action)
                → d.action ≡ a
                → is_rejected a ≡ false
                → (f : Str × Address)
                → apply_decision lib parsed d from (received_header lib config conn identity stamp)
                  ≡ some f
                → (d.action ≡ rewritten) ⊎ (f.1 ≡ from)
            carried accepted q l f e = inr (apply_accepted parsed d from _ e q)
            carried rewritten q l f e = inl q
            carried rejected q l f e = cc

        mailbox :
            is_rejected d.action ≡ false
            → (o : Option Mailbox) → d.mailbox ≡ o
            → Authorized s (elim o [
              | none ↦ inl (stop [] panicked)
              | some mb ↦
                  elim (apply_decision lib parsed d from
                    (received_header lib config conn identity stamp)) [
                      | none ↦ inl (stop [] panicked)
                      | some final ↦
                          inr (submission_of lib config conn s identity parsed mb now final)
                    ]
            ])
        mailbox h none m = λ q. cc
        mailbox h (some mb) m = finish mb _ h m refl

    -- Whatever the client sends as the message, DATA either stops with a reply that is not success,
    -- or hands over a submission for the session's identity and all its recipients, one at least,
    -- from an enabled mailbox linked to the enabled account, with a grant for the From address.
    pub prepare_data-Authorized :
        (r : Reader) → Authorized s (prepare_data lib config conn s r now stamp)
    unfolding prepare_data Authorized
    prepare_data-Authorized r = by_identity s.identity refl
      where
        positive : (length s.recipients == 0) ≡ false → 1 ≤ length s.recipients
        positive h = ground arith

        by_from :
            (identity : Identity) (parsed : Message lib.text) (o : Option Address)
            → s.identity ≡ some identity
            → 1 ≤ length s.recipients
            → Authorized s (elim o [
              | none ↦ inl (stop [] (refused 550 (some (5, 7, 1))))
              | some from ↦
                  decided lib config conn s identity parsed from
                    (resolve (input_of lib identity s from))
                    now
                    stamp
            ])
        by_from identity parsed none known n = λ q. cc
        by_from identity parsed (some from) known n =
            decided-Authorized identity parsed from known n

        by_message :
            (identity : Identity) (o : HeaderError ⊎ Message lib.text)
            → s.identity ≡ some identity
            → 1 ≤ length s.recipients
            → Authorized s (elim o [
              | inl _ ↦ inl (stop (submission_rejected ∷ []) (refused 550 (some (5, 6, 0))))
              | inr parsed ↦ elim (header_from_of lib parsed) [
                | none ↦ inl (stop [] (refused 550 (some (5, 7, 1))))
                | some from ↦
                    decided lib config conn s identity parsed from
                      (resolve (input_of lib identity s from))
                      now
                      stamp
              ]
            ])
        by_message identity (inl e) known n = λ q. cc
        by_message identity (inr parsed) known n = by_from identity parsed _ known n

        by_bytes :
            (identity : Identity) (o : Reply ⊎ Str)
            → read_message config r ≡ o
            → s.identity ≡ some identity
            → 1 ≤ length s.recipients
            → Authorized s (elim o [
              | inl reply ↦ inl (stop [] reply)
              | inr raw ↦ elim (parse_message lib.text raw) [
                | inl _ ↦ inl (stop (submission_rejected ∷ []) (refused 550 (some (5, 6, 0))))
                | inr parsed ↦ elim (header_from_of lib parsed) [
                  | none ↦ inl (stop [] (refused 550 (some (5, 7, 1))))
                  | some from ↦
                      decided lib config conn s identity parsed from
                        (resolve (input_of lib identity s from))
                        now
                        stamp
                ]
              ]
            ])
        by_bytes identity (inl reply) e known n =
            read_refuses config.max_message_bytes _ [] r (read e)
          where
            read :
                read_message config r ≡ inl reply
                → read_loop config.max_message_bytes (config.max_message_bytes + 1) [] r ≡ inl reply
            read q = unfold read_message in q
        by_bytes identity (inr raw) e known n = by_message identity _ known n

        by_identity :
            (o : Option Identity)
            → s.identity ≡ o
            → Authorized s (elim o [
              | none ↦ inl (stop [] auth_required)
              | some identity ↦
                  if length s.recipients == 0
                  then inl (stop [] (refused 554 (some (5, 5, 1))))
                  else elim (read_message config r) [
                    | inl reply ↦ inl (stop [] reply)
                    | inr raw ↦ elim (parse_message lib.text raw) [
                      | inl _ ↦ inl (stop (submission_rejected ∷ []) (refused 550 (some (5, 6, 0))))
                      | inr parsed ↦ elim (header_from_of lib parsed) [
                        | none ↦ inl (stop [] (refused 550 (some (5, 7, 1))))
                        | some from ↦
                            decided lib config conn s identity parsed from
                              (resolve (input_of lib identity s from))
                              now
                              stamp
                      ]
                    ]
                  ]
            ])
        by_identity none known = unfold auth_required in λ q. cc
        by_identity (some identity) known =
            if_cases (Authorized s) (length s.recipients == 0) (λ _ e. cc)
              (λ h. by_bytes identity (read_message config r) refl known (positive h))

-- ===== src/Smtp/Session/Data.antt =====
-- `Data` and `applyDecision` of internal/smtpsrv/session.go.
use smtp_auth_proxy.Prelude.{
  ℕ, ◌⊎◌, inl, inr, true, false, not, ◌&&◌, Option, none, some, List, ◌∷◌, ◌==◌, if◌then◌else◌,
  length, [],
}
use smtp_auth_proxy.Strings.{Str, codes, trim}
use smtp_auth_proxy.Store.Models.{Mailbox}
use smtp_auth_proxy.Policy.Address.{
  Address, empty, is_empty, must_parse_address, parse_header_from, to_string, ok, err, no_address,
  malformed,
}
use smtp_auth_proxy.Policy.Resolve.{Decision, Input, is_rejected, resolve, rewritten}
use smtp_auth_proxy.Smtp.Headers.{Message, HeaderEdit, parse_message, rewrite_headers, get}
use smtp_auth_proxy.Smtp.Session.{
  Libraries, Reply, done, refused, panicked, Event, submission_accepted, submission_rejected,
  submission_failed, Config, Identity, Reader, Conn, Session, Submission, Services, auth_required,
  parse_enhanced, read_message, received_header,
}

-- The `Received` field, at the top.
unfoldable pub trace_edit : Str → HeaderEdit
trace_edit received = record { key = codes "Received"; value = received; prepend = true }

unfoldable pub set_edit : Str → Str → HeaderEdit
set_edit key value = record { key = key; value = value; prepend = false }

-- What ends the command early, with what is told to the recorder.
pub data Stop : Type 0 where
  stop : List Event → Reply → Stop

module _ (lib : Libraries) where
  -- The edits of a rewritten submission; `reply_to` is the value of its Reply-To field.
  unfoldable pub rewrite_edits : Str → Address → Str → List HeaderEdit
  unfolding set_edit
  rewrite_edits rewrite_from header_from reply_to =
      let original = to_string lib.mail header_from in
      set_edit (codes "From") rewrite_from
      ∷ set_edit (codes "X-Original-From") original
      ∷ (if length reply_to == 0 && not (is_empty header_from)
          then set_edit (codes "Reply-To") original ∷ []
          else [])

  -- `none` is the panic of `MustParseAddress`.
  unfoldable pub apply_decision :
      Message lib.text → Decision → Address → Str → Option (Str × Address)
  unfolding rewrite_edits trace_edit
  apply_decision parsed d header_from received = elim d.action [
    | rewritten ↦
        let edits =
          trace_edit received
          ∷ rewrite_edits d.rewrite_from header_from (get lib.text parsed (codes "Reply-To")) in
        elim (must_parse_address lib.mail d.rewrite_from) [
          | none ↦ none
          | some from ↦ some (rewrite_headers lib.text parsed edits, from)
        ]
    | _ ↦ some (rewrite_headers lib.text parsed (trace_edit received ∷ []), header_from)
  ]

  -- The From address of a message: a missing one is the empty address.
  unfoldable pub header_from_of : Message lib.text → Option Address
  header_from_of parsed = elim (parse_header_from lib.mail (get lib.text parsed (codes "From"))) [
    | ok a ↦ some a
    | err no_address ↦ some empty
    | err malformed ↦ none
  ]

  -- The submission, from the final message and its From address; `now` is the time.
  unfoldable pub submission_of :
      Config
      → Conn lib
      → Session lib
      → Identity
      → Message lib.text
      → Mailbox
      → ℕ
      → Str × Address
      → Submission lib
  submission_of config conn s identity parsed mb now (final, final_from) = record {
    identity = identity;
    mailbox = mb;
    envelope_from = s.envelope_from;
    header_from = final_from;
    recipients = s.recipients;
    raw = final;
    message_id = trim (get lib.text parsed (codes "Message-Id")) (codes "<>");
    subject = if config.record_subjects then get lib.text parsed (codes "Subject") else [];
    client_ip = conn.remote_ip;
    client_helo = conn.helo;
    tls = conn.encrypted;
    received_at = now;
  }

  -- What `Data` does with the decision, up to the call of the submitter; `stamp` is the rendering
  -- of the time. A decision without a mailbox would be a nil dereference.
  unfoldable pub decided :
      Config
      → Conn lib
      → Session lib
      → Identity
      → Message lib.text
      → Address
      → Decision
      → ℕ
      → Str
      → Stop ⊎ Submission lib
  unfolding submission_of apply_decision
  decided config conn s identity parsed header_from d now stamp =
      if is_rejected d.action
      then inl (stop (submission_rejected ∷ []) (refused d.code (parse_enhanced d.enhanced)))
      else elim d.mailbox [
        | none ↦ inl (stop [] panicked)
        | some mb ↦
            elim (apply_decision parsed d header_from
              (received_header lib config conn identity stamp)) [
                | none ↦ inl (stop [] panicked)
                | some final ↦ inr (submission_of config conn s identity parsed mb now final)
              ]
      ]

  unfoldable pub input_of : Identity → Session lib → Address → Input
  input_of identity s header_from = record {
    account = identity.account;
    mailboxes = identity.mailboxes;
    envelope_from = s.envelope_from;
    header_from = header_from;
  }

  -- The part of `Data` before the submitter.
  unfoldable pub prepare_data :
      Config → Conn lib → Session lib → Reader → ℕ → Str → Stop ⊎ Submission lib
  unfolding decided input_of header_from_of
  prepare_data config conn s r now stamp = elim s.identity [
    | none ↦ inl (stop [] auth_required)
    | some identity ↦
        if length s.recipients == 0
        then inl (stop [] (refused 554 (some (5, 5, 1))))
        else elim (read_message config r) [
          | inl reply ↦ inl (stop [] reply)
          | inr raw ↦ elim (parse_message lib.text raw) [
            | inl _ ↦ inl (stop (submission_rejected ∷ []) (refused 550 (some (5, 6, 0))))
            | inr parsed ↦ elim (header_from_of parsed) [
              | none ↦ inl (stop [] (refused 550 (some (5, 7, 1))))
              | some header_from ↦
                  decided config conn s identity parsed header_from
                    (resolve (input_of identity s header_from)) now stamp
            ]
          ]
        ]
  ]

  -- What follows the submitter's answer.
  unfoldable pub answer : Option Str → List Event × Reply
  answer none = (submission_failed ∷ [], refused 451 (some (4, 3, 0)))
  answer (some _) = (submission_accepted ∷ [], done)

  -- `finished` is the rest of `Data` after the preparation.
  unfoldable pub finished :
      {S : Type 0} → Services lib S → S → Stop ⊎ Submission lib → S × (List Event × Reply)
  unfolding answer
  finished services state (inl (stop events reply)) = (state, (events, reply))
  finished services state (inr submission) =
      let (later, id) = services.submit state submission in (later, answer id)

  unfoldable pub data_command :
      {S : Type 0}
      → Services lib S
      → Config
      → Conn lib
      → Session lib
      → S
      → Reader
      → ℕ
      → Str
      → S × (List Event × Reply)
  unfolding prepare_data finished
  data_command services config conn s state r now stamp =
      finished services state (prepare_data config conn s r now stamp)

-- ===== src/Smtp/Session.antt =====
-- One client connection: internal/smtpsrv/session.go and auth.go.
pub mod Data
pub mod Auth
pub mod Submissions
use Prim.Native.Nat.{min}
use smtp_auth_proxy.Prelude.{
  ℕ, ◌+◌, ◌-◌, ◌*◌, ◌⊎◌, inl, inr, Bool, false, not, ◌&&◌, ◌||◌, Option, none, some, List, ◌∷◌,
  ◌++◌, ltb, leb, ◌==◌, if◌then◌else◌, length, [],
}
use smtp_auth_proxy.Strings.{Str, str_eq, codes, trim}
use smtp_auth_proxy.Store.Models.{Mailbox}
use smtp_auth_proxy.Policy.Address.{
  Mail, Address, AddressError, empty, is_empty, parse_address, must_parse_address,
  parse_header_from, to_string, ok, err, no_address, malformed,
}
use smtp_auth_proxy.Policy.Resolve.{
  Account, Action, Decision, Input, is_rejected, resolve, accepted, rewritten, rejected,
}
use smtp_auth_proxy.Policy.Source.{Net}
use smtp_auth_proxy.Smtp.Headers.{
  Textproto, HeaderEdit, parse_message, rewrite_headers, get, sanitize_header_value,
}

-- The libraries that a session calls.
pub record Libraries : Type 1 where
  pub mail : Mail
  pub text : Textproto
  pub net : Net

-- An `smtp.SMTPError` without its text; the enhanced code `none` is `EnhancedCodeNotSet`.
pub data Reply : Type 0 where
  done : Reply
  refused : ℕ → Option (ℕ × ℕ × ℕ) → Reply
  -- `ErrAuthFailed`
  auth_failed : Reply
  -- The panic of `MustParseAddress`.
  panicked : Reply

-- What the session tells its recorder.
pub data Event : Type 0 where
  auth_failure_no_tls auth_failure_credentials : Event
  submission_accepted submission_rejected submission_failed : Event

pub record Config : Type 0 where
  pub allow_insecure_auth : Bool
  pub require_tls : Bool
  pub max_auth_failures : ℕ
  pub max_recipients : ℕ
  pub max_message_bytes : ℕ
  pub record_subjects : Bool
  pub hostname : Str
  pub user_agent : Str

pub record Identity : Type 0 where
  pub account_id : Str
  pub username : Str
  pub account : Account
  pub mailboxes : List Mailbox

-- One read of a reader into a buffer of a given size: its bytes and what it reports.
pub data Status : Type 0 where
  more eof broken : Status

-- An `io.Reader` that ends: at each step, for the size of the buffer, the bytes, the report and the
-- reader that is left.
pub data Reader : Type 0 where
  ended : Reader
  step : (ℕ → Str) → (ℕ → Status) → (ℕ → Reader) → Reader

unfoldable pub auth_required : Reply
auth_required = refused 530 (some (5, 7, 0))

-- The digits of one part; `none` is a character that is no digit.
unfoldable pub parse_digits : Str → ℕ → Option ℕ
parse_digits [] n = some n
parse_digits (c ∷ s) n =
    let rest = parse_digits s (n * 10 + (c - 48)) in if ltb c b'0' || ltb b'9' c then none else rest

-- strings.Split(s, ".")
unfoldable pub split_dots : Str → List Str
split_dots [] = [] ∷ []
split_dots (c ∷ s) =
    let rest = split_dots s in
    if c == b'.'
    then [] ∷ rest
    else elim rest [ [] ↦ (c ∷ []) ∷ [] | part ∷ parts ↦ (c ∷ part) ∷ parts ]

unfoldable pub parse_enhanced : Str → Option (ℕ × ℕ × ℕ)
unfolding split_dots parse_digits
parse_enhanced s = elim (split_dots s) [
  | [] ↦ none
  | a ∷ [] ↦ none
  | a ∷ b ∷ [] ↦ none
  | a ∷ b ∷ c ∷ [] ↦ elim (parse_digits a 0) [
    | none ↦ none
    | some x ↦ elim (parse_digits b 0) [
      | none ↦ none
      | some y ↦ elim (parse_digits c 0) [ none ↦ none | some z ↦ some (x, y, z) ]
    ]
  ]
  | a ∷ b ∷ c ∷ d ∷ rest ↦ none
]

abbrev pub chunk_size : ℕ
chunk_size = 32768

-- The loop of `readMessage` over the limited reader, which has `left` bytes to give.
unfoldable pub read_loop : ℕ → ℕ → Str → Reader → Reply ⊎ Str
read_loop limit left buf ended = inr buf
read_loop limit left buf (step bytes report next) =
    let size = min chunk_size left in
    let grown = buf ++ bytes size in
    let rest = read_loop limit (left - length (bytes size)) grown (next size) in
    if left == 0 then inr buf else elim (report size) [
      | eof ↦ inr grown
      | broken ↦ inl (refused 451 (some (4, 4, 2)))
      | more ↦ if ltb limit (length grown) then inl (refused 552 (some (5, 3, 4))) else rest
    ]

-- `readMessage`, without the draining of the reader.
unfoldable pub read_message : Config → Reader → Reply ⊎ Str
unfolding read_loop
read_message config r = read_loop config.max_message_bytes (config.max_message_bytes + 1) [] r

module _ (lib : Libraries) where
  -- The connection as a command finds it: the addresses, whether it is under TLS, and the name that
  -- the client gave.
  pub record Conn : Type 0 where
    pub remote_ip : Option lib.net.Ip
    pub encrypted : Bool
    pub helo : Str

  -- `closed` is whether the session has closed the connection.
  pub record Session : Type 0 where
    pub identity : Option Identity
    pub auth_failures : ℕ
    pub closed : Bool
    pub envelope_from : Address
    pub recipients : List Str

  pub record Submission : Type 0 where
    pub identity : Identity
    pub mailbox : Mailbox
    pub envelope_from : Address
    pub header_from : Address
    pub recipients : List Str
    pub raw : Str
    pub message_id : Str
    pub subject : Str
    pub client_ip : Option lib.net.Ip
    pub client_helo : Str
    pub tls : Bool
    pub received_at : ℕ

  -- The interfaces `Authenticator` and `Submitter`, over the state `S` that they act on.
  pub record Services (S : Type 0) : Type 0 where
    pub authenticate : S → Str → Str → Option lib.net.Ip → S × Option Identity
    pub submit : S → Submission → S × Option Str

  unfoldable pub new_session : Session
  new_session = record {
    identity = none;
    auth_failures = 0;
    closed = false;
    envelope_from = empty;
    recipients = [];
  }

  -- The mechanisms on offer, PLAIN and LOGIN.
  unfoldable pub auth_mechanisms : Config → Conn → List Str
  auth_mechanisms config conn =
      if not conn.encrypted && not config.allow_insecure_auth
      then []
      else codes "PLAIN" ∷ codes "LOGIN" ∷ []

  unfoldable pub record_auth_failure : Config → Session → Session
  record_auth_failure config s =
      let failures = s.auth_failures + 1 in
      record s {
        auth_failures = failures;
        closed =
            s.closed || ltb 0 config.max_auth_failures && leb config.max_auth_failures failures;
      }

  unfoldable pub reset : Session → Session
  reset s = record s { envelope_from = empty; recipients = [] }

  unfoldable pub logout : Session → Session
  unfolding reset
  logout s = reset s

  unfoldable pub mail : Config → Conn → Session → Str → Session × Reply
  unfolding auth_required
  mail config conn s from = elim s.identity [
    | none ↦ (s, auth_required)
    | some _ ↦
        if config.require_tls && not conn.encrypted
        then (s, refused 530 (some (5, 7, 0)))
        else elim (parse_address lib.mail from) [
          | err _ ↦ (s, refused 501 (some (5, 1, 7)))
          | ok a ↦ (record s { envelope_from = a; recipients = [] }, done)
        ]
  ]

  unfoldable pub rcpt : Config → Session → Str → Session × Reply
  unfolding auth_required
  rcpt config s to = elim s.identity [
    | none ↦ (s, auth_required)
    | some _ ↦
        if leb config.max_recipients (length s.recipients)
        then (s, refused 452 (some (4, 5, 3)))
        else elim (parse_address lib.mail to) [
          | err _ ↦ (s, refused 501 (some (5, 1, 3)))
          | ok a ↦
              if is_empty a
              then (s, refused 501 (some (5, 1, 3)))
              else (record s { recipients = s.recipients ++ a.original ∷ [] }, done)
        ]
  ]

  -- `stamp` is the rendering of the time.
  unfoldable pub received_header : Config → Conn → Identity → Str → Str
  received_header config conn identity stamp =
      codes "from "
      ++ ((if length conn.helo == 0 then codes "unknown" else sanitize_header_value conn.helo)
          ++ (elim conn.remote_ip [
            | none ↦ []
            | some ip ↦ codes " (" ++ (lib.net.show_ip ip ++ codes ")")
          ]
              ++ (codes " by "
                  ++ (config.hostname
                      ++ (codes " ("
                          ++ (config.user_agent
                              ++ (codes ") with "
                                  ++ ((if conn.encrypted then codes "ESMTPSA" else codes "ESMTPA")
                                      ++ (codes " id "
                                          ++ (identity.username ++ (codes "; " ++ stamp)))))))))))

-- ===== src/Smtp/Fixtures.antt =====
-- A session with a stand-in for the header parser, on which the theorems about submissions are run.
use smtp_auth_proxy.Prelude.{true, false, some, List, ◌∷◌, ◌++◌, if◌then◌else◌, []}
use smtp_auth_proxy.Strings.{Str, codes, str_eq}
use smtp_auth_proxy.Policy.Address.{empty}
use smtp_auth_proxy.Policy.Fixtures.{plain_mail, tiny_net, account, mailbox}
use smtp_auth_proxy.Smtp.Headers.{Textproto, Message, HeaderEdit}
use smtp_auth_proxy.Smtp.Session.{
  Libraries, Config, Identity, Conn, Session, Reader, ended, step, eof,
}

-- A header is its block, every message is from the printer, and names are canonical as they are.
abbrev pub tiny_text : Textproto
tiny_text = record {
  Header = Str;
  read_header = λ block. some block;
  get = λ header key. if str_eq key (codes "From") then codes "p@other" else [];
  canonical = λ key. key;
  range = λ entries. entries;
}

abbrev pub libraries : Libraries
libraries = record { mail = plain_mail; text = tiny_text; net = tiny_net }

abbrev pub config : Config
config = record {
  allow_insecure_auth = false;
  require_tls = true;
  max_auth_failures = 3;
  max_recipients = 2;
  max_message_bytes = 1000;
  record_subjects = true;
  hostname = codes "proxy";
  user_agent = codes "proxy/1";
}

abbrev pub identity : Identity
identity = record {
  account_id = codes "acc";
  username = codes "printer";
  account = account;
  mailboxes = mailbox ∷ [];
}

abbrev pub conn : Conn libraries
conn = record { remote_ip = some 7; encrypted = true; helo = codes "mfp" }

abbrev pub session : Session libraries
session = record {
  identity = some identity;
  auth_failures = 0;
  closed = false;
  envelope_from = empty;
  recipients = codes "to@x" ∷ [];
}

abbrev pub raw : Str
raw = codes "A: b" ++ (13 ∷ 10 ∷ 13 ∷ 10 ∷ codes "hi")

-- One read gives the whole message with the end of the file.
abbrev pub reader : Reader
reader = step (λ _. raw) (λ _. eof) (λ _. ended)

abbrev pub message : Message tiny_text
message = record { raw = raw; header_end = 8; header = codes "A: b" }

abbrev pub edits : List HeaderEdit
edits =
    (let e : HeaderEdit = record { key = codes "Received"; value = codes "x"; prepend = true } in e)
    ∷ (let e : HeaderEdit = record {
      key = codes "A";
      value = 99 ∷ 10 ∷ 10 ∷ [];
      prepend = false;
    } in
        e)
    ∷ []

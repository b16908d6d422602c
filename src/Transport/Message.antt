-- ===== src/Transport/Message.antt =====
-- One delivery attempt's worth of state: `Message` of internal/transport/transport.go.
use smtp_auth_proxy.Prelude.{List}
use smtp_auth_proxy.Strings.{Str}
use smtp_auth_proxy.Store.Models.{Mailbox}

-- The credential goes by its id.
pub record Outgoing : Type 0 where
  pub id : Str
  pub mailbox : Mailbox
  pub credential : Str
  pub recipients : List Str
  pub raw : Str

unfoldable pub envelope_from : Outgoing → Str
envelope_from m = m.mailbox.address

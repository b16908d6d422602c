-- ===== src/Transport.antt =====
-- Delivery failures and their classification: internal/transport/transport.go.
pub mod Message
use smtp_auth_proxy.Prelude.{ℕ, Bool, true, false, ◌∷◌, ◌++◌, []}
use smtp_auth_proxy.Strings.{Str, codes, trim_space}
use smtp_auth_proxy.Store.Models.{Failure}

-- `Error`; the cause that it wraps is kept for logs only and is left out.
pub record Error : Type 0 where
  pub code : Str
  pub message : Str
  pub permanent : Bool
  pub retry_after : ℕ
  pub auth : Bool

-- What `Send` returns: an error with an `*Error` in its chain, which `errors.As` finds, or another,
-- given by its text.
pub data SendError : Type 0 where
  classified : Error → SendError
  plain : Str → SendError

unfoldable pub is_permanent : SendError → Bool
is_permanent (classified e) = e.permanent
is_permanent (plain text) = false

unfoldable pub retry_after : SendError → ℕ
retry_after (classified e) = e.retry_after
retry_after (plain text) = 0

unfoldable pub as_failure : SendError → Failure
as_failure (classified e) = record { code = e.code; message = e.message; permanent = e.permanent }
as_failure (plain text) = record { code = []; message = text; permanent = false }

unfoldable pub new_permanent : Str → Str → SendError
new_permanent code message =
    classified
      (record { code = code; message = message; permanent = true; retry_after = 0; auth = false })

unfoldable pub new_transient : Str → Str → SendError
new_transient code message =
    classified
      (record { code = code; message = message; permanent = false; retry_after = 0; auth = false })

unfoldable pub new_throttled : Str → Str → ℕ → SendError
new_throttled code message delay = classified (record {
  code = code;
  message = message;
  permanent = false;
  retry_after = delay;
  auth = false;
})

-- `authFailureHint`; its dash is three bytes of UTF-8.
abbrev auth_failure_hint : Str
auth_failure_hint =
    32
    ∷ 226
    ∷ 128
    ∷ 148
    ∷ (codes " check that admin consent was granted for SMTP.SendAsApp, "
        ++ (codes "that New-ServicePrincipal used the Object ID from Enterprise applications, "
            ++ codes "and that Add-MailboxPermission was run for this mailbox"))

unfoldable pub new_auth_failure : Str → Str → SendError
new_auth_failure code message = classified (record {
  code = code;
  message = trim_space message ++ auth_failure_hint;
  permanent = false;
  retry_after = 0;
  auth = true;
})

unfoldable pub is_auth_failure : SendError → Bool
is_auth_failure (classified e) = e.auth
is_auth_failure (plain text) = false

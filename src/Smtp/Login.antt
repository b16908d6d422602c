-- ===== src/Smtp/Login.antt =====
-- The AUTH LOGIN exchange: internal/smtpsrv/sasl_login.go.
use smtp_auth_proxy.Prelude.{
  ℕ, ◌≤◌, ◌≡◌, refl, ◌⊎◌, Bool, false, Option, none, some, List, ◌∷◌, arith, ltb, if◌then◌else◌,
  if_cases, length, All, [],
}
use smtp_auth_proxy.Strings.{Str, codes}

pub data LoginState : Type 0 where
  username password done : LoginState

abbrev pub max_field_len : ℕ
max_field_len = 1024

-- `attempts` is what the exchange has handed to its authenticator, the last attempt first; the
-- authenticator's answer comes with each response.
pub record LoginServer : Type 0 where
  pub state : LoginState
  pub name : Str
  pub attempts : List (Str × Str)

-- The results of `Next`: a challenge, the end of the exchange with the authenticator's answer, or
-- an error.
pub data Step : Type 0 where
  challenge : Str → Step
  authenticated refused too_long finished : Step

unfoldable pub new_login_server : LoginServer
new_login_server = record { state = username; name = []; attempts = [] }

unfoldable pub too_long_response : Option Str → Bool
too_long_response none = false
too_long_response (some r) = ltb max_field_len (length r)

unfoldable pub bytes_of : Option Str → Str
bytes_of none = []
bytes_of (some r) = r

-- `none` is a nil response; `accepts` is the authenticator.
unfoldable pub next_in :
    LoginState → (Str → Str → Bool) → LoginServer → Option Str → LoginServer × Step
unfolding too_long_response bytes_of
next_in username accepts s none = (s, challenge (codes "Username:"))
next_in username accepts s (some r) =
    if ltb max_field_len (length r)
    then (record s { state = done }, too_long)
    else (record s { name = r; state = password }, challenge (codes "Password:"))
next_in password accepts s response =
    let given = bytes_of response in
    if too_long_response response then (record s { state = done }, too_long) else (
      record s { state = done; attempts = (s.name, given) ∷ s.attempts },
      if accepts s.name given then authenticated else refused,
    )
next_in done accepts s response = (s, finished)

unfoldable pub next : (Str → Str → Bool) → LoginServer → Option Str → LoginServer × Step
unfolding next_in
next accepts s response = next_in s.state accepts s response

unfoldable pub exchange : (Str → Str → Bool) → LoginServer → List (Option Str) → LoginServer
unfolding next
exchange accepts s [] = s
exchange accepts s (r ∷ responses) = exchange accepts (next accepts s r).0 responses

Fits : Str × Str → Type 0
Fits (user, pass) = (length user ≤ max_field_len) × (length pass ≤ max_field_len)

-- The authenticator was asked once at most, and not before the end, with fields within the bound.
-- The name that waits for its password is within the bound.
pub IsBounded : LoginServer → Type 0
unfolding Fits
IsBounded s =
    (length s.name ≤ max_field_len)
    × ((s.state ≡ done) ⊎ (s.attempts ≡ []))
    × (length s.attempts ≤ 1)
    × All Fits s.attempts

next_in-IsBounded :
    (state : LoginState) (accepts : Str → Str → Bool) (s : LoginServer) (response : Option Str)
    → s.state ≡ state
    → IsBounded s
    → IsBounded (next_in state accepts s response).0
unfolding next_in too_long_response bytes_of IsBounded Fits
next_in-IsBounded username accepts s none e h = h
next_in-IsBounded username accepts s (some r) e h =
    if_cases (λ (o : LoginServer × Step). IsBounded o.0) (ltb max_field_len (length r))
      (λ _. ground arith) (λ short. ground arith)
next_in-IsBounded password accepts s none e h = ground arith
next_in-IsBounded password accepts s (some r) e h =
    if_cases (λ (o : LoginServer × Step). IsBounded o.0) (ltb max_field_len (length r))
      (λ _. ground arith) (λ short. ground arith)
next_in-IsBounded done accepts s response e h = h

next-IsBounded :
    (accepts : Str → Str → Bool) (s : LoginServer) (response : Option Str)
    → IsBounded s
    → IsBounded (next accepts s response).0
unfolding next
next-IsBounded accepts s response h = next_in-IsBounded s.state accepts s response refl h

exchange_from-IsBounded :
    (accepts : Str → Str → Bool) (s : LoginServer) (responses : List (Option Str))
    → IsBounded s
    → IsBounded (exchange accepts s responses)
unfolding exchange
exchange_from-IsBounded accepts s [] h = h
exchange_from-IsBounded accepts s (r ∷ responses) h =
    exchange_from-IsBounded accepts (next accepts s r).0 responses (next-IsBounded accepts s r h)

-- Whatever the client sends, the AUTH LOGIN exchange asks the authenticator once at most, when it
-- ends, and with a user name and a password of at most 1024 bytes each.
pub exchange-IsBounded :
    (accepts : Str → Str → Bool) (responses : List (Option Str))
    → IsBounded (exchange accepts new_login_server responses)
unfolding new_login_server IsBounded
exchange-IsBounded accepts responses =
    exchange_from-IsBounded accepts new_login_server responses (ground arith)

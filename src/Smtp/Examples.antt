-- ===== src/Smtp/Examples.antt =====
-- The theorems about the submission server at concrete inputs.
use smtp_auth_proxy.Prelude.{
  ◌≤◌, ◌≡◌, true, none, some, ◌∷◌, arith, length, drop, refl, false, not, ◌++◌, ltb, get_or, All,
  [],
}
use smtp_auth_proxy.Strings.{Str, codes, str_eq, contains_byte, cut, trim_right}
use smtp_auth_proxy.Smtp.Headers.{
  find_header_end, rewrite_headers, block, body, header_line, field, prepended,
}
use smtp_auth_proxy.Smtp.Headers.Body.{rewrite_headers-body}
use smtp_auth_proxy.Smtp.Limits.{
  ConnLimiter, new_conn_limiter, acquire, release, count, set, Reachable, start, arrives, ends,
  IsWithin, Reachable-IsWithin,
}
use smtp_auth_proxy.Smtp.Login.{exchange, new_login_server, IsBounded, exchange-IsBounded}
use smtp_auth_proxy.Smtp.Fixtures.{tiny_text, message, edits}
use smtp_auth_proxy.Store.Rows.{any}
use smtp_auth_proxy.Policy.Fixtures.{tiny_net}
use smtp_auth_proxy.Smtp.Proxy.{Addresses, TcpAddr, eof, trusts, handshake}
use smtp_auth_proxy.Smtp.Proxy.Trust.{IsByte, handshake_vouched}

has_line : 1 ≤ length (block tiny_text message edits)
unfolding block prepended header_line field
has_line = omega arith

-- The edits put a line on top and replace a field, whose new value has two newlines.
rewrite_headers-body_example :
    elim (find_header_end (rewrite_headers tiny_text message edits)) [
      | none ↦ none
      | some end ↦ some (drop end (rewrite_headers tiny_text message edits))
    ]
    ≡ some (body tiny_text message)
unfolding contains_byte
rewrite_headers-body_example =
    rewrite_headers-body tiny_text (λ k h. h) (λ entries h. h) message edits (ground arith) has_line

-- Two connections of one device and one of another, of which one ends.
abbrev one_left : ConnLimiter
one_left =
    release
      (acquire (acquire (acquire (new_conn_limiter 2 5) (codes "a")).0 (codes "a")).0 (codes "b")).0
      (codes "a")

one_left-Reachable : Reachable 2 5 one_left
unfolding acquire count set str_eq new_conn_limiter
one_left-Reachable =
    ends _ (codes "a") (arrives _ (codes "b") (arrives _ (codes "a") (arrives _ (codes "a") start)))
      (omega arith)

Reachable-IsWithin_example : IsWithin one_left
Reachable-IsWithin_example = Reachable-IsWithin 2 5 one_left one_left-Reachable

exchange-IsBounded_example : IsBounded (
    exchange
      (λ u p. true)
      new_login_server
      (none ∷ some (codes "printer") ∷ some (codes "secret") ∷ some (codes "again") ∷ []))
exchange-IsBounded_example =
    exchange-IsBounded (λ u p. true)
      (none ∷ some (codes "printer") ∷ some (codes "secret") ∷ some (codes "again") ∷ [])

-- The first byte of an address stands for it, in a network of one.
abbrev first_byte : Addresses tiny_net
first_byte = record { parse_ip = λ s. some (get_or s 0 0); ip_of = λ s. get_or s 0 0 }

bytes_lem : (s : Str) → any (λ b. not (ltb b 256)) s ≡ false → All IsByte s
unfolding any
bytes_lem [] h = tt
bytes_lem (x ∷ s) h = (ground arith, bytes_lem s (ground arith))

abbrev client : TcpAddr tiny_net first_byte
client = record { ip = b'a'; port = 65 }

abbrev v1_line : Str
v1_line = codes "PROXY TCP4 a b 65 25" ++ 13 ∷ 10 ∷ 81 ∷ []

handshake_vouched_example :
    (trusts tiny_net first_byte (7 ∷ []) (some 7) ≡ true) × (client.port ≤ 65535)
unfolding handshake cut trim_right str_eq any
handshake_vouched_example =
    handshake_vouched tiny_net first_byte (7 ∷ []) (some 7) v1_line (81 ∷ []) eof client
      (bytes_lem v1_line refl) refl

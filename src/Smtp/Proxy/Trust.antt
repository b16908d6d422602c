-- ===== src/Smtp/Proxy/Trust.antt =====
-- Whose address a connection reports: internal/smtpsrv/proxyproto.go.
use smtp_auth_proxy.Prelude.{
  ℕ, option_cases, zero, suc, ◌+◌, ◌*◌, ◌/◌, ◌%◌, ◌≤◌, ◌<◌, ◌≡◌, subst, true, false, not, ◌&&◌,
  ◌||◌, Option, none, some, List, ◌∷◌, ◌++◌, arith, ltb, ◌==◌, if◌then◌else◌, if_cases, length,
  get_or, take, drop, All, [],
}
use smtp_auth_proxy.Strings.{number, Str, str_eq, codes, cut}
use smtp_auth_proxy.Policy.Source.{Net}
use smtp_auth_proxy.Smtp.Proxy.{
  End, eof, failed, Addresses, TcpAddr, Parsed, parsed, refused, uint16, split_fields, parse_port,
  trusts, v1_source, parse_proxy_v1, v2_source, parse_proxy_v2, has_v1, has_v2, handshake,
  proxy_v2_sig, proxy_v2_header_len, proxy_v1_max_len,
}

abbrev pub IsByte : ℕ → Type 0
IsByte b = b < 256

get_or-IsByte : (s : Str) (at : ℕ) → All IsByte s → get_or s at 0 < 256
get_or-IsByte [] at h = omega arith
get_or-IsByte (x ∷ s) zero h = h.0
get_or-IsByte (x ∷ s) (suc at) h = get_or-IsByte s at h.1

take-IsByte : (n : ℕ) (s : Str) → All IsByte s → All IsByte (take n s)
take-IsByte zero s h = tt
take-IsByte (suc n) [] h = tt
take-IsByte (suc n) (x ∷ s) h = (h.0, take-IsByte n s h.1)

drop-IsByte : (n : ℕ) (s : Str) → All IsByte s → All IsByte (drop n s)
drop-IsByte zero s h = h
drop-IsByte (suc n) [] h = tt
drop-IsByte (suc n) (x ∷ s) h = drop-IsByte n s h.1

uint16-le : (s : Str) (at : ℕ) → All IsByte s → uint16 s at ≤ 65535
unfolding uint16
uint16-le s at h = omega (arith, get_or-IsByte s at h, get_or-IsByte s (at + 1) h)

abbrev Port : Option ℕ → Type 0
Port none = Unit
Port (some n) = n ≤ 65535

parse_port-Port : (s : Str) → Port (parse_port s)
unfolding parse_port
parse_port-Port [] = tt
parse_port-Port (c ∷ s) =
    option_cases Port (if c == b'+' || c == b'-' then number s else number (c ∷ s)) (λ _. tt)
      (λ n _. if_cases Port (ltb 65535 n || c == b'-' && ltb 0 n) (λ _. tt) (λ e. ground arith))

parse_port-le : (s : Str) (n : ℕ) → parse_port s ≡ some n → n ≤ 65535
parse_port-le s n h = subst Port h (parse_port-Port s)

-- The header that a proxy sends for a client over IPv4.
abbrev pub v2_header : (src dst : Str) (from to : ℕ) → Str
v2_header src dst from to =
    proxy_v2_sig
    ++ 33 ∷ 17 ∷ 0 ∷ 12 ∷ src
    ++ dst
    ++ from / 256 ∷ from % 256 ∷ to / 256 ∷ to % 256 ∷ []

module _ (net : Net) (addresses : Addresses net) where
  abbrev IsBounded : Parsed net addresses → Type 0
  IsBounded (parsed none rest) = Unit
  IsBounded (parsed (some a) rest) = a.port ≤ 65535
  IsBounded (refused e) = Unit

  v1-IsBounded : (fields : List Str) (rest : Str) → IsBounded (v1_source net addresses fields rest)
  unfolding v1_source
  v1-IsBounded fields rest =
      if_cases IsBounded (ltb 1 (length fields) && str_eq (get_or fields 1 []) (codes "UNKNOWN"))
        (λ _. tt)
        (λ _.
          if_cases IsBounded
            (not (length fields == 6) || not (str_eq (get_or fields 0 []) (codes "PROXY")))
            (λ _. tt)
            (λ _.
              option_cases IsBounded (addresses.parse_ip (get_or fields 2 [])) (λ _. tt)
                (λ ip _.
                  option_cases IsBounded (parse_port (get_or fields 4 [])) (λ _. tt)
                    (λ port e. parse_port-le (get_or fields 4 []) port e))))

  parse_v1-IsBounded : (input : Str) → IsBounded (parse_proxy_v1 net addresses input)
  unfolding parse_proxy_v1
  parse_v1-IsBounded input =
      option_cases IsBounded (cut input 10) (λ _. tt)
        (λ p _.
          if_cases IsBounded (ltb proxy_v1_max_len (length p.0 + 1)) (λ _. tt)
            (λ _. v1-IsBounded (split_fields (p.0 ++ 10 ∷ [])) p.1))

  v2-IsBounded :
      (command family : ℕ) (body rest : Str)
      → All IsByte body
      → IsBounded (v2_source net addresses command family body rest)
  unfolding v2_source
  v2-IsBounded command family body rest h =
      if_cases IsBounded (command == 0) (λ _. tt)
        (λ _.
          if_cases IsBounded (not (command == 1)) (λ _. tt)
            (λ _.
              if_cases IsBounded (family == 17 || family == 18)
                (λ _. if_cases IsBounded (ltb (length body) 12) (λ _. tt) (λ _. uint16-le body 8 h))
                (λ _.
                  if_cases IsBounded (family == 33 || family == 34)
                    (λ _.
                      if_cases IsBounded (ltb (length body) 36) (λ _. tt)
                        (λ _. uint16-le body 32 h))
                    (λ _. if_cases IsBounded (family == 0) (λ _. tt) (λ _. tt)))))

  parse_v2-IsBounded :
      (input : Str) → All IsByte input → IsBounded (parse_proxy_v2 net addresses input)
  unfolding parse_proxy_v2
  parse_v2-IsBounded input h =
      let header = take proxy_v2_header_len input in
      let later = drop proxy_v2_header_len input in
      if_cases IsBounded (ltb (length input) proxy_v2_header_len) (λ _. tt)
        (λ _.
          if_cases IsBounded (not (get_or header 12 0 / 16 == 2)) (λ _. tt)
            (λ _.
              if_cases IsBounded (ltb (length later) (uint16 header 14)) (λ _. tt)
                (λ _.
                  v2-IsBounded (get_or header 12 0 % 16) (get_or header 13 0)
                    (take (uint16 header 14) later) (drop (uint16 header 14) later)
                    (take-IsByte (uint16 header 14) later
                      (drop-IsByte proxy_v2_header_len input h)))))

  -- What the handshake lets through.
  Vouched : List net.Network → Option net.Ip → Parsed net addresses → Type 0
  Vouched networks peer (parsed none rest) = Unit
  Vouched networks peer (parsed (some a) rest) =
      (trusts net addresses networks peer ≡ true) × (a.port ≤ 65535)
  Vouched networks peer (refused e) = Unit

  bounded-Vouched :
      (networks : List net.Network) (peer : Option net.Ip) (r : Parsed net addresses)
      → trusts net addresses networks peer ≡ true
      → IsBounded r
      → Vouched networks peer r
  unfolding Vouched
  bounded-Vouched networks peer (parsed none rest) t b = tt
  bounded-Vouched networks peer (parsed (some a) rest) t b = (t, b)
  bounded-Vouched networks peer (refused e) t b = tt

  handshake-Vouched :
      (networks : List net.Network) (peer : Option net.Ip) (input : Str) (end : End)
      → All IsByte input
      → Vouched networks peer (handshake net addresses networks peer input end)
  unfolding handshake Vouched
  handshake-Vouched networks peer input end h =
      let peeked = take (length proxy_v2_sig) input in
      let P : Parsed net addresses → Type 0 = Vouched networks peer in
      if_cases P
        (ltb (length peeked) (length proxy_v2_sig) && elim end [ eof ↦ false | failed ↦ true ])
        (λ _. tt)
        (λ _.
          if_cases P (not (has_v1 peeked) && not (has_v2 peeked)) (λ _. tt)
            (λ _.
              if_cases P (not (trusts net addresses networks peer)) (λ _. tt)
                (λ t.
                  if_cases P (has_v1 peeked)
                    (λ _.
                      bounded-Vouched networks peer (parse_proxy_v1 net addresses input)
                        (ground arith) (parse_v1-IsBounded input))
                    (λ _.
                      bounded-Vouched networks peer (parse_proxy_v2 net addresses input)
                        (ground arith) (parse_v2-IsBounded input h)))))

  -- When the handshake on a connection that sends bytes reports an address other than the peer's,
  -- the peer lies in a trusted network, and the reported port is at most 65535.
  pub handshake_vouched :
      (networks : List net.Network) (peer : Option net.Ip) (input rest : Str) (end : End)
      (a : TcpAddr net addresses)
      → All IsByte input
      → handshake net addresses networks peer input end ≡ parsed (some a) rest
      → (trusts net addresses networks peer ≡ true) × (a.port ≤ 65535)
  unfolding Vouched
  handshake_vouched networks peer input rest end a h e =
      subst (Vouched networks peer) e (handshake-Vouched networks peer input end h)

  -- From a trusted peer, the binary header for a TCP connection over IPv4 is read back: the
  -- handshake reports the source's four bytes and its port, and leaves exactly the bytes that
  -- follow the header.
  pub handshake-v2_header :
      (networks : List net.Network) (peer : Option net.Ip) (a b c d e f g h from to : ℕ)
      (rest : Str) (end : End)
      → trusts net addresses networks peer ≡ true
      → handshake net addresses networks peer
          (v2_header (a ∷ b ∷ c ∷ d ∷ []) (e ∷ f ∷ g ∷ h ∷ []) from to ++ rest)
          end
        ≡ parsed (some (record { ip = addresses.ip_of (a ∷ b ∷ c ∷ d ∷ []); port = from })) rest
  unfolding handshake parse_proxy_v2 v2_source uint16 str_eq
  handshake-v2_header networks peer a b c d e f g h from to rest end t =
      let whole : 256 * (from / 256) + from % 256 ≡ from = omega arith in
      rw (t, whole) (ground arith)

-- ===== src/Smtp/Proxy.antt =====
-- The PROXY protocol: internal/smtpsrv/proxyproto.go. A connection is the bytes that it sends and how
-- they end; the deadline is one way to end.
pub mod Trust
use smtp_auth_proxy.Prelude.{
  ℕ, ◌+◌, ◌*◌, ◌/◌, ◌%◌, ◌⊎◌, inl, inr, Bool, true, false, not, ◌&&◌, ◌||◌, Option, none, some,
  List, ◌∷◌, ◌++◌, ltb, leb, ◌==◌, if◌then◌else◌, length, get_or, take, drop, [],
}
use smtp_auth_proxy.Strings.{number, Str, str_eq, codes, cut, trim_right}
use smtp_auth_proxy.Policy.Source.{Net}

pub data End : Type 0 where
  eof failed : End

pub data ProxyError : Type 0 where
  untrusted malformed read_failed no_trusted_network invalid_network : ProxyError

abbrev pub proxy_v1_prefix : Str
proxy_v1_prefix = codes "PROXY "

abbrev pub proxy_v2_sig : Str
proxy_v2_sig = 13 ∷ 10 ∷ 13 ∷ 10 ∷ 0 ∷ 13 ∷ 10 ∷ 81 ∷ 85 ∷ 73 ∷ 84 ∷ 10 ∷ []

abbrev pub proxy_v1_max_len : ℕ
proxy_v1_max_len = 107

abbrev pub proxy_v2_header_len : ℕ
proxy_v2_header_len = 16

-- binary.BigEndian.Uint16 of two bytes at an offset.
unfoldable pub uint16 : Str → ℕ → ℕ
uint16 s at = 256 * get_or s at 0 + get_or s (at + 1) 0

-- The loop of `splitFields`, with the field that it is in.
unfoldable pub fields_from : Str → Str → List Str
fields_from [] field = if length field == 0 then [] else field ∷ []
fields_from (c ∷ s) field =
    let fresh = fields_from s [] in
    let longer = fields_from s (field ++ c ∷ []) in
    if c == 32 then (if length field == 0 then fresh else field ∷ fresh) else longer

unfoldable pub split_fields : Str → List Str
unfolding fields_from
split_fields line = fields_from (trim_right (λ c. c == 13 || c == 10) line) []

-- strconv.Atoi and the bounds of the port; Atoi fails on what overflows, which the bounds refuse.
unfoldable pub parse_port : Str → Option ℕ
unfolding number
parse_port [] = none
parse_port (c ∷ s) =
    let value = if c == b'+' || c == b'-' then number s else number (c ∷ s) in
    elim value [
      | none ↦ none
      | some n ↦ if ltb 65535 n || c == b'-' && ltb 0 n then none else some n
    ]

unfoldable pub has_v1 : Str → Bool
has_v1 peeked =
    leb (length proxy_v1_prefix) (length peeked)
    && str_eq (take (length proxy_v1_prefix) peeked) proxy_v1_prefix

unfoldable pub has_v2 : Str → Bool
has_v2 peeked = leb (length proxy_v2_sig) (length peeked) && str_eq peeked proxy_v2_sig

-- `net.ParseIP`, and `net.IP` of four or sixteen bytes.
pub record Addresses (net : Net) : Type 0 where
  pub parse_ip : Str → Option net.Ip
  pub ip_of : Str → net.Ip

module _ (net : Net) (addresses : Addresses net) where
  pub record TcpAddr : Type 0 where
    pub ip : net.Ip
    pub port : ℕ

  -- `none` in `parsed` is the nil address; `rest` is what is left to read.
  pub data Parsed : Type 0 where
    parsed : Option TcpAddr → Str → Parsed
    refused : ProxyError → Parsed

  unfoldable pub trusted_networks : List Str → Option (List net.Network)
  trusted_networks [] = some []
  trusted_networks (c ∷ rest) =
      let later = trusted_networks rest in
      elim (net.parse_cidr c) [
        | none ↦ none
        | some n ↦ elim later [ none ↦ none | some ns ↦ some (n ∷ ns) ]
      ]

  -- `newProxyHandshake`
  unfoldable pub new_proxy_handshake : List Str → ProxyError ⊎ List net.Network
  unfolding trusted_networks
  new_proxy_handshake cidrs = elim (trusted_networks cidrs) [
    | none ↦ inl invalid_network
    | some [] ↦ inl no_trusted_network
    | some (n ∷ ns) ↦ inr (n ∷ ns)
  ]

  -- The peer's address, if it has one.
  unfoldable pub trusts : List net.Network → Option net.Ip → Bool
  trusts networks none = false
  trusts [] (some ip) = false
  trusts (n ∷ rest) (some ip) = net.contains n ip || trusts rest (some ip)

  unfoldable pub v1_source : List Str → Str → Parsed
  unfolding parse_port
  v1_source fields rest =
      if ltb 1 (length fields) && str_eq (get_or fields 1 []) (codes "UNKNOWN")
      then parsed none rest
      else if not (length fields == 6) || not (str_eq (get_or fields 0 []) (codes "PROXY"))
      then refused malformed
      else elim (addresses.parse_ip (get_or fields 2 [])) [
        | none ↦ refused malformed
        | some ip ↦ elim (parse_port (get_or fields 4 [])) [
          | none ↦ refused malformed
          | some port ↦ parsed (some (record { ip = ip; port = port })) rest
        ]
      ]

  unfoldable pub parse_proxy_v1 : Str → Parsed
  unfolding split_fields v1_source
  parse_proxy_v1 input = elim (cut input 10) [
    | none ↦ refused malformed
    | some (line, rest) ↦
        if ltb proxy_v1_max_len (length line + 1)
        then refused malformed
        else v1_source (split_fields (line ++ 10 ∷ [])) rest
  ]

  abbrev pub source_at : Str → ℕ → ℕ → Str → Parsed
  source_at body size port_at rest =
      parsed (some (record { ip = addresses.ip_of (take size body); port = uint16 body port_at }))
        rest

  -- The end of `parseProxyV2`.
  unfoldable pub v2_source : ℕ → ℕ → Str → Str → Parsed
  unfolding uint16
  v2_source command family body rest =
      if command == 0
      then parsed none rest
      else if not (command == 1)
      then refused malformed
      else if family == 17 || family == 18
      then (if ltb (length body) 12 then refused malformed else source_at body 4 8 rest)
      else if family == 33 || family == 34
      then (if ltb (length body) 36 then refused malformed else source_at body 16 32 rest)
      else if family == 0
      then parsed none rest
      else refused malformed

  unfoldable pub parse_proxy_v2 : Str → Parsed
  unfolding uint16 v2_source
  parse_proxy_v2 input =
      let header = take proxy_v2_header_len input in
      let later = drop proxy_v2_header_len input in
      let size = uint16 header 14 in
      if ltb (length input) proxy_v2_header_len
      then refused malformed
      else if not (get_or header 12 0 / 16 == 2)
      then refused malformed
      else if ltb (length later) size
      then refused malformed
      else v2_source (get_or header 12 0 % 16) (get_or header 13 0) (take size later)
          (drop size later)

  -- `handshake`, with the peer's address.
  unfoldable pub handshake : List net.Network → Option net.Ip → Str → End → Parsed
  unfolding trusts parse_proxy_v1 parse_proxy_v2 has_v1 has_v2
  handshake networks peer input end =
      let peeked = take (length proxy_v2_sig) input in
      if ltb (length peeked) (length proxy_v2_sig) && elim end [ eof ↦ false | failed ↦ true ]
      then refused read_failed
      else if not (has_v1 peeked) && not (has_v2 peeked)
      then parsed none input
      else if not (trusts networks peer)
      then refused untrusted
      else if has_v1 peeked
      then parse_proxy_v1 input
      else parse_proxy_v2 input

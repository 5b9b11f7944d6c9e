-- ===== src/Relay/Feature/RoundTrip.antt =====
-- Each decoder of relay.js reads what its encoder writes.
use wisper.Prelude.{
  ℕ, ◌%◌, ◌≤◌, ◌<◌, ◌≡◌, refl, sym, ap, inl, inr, none, [], ◌∷◌, ◌++◌, append-nil, arith, ◌==◌,
  ==_iff, Bool-cases, length, take, length-append, take-append_left, drop-append_left, Bytes,
  u16_be, get_u16_be-u16_be,
}
use wisper.Prelude.Text.{Text, TextCodec}
use wisper.Relay.Ip.{parse_ipv4, parse_ipv6}
use wisper.Relay.Feature.{
  addr_domain, decode_password, encode_user_auth, decode_user_auth, encode_addr, decode_addr,
  encode_tunnel, decode_tunnel, encode_network, decode_network,
}
use wisper.Relay.Feature.Limits.{encode_addr_limits}
use wisper.Relay.Result.{ok}

-- Every network id of 16 bits is read back.
pub decode_network-encode_network : (n : ℕ) → n < 65536 → decode_network (encode_network n) ≡ ok n
unfolding decode_network encode_network
decode_network-encode_network n h = ap ok (omega arith)

take-length : (b : Bytes) → take (length b) b ≡ b
take-length b = rw append-nil at (take-append_left b [])

-- An id of 20 bytes is written and read unchanged, and any other length is refused.
pub decode_tunnel-encode_tunnel :
    (id raw : Bytes) → encode_tunnel id ≡ ok raw → (raw ≡ id) × (decode_tunnel raw ≡ ok id)
unfolding decode_tunnel encode_tunnel
decode_tunnel-encode_tunnel id raw e = elim (Bool-cases (length id == 20)) [
  | inl fits ↦
      let size : length id ≡ 20 = (==_iff (length id) 20).0 fits in
      let same : id ≡ raw = ground arith in
      (sym same, rw (← same, size) (ap ok (rw size at (take-length id))))
  | inr off ↦ absurd (ground arith)
]

module _ (codec : TextCodec) where
  open codec use {encode, decode, IsWellFormed, decode-encode}

  user_auth_parts :
      (username password : Text) (raw : Bytes)
      → encode_user_auth codec username password ≡ ok raw
      → (length (encode username) ≤ 255)
        × (length (encode password) ≤ 255)
        × (length (encode username)
              ∷ (encode username ++ (length (encode password) ∷ encode password))
            ≡ raw)
  unfolding encode_user_auth
  user_auth_parts username password raw e = ground arith

  decode_password-cons :
      (username password : Text)
      → IsWellFormed password
      → decode_password codec username (length (encode password) ∷ encode password)
        ≡ ok (username, password)
  unfolding decode_password
  decode_password-cons username password w =
      ground (arith, take-length (encode password), decode-encode password w)

  -- A user name and what follows it.
  decode_user_auth-cons :
      (username : Text) (plen : ℕ) (rest : Bytes)
      → IsWellFormed username
      → decode_user_auth codec (length (encode username) ∷ (encode username ++ (plen ∷ rest)))
        ≡ decode_password codec username (plen ∷ rest)
  unfolding decode_user_auth
  decode_user_auth-cons username plen rest w =
      rw
        (
          take-append_left (encode username) (plen ∷ rest),
          drop-append_left (encode username) (plen ∷ rest),
          decode-encode username w,
        )
        (ground (arith, length-append (encode username) (plen ∷ rest)))

  -- Well-formed credentials of at most 255 bytes each are read back.
  pub decode_user_auth-encode_user_auth :
      (username password : Text) (raw : Bytes)
      → IsWellFormed username
      → IsWellFormed password
      → encode_user_auth codec username password ≡ ok raw
      → decode_user_auth codec raw ≡ ok (username, password)
  decode_user_auth-encode_user_auth username password raw wu wp e =
      let (hu, hp, whole) = user_auth_parts username password raw e in
      rw
        (
          ← whole,
          decode_user_auth-cons username (length (encode password)) (encode password) wu,
          decode_password-cons username password wp,
        )
        refl

  decode_addr-domain :
      (name : Bytes) (port : ℕ) (host : Text)
      → decode name ≡ host
      → decode_addr codec (addr_domain ∷ length name ∷ (name ++ u16_be port))
        ≡ ok (host, port % 65536, addr_domain)
  unfolding decode_addr
  decode_addr-domain name port host e =
      rw (take-append_left name (u16_be port), drop-append_left name (u16_be port), e)
        (ground (arith, length-append name (u16_be port), get_u16_be-u16_be port))

  -- A host that is no IP address, well formed and of at most 252 bytes, is read back as a domain
  -- with its port modulo 2 ^ 16.
  pub decode_addr-encode_addr :
      (host : Text) (port : ℕ) (raw : Bytes)
      → IsWellFormed host
      → parse_ipv4 host ≡ none
      → parse_ipv6 host ≡ none
      → encode_addr codec host port ≡ ok raw
      → decode_addr codec raw ≡ ok (host, port % 65536, addr_domain)
  decode_addr-encode_addr host port raw w n4 n6 e =
      rw (← whole) (decode_addr-domain (encode host) port host (decode-encode host w))
    where
      whole : addr_domain ∷ length (encode host) ∷ (encode host ++ u16_be port) ≡ raw
      whole = ground (arith, encode_addr_limits codec host port n4 n6)

-- ===== src/Relay/Feature/Limits.antt =====
-- Where the encoders of relay.js refuse their input.
use wisper.Prelude.{ℕ, ◌≡◌, none, ◌∷◌, ◌++◌, arith, leb, if◌then◌else◌, length, u16_be}
use wisper.Prelude.Text.{Text, TextCodec}
use wisper.Relay.Ip.{parse_ipv4, parse_ipv6}
use wisper.Relay.Feature.{addr_domain, encode_domain, encode_addr}
use wisper.Relay.Result.{addr_too_long, range_error, ok, err}

module _ (codec : TextCodec) where
  open codec use {encode}

  encode_addr-domain :
      (host : Text) (port : ℕ)
      → parse_ipv4 host ≡ none
      → parse_ipv6 host ≡ none
      → encode_addr codec host port ≡ encode_domain codec (encode host) port
  unfolding encode_addr
  encode_addr-domain host port n4 n6 = ground arith

  -- For a host that is no IP address: up to 252 bytes it is encoded; from 253 to 255 bytes, which
  -- the protocol allows, writing the name or the port behind the buffer of 256 bytes throws a
  -- RangeError; above that it is refused as too long.
  pub encode_addr_limits :
      (host : Text) (port : ℕ)
      → parse_ipv4 host ≡ none
      → parse_ipv6 host ≡ none
      → encode_addr codec host port ≡ (
          if leb (length (encode host)) 252
          then ok (addr_domain ∷ length (encode host) ∷ (encode host ++ u16_be port))
          else if leb (length (encode host)) 255
          then err range_error
          else err addr_too_long)
  unfolding encode_domain
  encode_addr_limits host port n4 n6 = rw (encode_addr-domain host port n4 n6) (ground arith)

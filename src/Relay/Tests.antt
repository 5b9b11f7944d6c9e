-- ===== src/Relay/Tests.antt =====
-- The theorems on relay messages at concrete messages, in a codec that knows ASCII only.
use wisper.Prelude.{
  ◌%◌, ◌<◌, ◌≡◌, refl, arith, leb, if◌then◌else◌, none, List, [], ◌∷◌, ◌++◌, All, length, Bytes,
  u16_be,
}
use wisper.Prelude.Text.{to_lower, Text, TextCodec, text_eq, codes}
use wisper.Relay.Ip.{parse_ipv4, parse_ipv6}
use wisper.Relay.Feature.{
  addr_domain, encode_user_auth, encode_addr, decode_addr, encode_tunnel, decode_tunnel,
  encode_network, decode_network, encode_metadata, decode_metadata, network, network_value, tunnel,
  tunnel_value,
}
use wisper.Relay.Feature.RoundTrip.{decode_addr-encode_addr}
use wisper.Relay.Feature.Limits.{encode_addr_limits}
use wisper.Relay.Feature.Metadata.{without_proto, decode_metadata-encode_metadata}
use wisper.Relay.Message.{
  RelayRequest, version1, cmd_bind, encode_features, encode_feature, encode_payload, encode_tlv,
  decode_payload, encode_request, relay_response_from_wire,
}
use wisper.Relay.Message.RoundTrip.{Reads, relay_response_from_wire-encode_request}
use wisper.Relay.Result.{ok, err, range_error, addr_too_long}

abbrev ascii : TextCodec
ascii = record {
  encode = λ s. s;
  decode = λ s. s;
  IsWellFormed = λ s. All (λ c. c < 128) s;
  decode-encode = λ s w. refl;
  encode-ascii = λ s h. refl;
  decode-ascii = λ b h. refl;
  lower_case = to_lower;
  lower_case-ascii = λ s h. refl;
}

abbrev host : Text
host = codes "a.io"

abbrev name : Text
name = codes "me"

name-Fits : All (λ c. c < 128) name × (length name < 65536)
name-Fits = ((omega arith, (omega arith, tt)), omega arith)

host-Fits : All (λ c. c < 128) host × (length host < 65536)
host-Fits = ((omega arith, (omega arith, (omega arith, (omega arith, tt)))), omega arith)

host-domain4 : parse_ipv4 host ≡ none
unfolding parse_ipv4
host-domain4 = refl

host-domain6 : parse_ipv6 host ≡ none
unfolding parse_ipv6
host-domain6 = refl

abbrev id20 : Bytes
id20 = 1 ∷ 2 ∷ 3 ∷ 4 ∷ 5 ∷ 6 ∷ 7 ∷ 8 ∷ 9 ∷ 10 ∷ 11 ∷ 12 ∷ 13 ∷ 14 ∷ 15 ∷ 16 ∷ 17 ∷ 18 ∷ 19 ∷ 20 ∷ []

id20-encoded : encode_tunnel id20 ≡ ok id20
unfolding encode_tunnel
id20-encoded = refl

abbrev credentials : Bytes
credentials = 2 ∷ b'm' ∷ b'e' ∷ 4 ∷ b'a' ∷ b'.' ∷ b'i' ∷ b'o' ∷ []

credentials-encoded : encode_user_auth ascii name host ≡ ok credentials
unfolding encode_user_auth
credentials-encoded = refl

abbrev address : Bytes
address = 3 ∷ 4 ∷ b'a' ∷ b'.' ∷ b'i' ∷ b'o' ∷ 31 ∷ 144 ∷ []

address-encoded : encode_addr ascii host 8080 ≡ ok address
unfolding encode_addr parse_ipv4 parse_ipv6
address-encoded = refl

decode_addr-encode_addr_example : decode_addr ascii address ≡ ok (host, 8080 % 65536, addr_domain)
decode_addr-encode_addr_example =
    decode_addr-encode_addr ascii host 8080 address host-Fits.0 host-domain4 host-domain6
      address-encoded

encode_addr_limits_example : encode_addr ascii host 80 ≡ (
    if leb (length host) 252
    then ok (addr_domain ∷ length host ∷ (host ++ u16_be 80))
    else if leb (length host) 255
    then err range_error
    else err addr_too_long)
encode_addr_limits_example = encode_addr_limits ascii host 80 host-domain4 host-domain6

abbrev entries : List (Text × Text)
entries = (name, host) ∷ (host, name) ∷ []

entries-Fit :
    All
      (λ (e : Text × Text).
        (All (λ c. c < 128) e.0 × (length e.0 < 65536))
        × (All (λ c. c < 128) e.1 × (length e.1 < 65536)))
      entries
entries-Fit = ((name-Fits, host-Fits), ((host-Fits, name-Fits), tt))

decode_metadata-encode_metadata_example :
    decode_metadata ascii (encode_metadata ascii entries) ≡ ok (without_proto entries)
unfolding text_eq
decode_metadata-encode_metadata_example =
    decode_metadata-encode_metadata ascii entries entries-Fit ((refl, tt), (tt, tt)) (omega arith)

abbrev bind_request : RelayRequest
bind_request = record { cmd = cmd_bind; features = network 0 ∷ tunnel id20 ∷ [] }

abbrev bind_bytes : Bytes
bind_bytes = 1 ∷ 2 ∷ 0 ∷ 28 ∷ 4 ∷ 0 ∷ 2 ∷ 0 ∷ 0 ∷ 3 ∷ 0 ∷ 20 ∷ id20

bind_bytes-encoded : encode_request ascii bind_request ≡ ok bind_bytes
unfolding encode_request encode_tunnel encode_features encode_feature encode_payload encode_tlv
    encode_network
bind_bytes-encoded = refl

network-Reads : Reads ascii (network 0) (network_value 0)
unfolding encode_payload decode_payload decode_network encode_network
network-Reads = record { type_fits = omega arith; raw = 0 ∷ 0 ∷ []; encoded = refl; decoded = refl }

tunnel-Reads : Reads ascii (tunnel id20) (tunnel_value id20)
unfolding encode_payload decode_payload decode_tunnel encode_tunnel
tunnel-Reads = record { type_fits = omega arith; raw = id20; encoded = refl; decoded = refl }

relay_response_from_wire-encode_request_example :
    relay_response_from_wire ascii (bind_bytes ++ (b'!' ∷ []))
    ≡ ok (record {
      version = version1;
      status = cmd_bind;
      features = network_value 0 ∷ tunnel_value id20 ∷ [];
    })
relay_response_from_wire-encode_request_example =
    relay_response_from_wire-encode_request ascii bind_request
      (network_value 0 ∷ tunnel_value id20 ∷ []) bind_bytes (b'!' ∷ []) (omega arith)
      (network-Reads, (tunnel-Reads, tt)) bind_bytes-encoded

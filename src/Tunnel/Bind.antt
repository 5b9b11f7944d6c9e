-- ===== src/Tunnel/Bind.antt =====
-- The two ends of the relay handshake: `_sendBind` and `_readRelayResponse` of tunnel-connection.js.
use wisper.Prelude.{
  ℕ, zero, suc, ◌+◌, ◌-◌, ◌*◌, ◌/◌, ◌%◌, ◌^◌, ◌≤◌, ◌<◌, min, ◌≡◌, refl, sym, ap, ◌∙◌, ◌≢◌, ◌↔◌, ◌⊎◌,
  inl, inr, Bool, true, false, not, ◌&&◌, ◌||◌, Option, none, some, List, [], ◌∷◌, ◌++◌, map,
  append-nil, append_assoc, arith, ltb, leb, ◌==◌, if◌then◌else◌, ==_iff, Bool-cases, Option-cases,
  length, get_elem?, get_or, set, take, drop, All, concat, length-append, take-append-drop,
  length-take, length-drop, take-append_left, drop-append_left, take-append_le, drop-append_le,
  All-append, Bytes, IsByte, u8, u16_be, get_u16_be, u16_le, get_u16_le, u32_le, get_u32_le,
  get_u16_be-u16_be, get_u16_le-u16_le, get_u32_le-u32_le, subst, if-both,
}
use wisper.Prelude.Int.{ℤ, pos, negsuc}
use wisper.Prelude.Text.{Text, TextCodec, codes, text_eq, trim, to_lower, parse_int}
use wisper.Relay.Feature.{
  Feature, user_auth, addr, tunnel, network, metadata, Value, addr_value, feature_addr,
}
use wisper.Relay.Message.{
  RelayRequest, RelayResponse, cmd_bind, status_ok, version1, add_feature, encode_request,
  relay_response_from_wire, find_feature,
}
use wisper.Relay.Result.{Result, ok, err}
use wisper.Tunnel.Buffer.{fill}
pub mod Peer

-- `localEndpoint.lastIndexOf(':')`, as the text before the last colon and the text behind it
unfoldable pub cut_last_colon : Text → Option (Text × Text)
cut_last_colon [] = none
cut_last_colon (c ∷ cs) = elim (cut_last_colon cs) [
  | some (host, port) ↦ some (c ∷ host, port)
  | none ↦ if c == b':' then some ([], cs) else none
]

-- `parseInt(s, 10) || 80`, stored as `port & 0xffff` later; a negative port wraps round there.
unfoldable pub port_or_80 : Option ℤ → ℕ
port_or_80 none = 80
port_or_80 (some (pos zero)) = 80
port_or_80 (some (pos (suc n))) = suc n
port_or_80 (some (negsuc n)) = 65535 - n % 65536

-- The host and the port of `localEndpoint`
unfoldable pub local_address : Text → Text × ℕ
unfolding cut_last_colon port_or_80 parse_int
local_address endpoint = elim (cut_last_colon endpoint) [
  | none ↦ (endpoint, 80)
  | some (host, port) ↦ (host, port_or_80 (parse_int 10 port))
]

-- `a || b` on strings
abbrev pub or_text : Text → Text → Text
or_text [] d = d
or_text (c ∷ cs) d = c ∷ cs

-- `VALID_RECORD_MODES.has(…)`, and 'full' as '' in the protocol; `none` is undefined.
unfoldable pub record_mode : Option Text → Text
unfolding text_eq
record_mode none = codes "off"
record_mode (some m) =
    if text_eq m [] || text_eq m (codes "full")
    then []
    else if text_eq m (codes "headers")
    then codes "headers"
    else codes "off"

pub record BindConfig : Type 0 where
  pub tunnel_id : Bytes
  pub local_endpoint : Text
  pub prefix : Text
  pub mode : Option Text

-- The request that `_sendBind` makes
unfoldable pub bind_request : BindConfig → RelayRequest
unfolding add_feature local_address record_mode trim to_lower
bind_request config =
    let (host, port) = local_address config.local_endpoint in
    let bind_host = or_text (to_lower (trim config.prefix)) (codes "0.0.0.0") in
    add_feature (metadata ((codes "record.mode", record_mode config.mode) ∷ [])) (
      add_feature (network 0) (
        add_feature (addr bind_host port) (
          add_feature (addr host port) (
            add_feature (user_auth [] [])
              (add_feature (tunnel config.tunnel_id) (record { cmd = cmd_bind; features = [] }))))))

-- How `_readRelayResponse` ends.
pub data PeerResponse : Type 0 where
  peer : Option Value → Bytes → List Bytes → PeerResponse
  closed_before_response : PeerResponse
  closed_before_features : PeerResponse
  bad_version : ℕ → PeerResponse
  bad_message : PeerResponse
  bad_status : ℕ → PeerResponse

unfoldable pub check_status : Result RelayResponse → Bytes → List Bytes → PeerResponse
unfolding find_feature
check_status (err e) carry left = bad_message
check_status (ok resp) carry left =
    if resp.status == status_ok
    then peer (find_feature feature_addr resp.features) carry left
    else bad_status resp.status

module _ (codec : TextCodec) where
  -- `_sendBind()`: the message that is sent
  unfoldable pub send_bind : BindConfig → Result Bytes
  unfolding bind_request
  send_bind config = encode_request codec (bind_request config)

  -- Behind the four bytes of the header, on what was read with them
  unfoldable pub read_features : ℕ → ℕ → ℕ → ℕ → Bytes → List Bytes → PeerResponse
  unfolding check_status
  read_features version status hi lo buf cs =
      let flen = get_u16_be hi lo in
      elim (fill flen buf cs) [
        | none ↦ closed_before_features
        | some (b, left) ↦
            check_status (relay_response_from_wire codec (version ∷ status ∷ hi ∷ lo ∷ take flen b))
              (drop flen b) left
      ]

  unfoldable pub read_header : Bytes → List Bytes → PeerResponse
  unfolding read_features
  read_header (version ∷ status ∷ hi ∷ lo ∷ rest) cs =
      if not (version == version1)
      then bad_version version
      else read_features version status hi lo rest cs
  read_header _ cs = closed_before_response

  -- `_readRelayResponse(stream)`
  unfoldable pub read_relay_response : List Bytes → PeerResponse
  unfolding read_header
  read_relay_response cs = elim (fill 4 [] cs) [
    | none ↦ closed_before_response
    | some (b, left) ↦ read_header b left
  ]

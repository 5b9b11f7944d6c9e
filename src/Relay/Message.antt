-- ===== src/Relay/Message.antt =====
-- Features as type, length and value, `RelayRequest`, `relayResponseFromWire` and `findFeature`.
--   Request:  | VER(1) | CMD(1) | FEALEN(2, BE) | FEATURES(VAR) |
--   Response: | VER(1) | STATUS(1) | FEALEN(2, BE) | FEATURES(VAR) |
pub mod RoundTrip
use wisper.Prelude.{
  ℕ, zero, suc, ◌+◌, ◌-◌, ◌*◌, ◌/◌, ◌%◌, ◌^◌, ◌≤◌, ◌<◌, min, ◌≡◌, refl, sym, ap, ◌∙◌, ◌≢◌, ◌↔◌, ◌⊎◌,
  inl, inr, Bool, true, false, not, ◌&&◌, ◌||◌, Option, none, some, List, [], ◌∷◌, ◌++◌, map,
  append-nil, append_assoc, arith, ltb, leb, ◌==◌, if◌then◌else◌, ==_iff, Bool-cases, Option-cases,
  length, get_elem?, get_or, set, take, drop, All, concat, length-append, take-append-drop,
  length-take, length-drop, take-append_left, drop-append_left, take-append_le, drop-append_le,
  All-append, Bytes, IsByte, u8, u16_be, get_u16_be, u16_le, get_u16_le, u32_le, get_u32_le,
  get_u16_be-u16_be, get_u16_le-u16_le, get_u32_le-u32_le,
}
use wisper.Prelude.Text.{Text, TextCodec}
use wisper.Relay.Feature.{
  Feature, user_auth, addr, tunnel, network, metadata, opaque, Value, user_auth_value, addr_value,
  tunnel_value, network_value, metadata_value, opaque_value, feature_user_auth, feature_addr,
  feature_tunnel, feature_network, feature_metadata, encode_user_auth, decode_user_auth,
  encode_addr, decode_addr, encode_tunnel, decode_tunnel, encode_network, decode_network,
  encode_metadata, decode_metadata,
}
use wisper.Relay.Result.{
  short_buffer, features_too_long, bad_version, Result, ok, err, ◌>>=◌, ◌>>◌, throw_if,
}

abbrev pub version1 : ℕ
version1 = 1

abbrev pub cmd_bind : ℕ
cmd_bind = 2

abbrev pub status_ok : ℕ
status_ok = 0

-- `f.type` of a request's feature
abbrev pub type_of : Feature → ℕ
type_of (user_auth _ _) = feature_user_auth
type_of (addr _ _) = feature_addr
type_of (tunnel _) = feature_tunnel
type_of (network _) = feature_network
type_of (metadata _) = feature_metadata
type_of (opaque t _) = t

-- `f.type` of a decoded feature
abbrev pub type_of_value : Value → ℕ
type_of_value (user_auth_value _ _) = feature_user_auth
type_of_value (addr_value _ _ _) = feature_addr
type_of_value (tunnel_value _) = feature_tunnel
type_of_value (network_value _) = feature_network
type_of_value (metadata_value _) = feature_metadata
type_of_value (opaque_value t _) = t

-- `_encodeTLV(type, raw)`; the length is stored modulo 2 ^ 16.
unfoldable pub encode_tlv : ℕ → Bytes → Bytes
encode_tlv kind raw = u8 kind ∷ (u16_be (length raw) ++ raw)

-- `findFeature(features, type)`
unfoldable pub find_feature : ℕ → List Value → Option Value
find_feature kind [] = none
find_feature kind (v ∷ vs) = if type_of_value v == kind then some v else find_feature kind vs

pub record RelayRequest : Type 0 where
  pub cmd : ℕ
  pub features : List Feature

pub record RelayResponse : Type 0 where
  pub version : ℕ
  pub status : ℕ
  pub features : List Value

-- `addFeature(type, payload)`
unfoldable pub add_feature : Feature → RelayRequest → RelayRequest
add_feature f r = record r { features = r.features ++ (f ∷ []) }

module _ (codec : TextCodec) where
  -- `featureHandlers[type].encode`, or the raw payload
  unfoldable pub encode_payload : Feature → Result Bytes
  encode_payload (user_auth username password) = encode_user_auth codec username password
  encode_payload (addr host port) = encode_addr codec host port
  encode_payload (tunnel id) = encode_tunnel id
  encode_payload (network n) = ok (encode_network n)
  encode_payload (metadata kvs) = ok (encode_metadata codec kvs)
  encode_payload (opaque _ raw) = ok raw

  -- `encodeFeature({ type, payload })`
  unfoldable pub encode_feature : Feature → Result Bytes
  encode_feature f = do raw ← encode_payload f; ok (encode_tlv (type_of f) raw)

  -- `featureHandlers[type].decode`, or the raw payload
  unfoldable pub decode_payload : ℕ → Bytes → Result Value
  decode_payload kind raw =
      if kind == feature_user_auth
      then (do (u, p) ← decode_user_auth codec raw; ok (user_auth_value u p))
      else if kind == feature_addr
      then (do (host, port, a_type) ← decode_addr codec raw; ok (addr_value host port a_type))
      else if kind == feature_tunnel
      then (do id ← decode_tunnel raw; ok (tunnel_value id))
      else if kind == feature_network
      then (do n ← decode_network raw; ok (network_value n))
      else if kind == feature_metadata
      then (do kvs ← decode_metadata codec raw; ok (metadata_value kvs))
      else ok (opaque_value kind raw)

  -- `decodeFeature(buffer, offset)` on the bytes from `offset` on: the feature, `bytesRead`, and the
  -- bytes behind it.
  unfoldable pub decode_feature : Bytes → Result (Value × ℕ × Bytes)
  decode_feature (kind ∷ hi ∷ lo ∷ rest) =
      let len = get_u16_be hi lo in
      if ltb (length rest) len
      then err short_buffer
      else (do v ← decode_payload kind (take len rest); ok (v, 3 + len, drop len rest))
  decode_feature _ = err short_buffer

  unfoldable pub encode_features : List Feature → Result Bytes
  encode_features [] = ok []
  encode_features (f ∷ fs) = do b ← encode_feature f; bs ← encode_features fs; ok (b ++ bs)

  -- `RelayRequest.encode()`
  unfoldable pub encode_request : RelayRequest → Result Bytes
  encode_request r = do
    features ← encode_features r.features
    throw_if (ltb 0xffff (length features)) features_too_long
    ok (version1 ∷ u8 r.cmd ∷ (u16_be (length features) ++ features))

  -- The loop `while (offset < 4 + flen)` on the bytes from `offset` on; `left` is 4 + flen - offset,
  -- or 0 once a feature has ended behind it. A feature has 3 bytes at least, so `left` rounds do.
  unfoldable pub decode_features : ℕ → ℕ → Bytes → Result (List Value)
  decode_features fuel zero b = ok []
  decode_features zero (suc left) b = ok []
  decode_features (suc fuel) (suc left) b = do
    (v, read, rest) ← decode_feature b
    vs ← decode_features fuel (suc left - read) rest
    ok (v ∷ vs)

  -- `relayResponseFromWire(buffer)`
  unfoldable pub relay_response_from_wire : Bytes → Result RelayResponse
  relay_response_from_wire (version ∷ status ∷ hi ∷ lo ∷ rest) = do
    throw_if (not (version == version1)) (bad_version version)
    let flen = get_u16_be hi lo
    vs ← decode_features flen flen rest
    ok (record { version = version; status = status; features = vs })
  relay_response_from_wire _ = err short_buffer

-- ===== src/Relay/Feature.antt =====
-- The feature encoders and decoders of relay.js, and the registry that picks one by type.
pub mod RoundTrip
pub mod Metadata
pub mod Limits
use wisper.Prelude.{
  ℕ, zero, suc, ◌+◌, ◌-◌, ◌*◌, ◌/◌, ◌%◌, ◌^◌, ◌≤◌, ◌<◌, min, ◌≡◌, refl, sym, ap, ◌∙◌, ◌≢◌, ◌↔◌, ◌⊎◌,
  inl, inr, Bool, true, false, not, ◌&&◌, ◌||◌, Option, none, some, List, [], ◌∷◌, ◌++◌, map,
  append-nil, append_assoc, arith, ltb, leb, ◌==◌, if◌then◌else◌, ==_iff, Bool-cases, Option-cases,
  length, get_elem?, get_or, set, take, drop, All, concat, length-append, take-append-drop,
  length-take, length-drop, take-append_left, drop-append_left, take-append_le, drop-append_le,
  All-append, Bytes, IsByte, u8, u16_be, get_u16_be, u16_le, get_u16_le, u32_le, get_u32_le,
  get_u16_be-u16_be, get_u16_le-u16_le, get_u32_le-u32_le,
}
use wisper.Prelude.Text.{Text, TextCodec, codes, text_eq}
use wisper.Relay.Ip.{parse_ipv4, parse_ipv6, show_ipv4, show_ipv6}
use wisper.Relay.Result.{
  RelayError, username_too_long, password_too_long, addr_too_long, tunnel_id_length, short_buffer,
  range_error, bad_address_type, Result, ok, err, ◌>>=◌, ◌>>◌, throw_if,
}

abbrev pub feature_user_auth : ℕ
feature_user_auth = 1

abbrev pub feature_addr : ℕ
feature_addr = 2

abbrev pub feature_tunnel : ℕ
feature_tunnel = 3

abbrev pub feature_network : ℕ
feature_network = 4

abbrev pub feature_metadata : ℕ
feature_metadata = 5

abbrev pub addr_ipv4 : ℕ
addr_ipv4 = 1

abbrev pub addr_domain : ℕ
addr_domain = 3

abbrev pub addr_ipv6 : ℕ
addr_ipv6 = 4

-- A feature of a request: its payload is the encoder's arguments, or raw bytes for a type that the
-- registry does not have.
pub data Feature : Type 0 where
  user_auth : Text → Text → Feature
  addr : Text → ℕ → Feature
  tunnel : Bytes → Feature
  network : ℕ → Feature
  metadata : List (Text × Text) → Feature
  opaque : ℕ → Bytes → Feature

-- A feature of a response, decoded. An address keeps its type.
pub data Value : Type 0 where
  user_auth_value : Text → Text → Value
  addr_value : Text → ℕ → ℕ → Value
  tunnel_value : Bytes → Value
  network_value : ℕ → Value
  metadata_value : List (Text × Text) → Value
  opaque_value : ℕ → Bytes → Value

-- The first `n` bytes and the rest, where there are that many.
unfoldable pub take_bytes : ℕ → Bytes → Result (Bytes × Bytes)
take_bytes n b = if ltb (length b) n then err short_buffer else ok (take n b, drop n b)

-- `getUint16(off, false)` behind the check `off + 2 > data.length`
unfoldable pub take_u16 : Bytes → Result (ℕ × Bytes)
take_u16 (hi ∷ lo ∷ rest) = ok (get_u16_be hi lo, rest)
take_u16 _ = err short_buffer

-- `encodeTunnel(id20)`
unfoldable pub encode_tunnel : Bytes → Result Bytes
encode_tunnel id = if length id == 20 then ok id else err tunnel_id_length

-- `decodeTunnel(data)`
unfoldable pub decode_tunnel : Bytes → Result Bytes
decode_tunnel b = if ltb (length b) 20 then err short_buffer else ok (take 20 b)

-- `encodeNetwork(networkId)` and `decodeNetwork(data)`
unfoldable pub encode_network : ℕ → Bytes
encode_network n = u16_be n

unfoldable pub decode_network : Bytes → Result ℕ
decode_network (hi ∷ lo ∷ rest) = ok (get_u16_be hi lo)
decode_network _ = err short_buffer

unfoldable pub assign_own : Text → Text → List (Text × Text) → List (Text × Text)
unfolding text_eq
assign_own k v [] = (k, v) ∷ []
assign_own k v ((j, w) ∷ m) = if text_eq j k then (k, v) ∷ m else (j, w) ∷ assign_own k v m

-- `__proto__`: what is assigned to it on an object is no entry, and a string is dropped.
unfoldable pub is_proto : Text → Bool
unfolding text_eq
is_proto k = text_eq k (codes "__proto__")

-- Assignment `kvs[key] = val`: a key that is there keeps its place. (JavaScript would list keys that
-- are array indices first; the only key that the program sends is `record.mode`.)
unfoldable pub assign : Text → Text → List (Text × Text) → List (Text × Text)
unfolding assign_own is_proto
assign k v m = if is_proto k then m else assign_own k v m

module _ (codec : TextCodec) where
  open codec use {encode, decode}

  -- `encodeUserAuth(username, password)`; a length byte is stored modulo 2 ^ 8.
  unfoldable pub encode_user_auth : Text → Text → Result Bytes
  encode_user_auth username password = do
    let uname = encode username
    let pwd = encode password
    throw_if (ltb 255 (length uname)) username_too_long
    throw_if (ltb 255 (length pwd)) password_too_long
    ok (u8 (length uname) ∷ (uname ++ (u8 (length pwd) ∷ pwd)))

  decode_password : Text → Bytes → Result (Text × Text)
  decode_password username [] = err short_buffer
  decode_password username (plen ∷ rest) =
      if ltb (length rest) plen then err short_buffer else ok (username, decode (take plen rest))

  -- `decodeUserAuth(data)`
  unfoldable pub decode_user_auth : Bytes → Result (Text × Text)
  unfolding decode_password
  decode_user_auth [] = err short_buffer
  decode_user_auth (ulen ∷ rest) =
      if ltb (length rest) 1 || ltb (length rest) (ulen + 1)
      then err short_buffer
      else decode_password (decode (take ulen rest)) (drop ulen rest)

  -- The domain branch of `encodeAddr`. The buffer has 256 bytes: `set` of the name at offset 2 and
  -- `setUint16` behind it throw where they pass its end.
  encode_domain : Bytes → ℕ → Result Bytes
  encode_domain name port = do
    throw_if (ltb 255 (length name)) addr_too_long
    throw_if (ltb 256 (2 + length name)) range_error
    throw_if (ltb 256 (2 + length name + 2)) range_error
    ok (addr_domain ∷ u8 (length name) ∷ (name ++ u16_be port))

  -- `encodeAddr(host, port)`; `port & 0xffff` is what `u16_be` stores.
  unfoldable pub encode_addr : Text → ℕ → Result Bytes
  unfolding encode_domain
  encode_addr host port = elim (parse_ipv4 host) [
    | some ip4 ↦ ok (addr_ipv4 ∷ (ip4 ++ u16_be port))
    | none ↦ elim (parse_ipv6 host) [
      | some ip6 ↦ ok (addr_ipv6 ∷ (ip6 ++ u16_be port))
      | none ↦ encode_domain (encode host) port
    ]
  ]

  -- `{ host, port, aType }`, with the port behind the address
  abbrev with_port : ℕ → Text → Bytes → Result (Text × ℕ × ℕ)
  with_port kind host rest = do (port, _) ← take_u16 rest; ok (host, port, kind)

  decode_domain : Bytes → Result (Text × ℕ × ℕ)
  unfolding take_u16
  decode_domain [] = err short_buffer
  decode_domain (alen ∷ rest) =
      if ltb (length rest) (alen + 2)
      then err short_buffer
      else with_port addr_domain (decode (take alen rest)) (drop alen rest)

  decode_addr_as : ℕ → Bytes → Result (Text × ℕ × ℕ)
  unfolding decode_domain take_u16
  decode_addr_as kind b =
      if kind == addr_ipv4
      then (if ltb (length b) 6
          then err short_buffer
          else with_port kind (show_ipv4 (take 4 b)) (drop 4 b))
      else if kind == addr_ipv6
      then (if ltb (length b) 18
          then err short_buffer
          else with_port kind (show_ipv6 (take 16 b)) (drop 16 b))
      else if kind == addr_domain
      then decode_domain b
      else err (bad_address_type kind)

  -- `decodeAddr(data)`
  unfoldable pub decode_addr : Bytes → Result (Text × ℕ × ℕ)
  unfolding decode_addr_as
  decode_addr [] = err short_buffer
  decode_addr (kind ∷ rest) =
      if ltb (length rest) 3 then err short_buffer else decode_addr_as kind rest

  -- One entry of `encodeMetadata`; the lengths are stored modulo 2 ^ 16.
  unfoldable pub encode_entry : Text × Text → Bytes
  encode_entry (key, value) =
      u16_be (length (encode key))
      ++ (encode key ++ (u16_be (length (encode value)) ++ encode value))

  unfoldable pub encode_entries : List (Text × Text) → Bytes
  encode_entries [] = []
  encode_entries (e ∷ es) = encode_entry e ++ encode_entries es

  -- `encodeMetadata(kvs)`
  unfoldable pub encode_metadata : List (Text × Text) → Bytes
  encode_metadata kvs = u16_be (length kvs) ++ encode_entries kvs

  -- A 16-bit length and that many bytes, as the loop of `decodeMetadata` reads a key or a
  -- value.
  unfoldable pub take_text : Bytes → Result (Text × Bytes)
  unfolding take_u16 take_bytes
  take_text b = do
    (len, rest) ← take_u16 b
    (bytes, rest') ← take_bytes len rest
    ok (decode bytes, rest')

  unfoldable pub decode_entries : ℕ → Bytes → List (Text × Text) → Result (List (Text × Text))
  decode_entries zero b kvs = ok kvs
  decode_entries (suc n) b kvs = do
    (key, rest) ← take_text b
    (value, rest') ← take_text rest
    decode_entries n rest' (assign key value kvs)

  -- `decodeMetadata(data)`
  unfoldable pub decode_metadata : Bytes → Result (List (Text × Text))
  unfolding take_u16
  decode_metadata b = do (n, rest) ← take_u16 b; decode_entries n rest []

-- ===== src/Relay/Message/RoundTrip.antt =====
-- A message that was encoded decodes to its features.
use wisper.Prelude.{
  ℕ, zero, suc, ◌+◌, ◌-◌, ◌/◌, ◌%◌, ◌≤◌, ◌<◌, ◌≡◌, refl, ap, false, List, [], ◌∷◌, ◌++◌,
  append_assoc, arith, ltb, length, length-append, take-append_left, drop-append_left, Bytes,
  get_u16_be, get_u16_be-u16_be,
}
use wisper.Prelude.Text.{TextCodec}
use wisper.Relay.Feature.{Feature, Value}
use wisper.Relay.Message.{
  RelayRequest, version1, type_of, encode_tlv, encode_payload, encode_feature, decode_payload,
  decode_feature, encode_features, encode_request, decode_features, relay_response_from_wire,
}
use wisper.Relay.Result.{RelayError, ok, ◌>>◌, throw_if, bind-eq-ok}

not-ltb-add : (n k : ℕ) → ltb (n + k) n ≡ false
not-ltb-add n k = ground arith

throw_if-fits :
    (n : ℕ) (e : RelayError) {x y : Bytes}
    → (throw_if (ltb 0xffff n) e >> ok x) ≡ ok y
    → (n ≤ 0xffff) × (x ≡ y)
throw_if-fits n e h = ground arith

module _ (codec : TextCodec) where
  -- The payload of `f` is encoded, and decoded to `v`.
  pub record Reads (f : Feature) (v : Value) : Type 0 where
    pub type_fits : type_of f < 256
    pub raw : Bytes
    pub encoded : encode_payload codec f ≡ ok raw
    pub decoded : decode_payload codec (type_of f) raw ≡ ok v

  abbrev pub ReadsAll : List Feature → List Value → Type 0
  ReadsAll [] [] = Unit {0}
  ReadsAll [] (v ∷ vs) = ⊥
  ReadsAll (f ∷ fs) [] = ⊥
  ReadsAll (f ∷ fs) (v ∷ vs) = Reads f v × ReadsAll fs vs

  -- One feature, whatever follows it.
  decode_feature-encode_tlv :
      (kind : ℕ) (raw rest : Bytes) (v : Value)
      → kind < 256
      → length raw < 65536
      → decode_payload codec kind raw ≡ ok v
      → decode_feature codec (encode_tlv kind raw ++ rest) ≡ ok (v, 3 + length raw, rest)
  unfolding decode_feature encode_tlv
  decode_feature-encode_tlv kind raw rest v hk hl d =
      rw
        (
          same_length,
          length-append raw rest,
          not-ltb-add (length raw) (length rest),
          take-append_left raw rest,
          drop-append_left raw rest,
          same_kind,
          d,
        )
        refl
    where
      same_length : get_u16_be (length raw / 256 % 256) (length raw % 256) ≡ length raw
      same_length = omega (arith, get_u16_be-u16_be (length raw))

      same_kind : kind % 256 ≡ kind
      same_kind = omega arith

  -- The encoding of a list, taken apart at its first feature.
  encode_features-cons :
      (f : Feature) (fs : List Feature) {raw bytes : Bytes}
      → encode_payload codec f ≡ ok raw
      → encode_features codec (f ∷ fs) ≡ ok bytes
      → (bs : Bytes) × (encode_features codec fs ≡ ok bs)
        × (encode_tlv (type_of f) raw ++ bs ≡ bytes)
  unfolding encode_features encode_feature
  encode_features-cons f fs {raw} {bytes} e h =
      let (bs, hb, eq) =
        bind-eq-ok (encode_features codec fs) (λ bs. ok (encode_tlv (type_of f) raw ++ bs))
          (rw e at h) in
      (bs, hb, cc eq)

  length-encode_tlv : (kind : ℕ) (raw : Bytes) → length (encode_tlv kind raw) ≡ 3 + length raw
  unfolding encode_tlv
  length-encode_tlv kind raw = omega arith

  encode_features-nil : {bytes : Bytes} → encode_features codec [] ≡ ok bytes → [] ≡ bytes
  unfolding encode_features
  encode_features-nil e = cc

  decode_features-zero : (fuel : ℕ) (b : Bytes) → decode_features codec fuel 0 b ≡ ok []
  unfolding decode_features
  decode_features-zero zero b = refl
  decode_features-zero (suc fuel) b = refl

  decode_features-cons :
      (fuel left : ℕ) (b rest : Bytes) (v : Value) (vs : List Value) (n : ℕ)
      → decode_feature codec b ≡ ok (v, n, rest)
      → decode_features codec fuel (suc left - n) rest ≡ ok vs
      → decode_features codec (suc fuel) (suc left) b ≡ ok (v ∷ vs)
  unfolding decode_features
  decode_features-cons fuel left b rest v vs n e h = rw (e, h) refl

  -- The loop reads exactly the features that were written, whatever stands behind them.
  decode_features-encode_features :
      (fs : List Feature) (vs : List Value) (bytes rest : Bytes) (fuel : ℕ)
      → ReadsAll fs vs
      → encode_features codec fs ≡ ok bytes
      → length bytes < 65536
      → length bytes ≤ fuel
      → decode_features codec fuel (length bytes) (bytes ++ rest) ≡ ok vs
  decode_features-encode_features [] [] bytes rest fuel r e short enough =
      rw (← encode_features-nil e) (decode_features-zero fuel rest)
  decode_features-encode_features [] (v ∷ vs) bytes rest fuel r e short enough = absurd r
  decode_features-encode_features (f ∷ fs) [] bytes rest fuel r e short enough = absurd r
  decode_features-encode_features (f ∷ fs) (v ∷ vs) bytes rest zero (h, t) e short enough =
      let (bs, eb, split) = encode_features-cons f fs h.encoded e in
      absurd (
        omega (
          arith,
          ap length split,
          length-encode_tlv (type_of f) h.raw,
          length-append (encode_tlv (type_of f) h.raw) bs,
        ))
  decode_features-encode_features (f ∷ fs) (v ∷ vs) bytes rest (suc fuel) (h, t) e short enough =
      let (bs, eb, split) = encode_features-cons f fs h.encoded e in
      let size = length-encode_tlv (type_of f) h.raw in
      let total = length-append (encode_tlv (type_of f) h.raw) bs in
      let whole : length bytes ≡ suc (2 + length h.raw + length bs) =
        omega (arith, ap length split) in
      let left : suc (2 + length h.raw + length bs) - (3 + length h.raw) ≡ length bs =
        omega arith in
      rw (whole, ← split, append_assoc)
        (decode_features-cons fuel (2 + length h.raw + length bs) _ (bs ++ rest) v vs
          (3 + length h.raw)
          (decode_feature-encode_tlv (type_of f) h.raw (bs ++ rest) v h.type_fits (omega arith)
            h.decoded)
          (rw left
            (decode_features-encode_features fs vs bs rest fuel t eb (omega arith) (omega arith))))

  -- If every feature of a request has a payload that decodes to the value of `vs` in its place, then
  -- what the request encodes to, with any bytes behind it, is read as a message with the request's
  -- command for its status and with the values `vs`.
  pub relay_response_from_wire-encode_request :
      (r : RelayRequest) (vs : List Value) (bytes rest : Bytes)
      → r.cmd < 256
      → ReadsAll r.features vs
      → encode_request codec r ≡ ok bytes
      → relay_response_from_wire codec (bytes ++ rest)
        ≡ ok (record { version = version1; status = r.cmd; features = vs })
  unfolding relay_response_from_wire encode_request
  relay_response_from_wire-encode_request r vs bytes rest hc reads e =
      let (fs, ef, framed) = bind-eq-ok (encode_features codec r.features) _ e in
      let (short, whole) = throw_if-fits (length fs) _ framed in
      let same_length : get_u16_be (length fs / 256 % 256) (length fs % 256) ≡ length fs =
        omega (arith, get_u16_be-u16_be (length fs)) in
      let same_cmd : r.cmd % 256 ≡ r.cmd = omega arith in
      rw
        (
          ← whole,
          same_length,
          decode_features-encode_features r.features vs fs rest (length fs) reads ef (omega arith)
              (omega arith),
          same_cmd,
        )
        refl

-- ===== src/Ws/Encode.antt =====
-- `encodeWsFrame` of ws-codec.js. The random mask is an argument.
pub mod RoundTrip
use wisper.Prelude.{
  ℕ, zero, suc, ◌+◌, ◌-◌, ◌*◌, ◌/◌, ◌%◌, ◌^◌, ◌≤◌, ◌<◌, min, ◌≡◌, refl, sym, ap, ◌∙◌, ◌≢◌, ◌↔◌, ◌⊎◌,
  inl, inr, Bool, true, false, not, ◌&&◌, ◌||◌, Option, none, some, List, [], ◌∷◌, ◌++◌, map,
  append-nil, append_assoc, arith, ltb, leb, ◌==◌, if◌then◌else◌, ==_iff, Bool-cases, Option-cases,
  length, get_elem?, get_or, set, take, drop, All, concat, length-append, take-append-drop,
  length-take, length-drop, take-append_left, drop-append_left, take-append_le, drop-append_le,
  All-append, Bytes, IsByte, u8, u16_be, get_u16_be, u16_le, get_u16_le, u32_le, get_u32_le,
  get_u16_be-u16_be, get_u16_le-u16_le, get_u32_le-u32_le,
}
use Prim.Native.Nat.{bit_and, bit_or}
use wisper.Ws.Frame.{MaskKey, apply_mask}

-- `masked ? 0x80 : 0`
abbrev mask_bit : Option MaskKey → ℕ
mask_bit none = 0
mask_bit (some k) = 0x80

-- The header, in three forms by the length of the payload.
unfoldable pub encode_header : ℕ → Option MaskKey → ℕ → Bytes
encode_header opcode mask len =
    if ltb len 126
    then bit_or 0x80 opcode ∷ bit_or (mask_bit mask) len ∷ []
    else if ltb len 65536
    then bit_or 0x80 opcode
      ∷ bit_or (mask_bit mask) 126
      ∷ bit_and (len / 2 ^ 8) 0xff
      ∷ bit_and len 0xff
      ∷ []
    else bit_or 0x80 opcode
      ∷ bit_or (mask_bit mask) 127
      ∷ 0
      ∷ 0
      ∷ 0
      ∷ 0
      ∷ bit_and (len / 2 ^ 24) 0xff
      ∷ bit_and (len / 2 ^ 16) 0xff
      ∷ bit_and (len / 2 ^ 8) 0xff
      ∷ bit_and len 0xff
      ∷ []

unfoldable pub encode_body : Option MaskKey → Bytes → Bytes
unfolding apply_mask
encode_body none payload = payload
encode_body (some k) payload = k.k0 ∷ k.k1 ∷ k.k2 ∷ k.k3 ∷ apply_mask k payload

-- `encodeWsFrame(opcode, payload, masked)`; a mask is given where `masked` is true.
unfoldable pub encode_ws_frame : ℕ → Bytes → Option MaskKey → Bytes
encode_ws_frame opcode payload mask =
    encode_header opcode mask (length payload) ++ encode_body mask payload

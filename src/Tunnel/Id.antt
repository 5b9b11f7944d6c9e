-- ===== src/Tunnel/Id.antt =====
-- extension/lib/tunnel-id.js: `uuidToTunnelIdBytes` and `entrypointFromUuid`. The copied library's
-- `md5` is an argument.
pub mod Hex
use wisper.Prelude.{
  ℕ, zero, suc, ◌+◌, ◌-◌, ◌*◌, ◌/◌, ◌%◌, ◌^◌, ◌≤◌, ◌<◌, min, ◌≡◌, refl, sym, ap, ◌∙◌, ◌≢◌, ◌↔◌, ◌⊎◌,
  inl, inr, Bool, true, false, not, ◌&&◌, ◌||◌, Option, none, some, List, [], ◌∷◌, ◌++◌, map,
  append-nil, append_assoc, arith, ltb, leb, ◌==◌, if◌then◌else◌, ==_iff, Bool-cases, Option-cases,
  length, get_elem?, get_or, set, take, drop, All, concat, length-append, take-append-drop,
  length-take, length-drop, take-append_left, drop-append_left, take-append_le, drop-append_le,
  All-append, Bytes, IsByte, u8, u16_be, get_u16_be, u16_le, get_u16_le, u32_le, get_u32_le,
  get_u16_be-u16_be, get_u16_le-u16_le, get_u32_le-u32_le, subst, if-both,
}
use wisper.Prelude.Int.{ℤ, pos, negsuc}
use wisper.Prelude.Text.{Text, codes, parse_int}

-- `uuidString.replace(/-/g, '')`
unfoldable pub strip_dashes : Text → Text
strip_dashes [] = []
strip_dashes (c ∷ cs) = if c == b'-' then strip_dashes cs else c ∷ strip_dashes cs

-- A number as it is stored in a `Uint8Array`; NaN is stored as 0.
unfoldable pub store_byte : Option ℤ → ℕ
store_byte none = 0
store_byte (some (pos n)) = n % 256
store_byte (some (negsuc n)) = 255 - n % 256

-- The loop over the pairs of digits
unfoldable pub hex_bytes : Text → Bytes
unfolding store_byte parse_int
hex_bytes (a ∷ b ∷ cs) = store_byte (parse_int 16 (a ∷ b ∷ [])) ∷ hex_bytes cs
hex_bytes _ = []

-- `uuidToTunnelIdBytes(uuidString)`; `none` where it throws.
unfoldable pub uuid_to_tunnel_id_bytes : Text → Option Bytes
unfolding hex_bytes strip_dashes
uuid_to_tunnel_id_bytes uuid =
    let hex = strip_dashes uuid in
    if not (length hex == 32) then none else some (hex_bytes hex ++ (0 ∷ 0 ∷ 0 ∷ 0 ∷ []))

-- `entrypointFromUuid(uuidString, domain)`
unfoldable pub entrypoint_from_uuid : (Text → Text) → Text → Text → Text
entrypoint_from_uuid md5 uuid domain = codes "https://" ++ (take 16 (md5 uuid) ++ (b'.' ∷ domain))

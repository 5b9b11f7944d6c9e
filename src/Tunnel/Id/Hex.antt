-- ===== src/Tunnel/Id/Hex.antt =====
-- A UUID in hexadecimal digits and dashes gives its 16 bytes back.
use wisper.Prelude.{
  ℕ, ◌+◌, ◌*◌, ◌/◌, ◌%◌, ◌<◌, ◌≡◌, refl, ap, ◌∙◌, true, false, some, [], ◌∷◌, ◌++◌, arith, length,
  All, Bytes, IsByte,
}
use wisper.Prelude.Text.{Text, digit_char, parse_int, parse_digits, non_negative}
use wisper.Prelude.Text.Radix.{digit_char-IsHex, parse_int-IsHex, parse_digits-digit}
use wisper.Tunnel.Id.{strip_dashes, store_byte, hex_bytes, uuid_to_tunnel_id_bytes}

-- Two digits for each byte
abbrev pub show_bytes : Bytes → Text
show_bytes [] = []
show_bytes (b ∷ bs) = digit_char (b / 16) ∷ digit_char (b % 16) ∷ show_bytes bs

byte_digits :
    (b : ℕ)
    → b < 256
    → store_byte (parse_int 16 (digit_char (b / 16) ∷ digit_char (b % 16) ∷ [])) ≡ b
unfolding store_byte parse_digits
byte_digits b h =
    ap store_byte (
      parse_int-IsHex _
        (digit_char-IsHex (b / 16) (omega arith), (digit_char-IsHex (b % 16) (omega arith), tt))
      ∙ ap non_negative (
          parse_digits-digit (b / 16) 0 false (digit_char (b % 16) ∷ []) (omega arith)
          ∙ parse_digits-digit (b % 16) (0 * 16 + b / 16) true [] (omega arith)))
    ∙ omega arith

hex_bytes-show_bytes : (bs : Bytes) → All IsByte bs → hex_bytes (show_bytes bs) ≡ bs
unfolding hex_bytes
hex_bytes-show_bytes [] h = refl
hex_bytes-show_bytes (b ∷ bs) h = rw (byte_digits b h.0, hex_bytes-show_bytes bs h.1) refl

length-show_bytes : (bs : Bytes) → length (show_bytes bs) ≡ 2 * length bs
length-show_bytes [] = omega arith
length-show_bytes (b ∷ bs) = omega (arith, length-show_bytes bs)

-- A text that is the lower-case digits of 16 bytes, with dashes anywhere, gives those bytes and four
-- zeros.
pub uuid_to_tunnel_id_bytes-show_bytes :
    (bs : Bytes) (uuid : Text)
    → All IsByte bs
    → length bs ≡ 16
    → strip_dashes uuid ≡ show_bytes bs
    → uuid_to_tunnel_id_bytes uuid ≡ some (bs ++ (0 ∷ 0 ∷ 0 ∷ 0 ∷ []))
unfolding uuid_to_tunnel_id_bytes
uuid_to_tunnel_id_bytes-show_bytes bs uuid h sixteen dashes =
    rw (dashes, length-show_bytes bs, sixteen, hex_bytes-show_bytes bs h) refl

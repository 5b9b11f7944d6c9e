-- ===== src/Ws/Frame.antt =====
-- Opcodes, masking and the header of a frame, as ws-codec.js reads it. A frame:
--   | FIN, OPCODE(1) | MASK, LEN(1) | LEN(0, 2 or 8, BE) | KEY(0 or 4) | PAYLOAD |
pub mod Prefix
use wisper.Prelude.{ℕ, ◌*◌, ◌^◌, not, ◌||◌, [], ◌∷◌, ltb, ◌==◌, if◌then◌else◌, Bytes}
use Prim.Native.Nat.{bit_or, bit_xor}

abbrev pub op_cont : ℕ
op_cont = 0

abbrev pub op_text : ℕ
op_text = 1

abbrev pub op_binary : ℕ
op_binary = 2

abbrev pub op_close : ℕ
op_close = 8

abbrev pub op_ping : ℕ
op_ping = 9

abbrev pub op_pong : ℕ
op_pong = 10

-- A key of four bytes, `maskKey[i & 3]` for the i-th byte of the payload.
pub record MaskKey : Type 0 where
  pub k0 : ℕ
  pub k1 : ℕ
  pub k2 : ℕ
  pub k3 : ℕ

abbrev turn : MaskKey → MaskKey
turn k = record { k0 = k.k1; k1 = k.k2; k2 = k.k3; k3 = k.k0 }

-- `for (i = 0; i < len; i++) out[i] = payload[i] ^ key[i & 3]`
unfoldable pub apply_mask : MaskKey → Bytes → Bytes
apply_mask k [] = []
apply_mask k (b ∷ bs) = bit_xor b k.k0 ∷ apply_mask (turn k) bs

-- What the first bytes of a buffer say about the length of the payload.
pub data Length : Type 0 where
  len_more : Length
  len_too_big : Length
  len_known : ℕ → Bytes → Length

-- `(b[2] << 8) | b[3]`
abbrev read_u16 : ℕ → ℕ → ℕ
read_u16 a b = bit_or (a * 2 ^ 8) b

-- `((b[6] << 24) | (b[7] << 16) | (b[8] << 8) | b[9]) >>> 0`
abbrev read_u32 : ℕ → ℕ → ℕ → ℕ → ℕ
read_u32 a b c d = bit_or (bit_or (bit_or (a * 2 ^ 24) (b * 2 ^ 16)) (c * 2 ^ 8)) d

read_length_16 : Bytes → Length
read_length_16 (a ∷ b ∷ rest) = len_known (read_u16 a b) rest
read_length_16 _ = len_more

read_length_64 : Bytes → Length
read_length_64 (a ∷ b ∷ c ∷ d ∷ e ∷ f ∷ g ∷ h ∷ rest) =
    if not (a == 0) || (not (b == 0) || (not (c == 0) || not (d == 0)))
    then len_too_big
    else len_known (read_u32 e f g h) rest
read_length_64 _ = len_more

-- The three forms of the length, by `len7`; the rest of the buffer starts behind the length.
unfoldable pub read_length : ℕ → Bytes → Length
unfolding read_length_16 read_length_64
read_length len7 rest =
    if ltb len7 126
    then len_known len7 rest
    else if len7 == 126
    then read_length_16 rest
    else read_length_64 rest

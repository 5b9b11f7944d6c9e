-- ===== src/Ws/Accept.antt =====
-- `base64` and `wsAccept` of ws-codec.js. The browser's SHA-1 is the argument `sha1`.
use wisper.Prelude.{ℕ, ◌+◌, ◌*◌, ◌/◌, ◌^◌, ◌≡◌, [], ◌∷◌, ◌++◌, arith, length, get_or, Bytes}
use Prim.Native.Nat.{bit_and, bit_or}
use wisper.Prelude.Text.{Text, TextCodec, codes}

-- `B64`
abbrev pub alphabet : Text
alphabet = codes "ABCDEFGHIJKLMNOPQRSTUVWXYZabcdefghijklmnopqrstuvwxyz0123456789+/"

-- `B64[i]`, for an index below 64
abbrev pub letter : ℕ → ℕ
letter i = get_or alphabet i 0

-- Four characters for three bytes; where one or two bytes are missing, `=` stands for the rest.
unfoldable pub base64 : Bytes → Text
base64 [] = []
base64 (b0 ∷ []) =
    letter (b0 / 2 ^ 2) ∷ letter (bit_or (bit_and b0 0x03 * 2 ^ 4) 0) ∷ b'=' ∷ b'=' ∷ []
base64 (b0 ∷ b1 ∷ []) =
    letter (b0 / 2 ^ 2)
    ∷ letter (bit_or (bit_and b0 0x03 * 2 ^ 4) (b1 / 2 ^ 4))
    ∷ letter (bit_or (bit_and b1 0x0f * 2 ^ 2) 0)
    ∷ b'='
    ∷ []
base64 (b0 ∷ b1 ∷ b2 ∷ rest) =
    letter (b0 / 2 ^ 2)
    ∷ letter (bit_or (bit_and b0 0x03 * 2 ^ 4) (b1 / 2 ^ 4))
    ∷ letter (bit_or (bit_and b1 0x0f * 2 ^ 2) (b2 / 2 ^ 6))
    ∷ letter (bit_and b2 0x3f)
    ∷ base64 rest

-- `wsAccept(key)`
unfoldable pub ws_accept : TextCodec → (Bytes → Bytes) → Text → Text
unfolding base64
ws_accept codec sha1 key =
    base64 (sha1 (codec.encode (key ++ codes "258EAFA5-E914-47DA-95CA-C5AB0DC85B11")))

-- Four characters for every three bytes or part of them: for the 20 bytes of a SHA-1, 28 characters.
pub length-base64 : (b : Bytes) → length (base64 b) ≡ 4 * ((length b + 2) / 3)
unfolding base64
length-base64 [] = omega arith
length-base64 (b0 ∷ []) = omega arith
length-base64 (b0 ∷ b1 ∷ []) = omega arith
length-base64 (b0 ∷ b1 ∷ b2 ∷ rest) = omega (arith, length-base64 rest)

-- ===== src/Ws/Encode/RoundTrip.antt =====
-- The decoder finds in a buffer the frame that the encoder put in front of it.
use wisper.Prelude.{
  ℕ, suc, ◌+◌, ◌*◌, ◌/◌, ◌%◌, ◌^◌, ◌<◌, ◌≡◌, refl, ap, inl, inr, true, false, not, Option, none,
  some, [], ◌∷◌, ◌++◌, append_assoc, arith, ltb, ◌==◌, if◌then◌else◌, Bool-cases, length,
  length-append, take-append_left, drop-append_left, Bytes,
}
use Prim.Native.Nat.{bit_and, bit_or}
use wisper.Prelude.Bits.{
  bit_and-0x80, bit_and-0x7f, bit_and-0x0f, bit_or-0x80, bit_or-0x00, bit_and-0xff, bit_or-shifted,
  bit_xor-twice,
}
use wisper.Ws.Frame.{MaskKey, apply_mask, len_known, read_length}
use wisper.Ws.Decoder.{scan_frame, scan_body, scan}
use wisper.Ws.Encode.{mask_bit, encode_header, encode_body, encode_ws_frame}

-- Masking twice gives the payload back.
pub apply_mask-apply_mask : (k : MaskKey) (b : Bytes) → apply_mask k (apply_mask k b) ≡ b
unfolding apply_mask
apply_mask-apply_mask k [] = refl
apply_mask-apply_mask k (b ∷ bs) =
    rw
      (
        bit_xor-twice b k.k0,
        apply_mask-apply_mask (record { k0 = k.k1; k1 = k.k2; k2 = k.k3; k3 = k.k0 }) bs,
      )
      refl

length-apply_mask : (k : MaskKey) (b : Bytes) → length (apply_mask k b) ≡ length b
unfolding apply_mask
length-apply_mask k [] = refl
length-apply_mask k (b ∷ bs) =
    ap suc (length-apply_mask (record { k0 = k.k1; k1 = k.k2; k2 = k.k3; k3 = k.k0 }) bs)

-- The first byte: FIN is set, and the opcode is the low half.
first_byte :
    (opcode : ℕ)
    → opcode < 16
    → (bit_and (bit_or 0x80 opcode) 0x80 ≡ 128) × (bit_and (bit_or 0x80 opcode) 0x0f ≡ opcode)
first_byte opcode h =
    rw (bit_or-0x80 opcode (omega arith))
      (omega (arith, bit_and-0x80 (128 + opcode)), omega (arith, bit_and-0x0f (128 + opcode)))

-- The second byte: the mask bit, and a length of seven bits.
second_byte :
    (mask : Option MaskKey) (n : ℕ)
    → n < 128
    → (bit_and (bit_or (mask_bit mask) n) 0x80 ≡ mask_bit mask)
      × (bit_and (bit_or (mask_bit mask) n) 0x7f ≡ n)
second_byte none n h =
    rw (bit_or-0x00 n h) (omega (arith, bit_and-0x80 n), omega (arith, bit_and-0x7f n))
second_byte (some k) n h =
    rw (bit_or-0x80 n h)
      (omega (arith, bit_and-0x80 (128 + n)), omega (arith, bit_and-0x7f (128 + n)))

read_16 :
    (len : ℕ) → len < 65536 → bit_or (bit_and (len / 2 ^ 8) 0xff * 2 ^ 8) (bit_and len 0xff) ≡ len
read_16 len h =
    rw (bit_and-0xff, bit_and-0xff)
      (omega (arith, bit_or-shifted 8 (len / 2 ^ 8 % 256) (len % 256)))

module _ (a b c d : ℕ) (hb : b < 256) (hc : c < 256) (hd : d < 256) where
  join_two : bit_or (a * 2 ^ 24) (b * 2 ^ 16) ≡ (a * 256 + b) * 2 ^ 16
  join_two = omega (arith, bit_or-shifted 24 a (b * 2 ^ 16))

  join_three : bit_or ((a * 256 + b) * 2 ^ 16) (c * 2 ^ 8) ≡ (a * 65536 + b * 256 + c) * 2 ^ 8
  join_three = omega (arith, bit_or-shifted 16 (a * 256 + b) (c * 2 ^ 8))

  join_four :
      bit_or (bit_or (bit_or (a * 2 ^ 24) (b * 2 ^ 16)) (c * 2 ^ 8)) d
      ≡ (a * 65536 + b * 256 + c) * 256 + d
  join_four =
      rw (join_two, join_three) (omega (arith, bit_or-shifted 8 (a * 65536 + b * 256 + c) d))

read_32 :
    (len : ℕ)
    → len < 2 ^ 32
    → bit_or
        (bit_or
          (bit_or (bit_and (len / 2 ^ 24) 0xff * 2 ^ 24) (bit_and (len / 2 ^ 16) 0xff * 2 ^ 16))
          (bit_and (len / 2 ^ 8) 0xff * 2 ^ 8))
        (bit_and len 0xff)
      ≡ len
read_32 len h = simp bit_and-0xff (
    omega
      (arith, join_four (len / 2 ^ 24 % 256) (len / 2 ^ 16 % 256) (len / 2 ^ 8 % 256) (len % 256)))

-- The seven bits that stand for a length, and the bytes of its longer forms.
len7 : ℕ → ℕ
len7 len = if ltb len 126 then len else if ltb len 65536 then 126 else 127

len_bytes : ℕ → Bytes
len_bytes len =
    if ltb len 126
    then []
    else if ltb len 65536
    then bit_and (len / 2 ^ 8) 0xff ∷ bit_and len 0xff ∷ []
    else 0
      ∷ 0
      ∷ 0
      ∷ 0
      ∷ bit_and (len / 2 ^ 24) 0xff
      ∷ bit_and (len / 2 ^ 16) 0xff
      ∷ bit_and (len / 2 ^ 8) 0xff
      ∷ bit_and len 0xff
      ∷ []

encode_header_parts :
    (opcode : ℕ) (mask : Option MaskKey) (len : ℕ)
    → encode_header opcode mask len
      ≡ bit_or 0x80 opcode ∷ bit_or (mask_bit mask) (len7 len) ∷ len_bytes len
unfolding encode_header len7 len_bytes
encode_header_parts opcode mask len = elim (Bool-cases (ltb len 126)) [
  | inl short ↦ rw short
  | inr long ↦ elim (Bool-cases (ltb len 65536)) [
    | inl middle ↦ rw (long, middle)
    | inr huge ↦ rw (long, huge)
  ]
]

len7-lt : (len : ℕ) → len7 len < 128
unfolding len7
len7-lt len = ground arith

read_length-len_bytes :
    (len : ℕ) (rest : Bytes)
    → len < 2 ^ 32
    → read_length (len7 len) (len_bytes len ++ rest) ≡ len_known len rest
unfolding read_length len7 len_bytes
read_length-len_bytes len rest h = elim (Bool-cases (ltb len 126)) [
  | inl short ↦ rw (short, short) refl
  | inr long ↦ elim (Bool-cases (ltb len 65536)) [
    | inl middle ↦ rw (long, middle) (ap (λ n. len_known n rest) (read_16 len (ground arith)))
    | inr huge ↦ rw (long, huge) (ap (λ n. len_known n rest) (read_32 len h))
  ]
]

not-ltb-add : (n k : ℕ) → ltb (n + k) n ≡ false
not-ltb-add n k = ground arith

-- Behind the length: the key, if there is one, and the payload.
scan_body-encode_body :
    (opcode : ℕ) (payload rest : Bytes) (mask : Option MaskKey)
    → scan_body true opcode
        (not (mask_bit mask == 0))
        (len_known (length payload) (encode_body mask payload ++ rest))
      ≡ scan_frame true opcode payload rest
unfolding scan_body encode_body
scan_body-encode_body opcode payload rest none =
    rw
      (
        length-append payload rest,
        not-ltb-add (length payload) (length rest),
        take-append_left payload rest,
        drop-append_left payload rest,
      )
      refl
scan_body-encode_body opcode payload rest (some k) =
    let masked : Bytes = apply_mask k payload in
    rw
      (
        ← length-apply_mask k payload,
        length-append masked rest,
        not-ltb-add (length masked) (length rest),
        take-append_left masked rest,
        drop-append_left masked rest,
        apply_mask-apply_mask k payload,
      )
      refl

-- A frame of fewer than 2 ^ 32 bytes with a four-bit opcode, masked or not, is found whole with
-- FIN set, with its opcode and its payload, and with whatever bytes follow it left.
pub scan-encode_ws_frame :
    (opcode : ℕ) (payload rest : Bytes) (mask : Option MaskKey)
    → opcode < 16
    → length payload < 2 ^ 32
    → scan (encode_ws_frame opcode payload mask ++ rest) ≡ scan_frame true opcode payload rest
unfolding scan encode_ws_frame
scan-encode_ws_frame opcode payload rest mask ho hl =
    let (fin, op) = first_byte opcode ho in
    let (masked, len) = second_byte mask (len7 (length payload)) (len7-lt (length payload)) in
    rw
      (
        encode_header_parts opcode mask (length payload),
        fin,
        op,
        masked,
        len,
        append_assoc,
        read_length-len_bytes (length payload) (encode_body mask payload ++ rest) hl,
        scan_body-encode_body opcode payload rest mask,
      )
      refl

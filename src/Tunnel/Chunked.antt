-- ===== src/Tunnel/Chunked.antt =====
-- `readChunkedBody` of tunnel-connection.js.
pub mod Decodes
use wisper.Prelude.{
  ℕ, zero, suc, ◌+◌, ◌-◌, ◌*◌, ◌/◌, ◌%◌, ◌^◌, ◌≤◌, ◌<◌, min, ◌≡◌, refl, sym, ap, ◌∙◌, ◌≢◌, ◌↔◌, ◌⊎◌,
  inl, inr, Bool, true, false, not, ◌&&◌, ◌||◌, Option, none, some, List, [], ◌∷◌, ◌++◌, map,
  append-nil, append_assoc, arith, ltb, leb, ◌==◌, if◌then◌else◌, ==_iff, Bool-cases, Option-cases,
  length, get_elem?, get_or, set, take, drop, All, concat, length-append, take-append-drop,
  length-take, length-drop, take-append_left, drop-append_left, take-append_le, drop-append_le,
  All-append, Bytes, IsByte, u8, u16_be, get_u16_be, u16_le, get_u16_le, u32_le, get_u32_le,
  get_u16_be-u16_be, get_u16_le-u16_le, get_u32_le-u32_le, subst, if-both,
}
use wisper.Prelude.Int.{ℤ, pos, negsuc, pos_part}
use wisper.Prelude.Text.{Text, TextCodec, split, trim, parse_int}
use wisper.Tunnel.Buffer.{index_of, crlf, fill, fill_until}

-- How the loop ends: with the body and what the stream has left, or by a `throw`. `out_of_fuel` is
-- no outcome of the program.
pub data Body : Type 0 where
  body : Bytes → List Bytes → Body
  closed_early : Body
  bad_size : Body
  out_of_fuel : Body

-- `buf.subarray(0, size)` and `buf.subarray(from)`; a negative index counts from the end.
abbrev pub subarray_to : ℤ → Bytes → Bytes
subarray_to (pos n) b = take n b
subarray_to (negsuc n) b = take (length b - suc n) b

abbrev pub subarray_from : ℤ → Bytes → Bytes
subarray_from (pos n) b = drop n b
subarray_from (negsuc n) b = drop (length b - suc n) b

-- `size + 2`
abbrev pub plus_two : ℤ → ℤ
plus_two (pos n) = pos (n + 2)
plus_two (negsuc zero) = pos 1
plus_two (negsuc (suc zero)) = pos 0
plus_two (negsuc (suc (suc n))) = negsuc n

-- `sizeLine.split(';')[0]`
abbrev pub first_part : List Text → Text
first_part [] = []
first_part (w ∷ ws) = w

-- The loop over the trailers, which ends at an empty line or at the end of the stream. Each round
-- takes a chunk of the stream or two bytes of the buffer at least. What the stream has left.
unfoldable pub skip_trailers : ℕ → Bytes → List Bytes → Option (List Bytes)
skip_trailers zero buf cs = none
skip_trailers (suc fuel) buf cs = elim (index_of crlf buf) [
  | some zero ↦ some cs
  | some (suc i) ↦ skip_trailers fuel (drop (suc i + 2) buf) cs
  | none ↦ elim cs [ [] ↦ some [] | ◌∷◌ c rest ↦ skip_trailers fuel (buf ++ c) rest ]
]

unfoldable pub end_body : Bytes → Option (List Bytes) → Body
end_body out none = out_of_fuel
end_body out (some left) = body out left

-- A round of the loop behind the size line; `again` is the next round.
unfoldable pub read_chunk :
    (Bytes → List Bytes → Bytes → Body) → Option ℤ → Bytes → List Bytes → Bytes → Body
unfolding skip_trailers end_body fill
read_chunk again none buf cs out = bad_size
read_chunk again (some (pos zero)) buf cs out =
    end_body out (skip_trailers (suc (length (buf ++ concat cs) + length cs)) buf cs)
read_chunk again (some size) buf cs out = elim (fill (pos_part (plus_two size)) buf cs) [
  | none ↦ closed_early
  | some (b, rest) ↦ again (subarray_from (plus_two size) b) rest (out ++ subarray_to size b)
]

module _ (codec : TextCodec) where
  open codec use {decode}

  -- The size of a chunk, from its line; `none` is NaN.
  unfoldable pub chunk_size : Bytes → Option ℤ
  unfolding split trim parse_int
  chunk_size line = parse_int 16 (trim (first_part (split b';' (decode line))))

  -- The loop, with the pieces of `out` joined. Each round takes two bytes at least, so the number of
  -- bytes is fuel enough.
  unfoldable pub read_chunks : ℕ → Bytes → List Bytes → Bytes → Body
  read_chunks zero buf cs out = out_of_fuel
  read_chunks (suc fuel) buf cs out = elim (fill_until crlf buf cs) [
    | none ↦ closed_early
    | some (i, b, rest) ↦
        read_chunk (read_chunks fuel) (chunk_size (take i b)) (drop (i + 2) b) rest out
  ]

  -- `readChunkedBody(stream, carry)`
  unfoldable pub read_chunked_body : Bytes → List Bytes → Body
  read_chunked_body carry cs = read_chunks (suc (length (carry ++ concat cs))) carry cs []

-- ===== src/Tunnel/Buffer.antt =====
-- Searching in bytes, and reading from a stream until a buffer holds enough.
--   A stream is the list of the chunks that `read()` will give; after them it gives null.
pub mod Cuts
use wisper.Prelude.{
  ℕ, zero, suc, ◌+◌, ◌-◌, ◌*◌, ◌/◌, ◌%◌, ◌^◌, ◌≤◌, ◌<◌, min, ◌≡◌, refl, sym, ap, ◌∙◌, ◌≢◌, ◌↔◌, ◌⊎◌,
  inl, inr, Bool, true, false, not, ◌&&◌, ◌||◌, Option, none, some, List, [], ◌∷◌, ◌++◌, map,
  append-nil, append_assoc, arith, ltb, leb, ◌==◌, if◌then◌else◌, ==_iff, Bool-cases, Option-cases,
  length, get_elem?, get_or, set, take, drop, All, concat, length-append, take-append-drop,
  length-take, length-drop, take-append_left, drop-append_left, take-append_le, drop-append_le,
  All-append, Bytes, IsByte, u8, u16_be, get_u16_be, u16_le, get_u16_le, u32_le, get_u32_le,
  get_u16_be-u16_be, get_u16_le-u16_le, get_u32_le-u32_le, subst, if-both,
}

-- `arr[i + j] === seq[j]` for each j
unfoldable pub starts_with : Bytes → Bytes → Bool
starts_with [] b = true
starts_with (s ∷ ss) [] = false
starts_with (s ∷ ss) (x ∷ xs) = (x == s) && starts_with ss xs

unfoldable pub next_index : Option ℕ → Option ℕ
next_index none = none
next_index (some i) = some (suc i)

-- `indexOfSequence(arr, seq)`; `none` is -1.
unfoldable pub index_of : Bytes → Bytes → Option ℕ
unfolding starts_with next_index
index_of seq [] = if starts_with seq [] then some 0 else none
index_of seq (x ∷ xs) =
    let later = index_of seq xs in if starts_with seq (x ∷ xs) then some 0 else next_index later

-- The bytes `\r\n`
abbrev pub crlf : Bytes
crlf = 13 ∷ 10 ∷ []

-- `while (buf.length < n) { chunk = await stream.read(); if (!chunk) throw …; buf = merged; }`:
-- `none` where it throws.
unfoldable pub fill : ℕ → Bytes → List Bytes → Option (Bytes × List Bytes)
fill n buf [] = if ltb (length buf) n then none else some (buf, [])
fill n buf (c ∷ cs) =
    let more = fill n (buf ++ c) cs in if ltb (length buf) n then more else some (buf, c ∷ cs)

-- The same with a search: where `seq` stands in the buffer, the buffer, and what the stream has left.
unfoldable pub fill_until : Bytes → Bytes → List Bytes → Option (ℕ × Bytes × List Bytes)
unfolding index_of
fill_until seq buf [] = elim (index_of seq buf) [ none ↦ none | some i ↦ some (i, buf, []) ]
fill_until seq buf (c ∷ cs) =
    let more = fill_until seq (buf ++ c) cs in
    elim (index_of seq buf) [ none ↦ more | some i ↦ some (i, buf, c ∷ cs) ]

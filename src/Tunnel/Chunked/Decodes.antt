-- ===== src/Tunnel/Chunked/Decodes.antt =====
-- `readChunkedBody` gives back the body that `pipeBody` of forwarder.js has written in chunks.
use wisper.Prelude.{
  ℕ, zero, suc, ◌+◌, ◌^◌, ◌<◌, ◌≡◌, refl, sym, ap, ◌∙◌, inl, inr, true, false, some, List, [], ◌∷◌,
  ◌++◌, append-nil, append_assoc, arith, ◌==◌, Option-cases, length, drop, All, concat,
  length-append, Bytes,
}
use wisper.Prelude.Int.{pos}
use wisper.Prelude.Text.{Text, TextCodec, show_number}
use wisper.Prelude.Text.Radix.{
  IsHex, show_number-IsHex, split-IsHex, trim-IsHex, parse_int-show_number,
}
use wisper.Tunnel.Buffer.{starts_with, next_index, index_of, crlf}
use wisper.Tunnel.Buffer.Cuts.{
  bytes_of, cut, fill-Filled, fill_until-Found, index_of-length, index_of-append,
}
use wisper.Tunnel.Chunked.{
  Body, body, end_body, skip_trailers, chunk_size, read_chunk, read_chunks, read_chunked_body,
}
use wisper.Forward.Body.{chunked_terminator, chunked_wrap, pipe_values, pipe_body}

-- A line of hexadecimal digits ends at the first CRLF.
index_of-line :
    (line after : Bytes)
    → All IsHex line
    → index_of crlf (line ++ (13 ∷ 10 ∷ after)) ≡ some (length line)
unfolding index_of starts_with next_index
index_of-line [] after h = refl
index_of-line (c ∷ line) after h =
    let other : (c == 13) ≡ false = ground arith in rw (other, index_of-line line after h.1) refl

-- The loop over the trailers stops at the empty line.
skip_trailers-ends :
    (fuel : ℕ) (buf : Bytes) (cs : List Bytes)
    → index_of crlf (bytes_of buf cs) ≡ some 0
    → length cs < fuel
    → (left : List Bytes) × (skip_trailers fuel buf cs ≡ some left)
unfolding skip_trailers
skip_trailers-ends zero buf cs e h = absurd (omega arith)
skip_trailers-ends (suc fuel) buf [] e h =
    let found : index_of crlf buf ≡ some 0 = ap (index_of crlf) (sym (append-nil buf)) ∙ e in
    rw (found, skip_trailers) ([], refl)
skip_trailers-ends (suc fuel) buf (c ∷ cs) e h = elim (Option-cases (index_of crlf buf)) [
  | inr (i, found) ↦
      rw (found ∙ (sym (index_of-append crlf buf (concat (c ∷ cs)) found) ∙ e), skip_trailers)
        (c ∷ cs, refl)
  | inl missing ↦
      rw (missing, skip_trailers)
        (skip_trailers-ends fuel (buf ++ c) cs
          (ap (index_of crlf) (append_assoc buf c (concat cs)) ∙ e) (omega arith))
]

concat-snoc :
    (bs : List Bytes) → concat (bs ++ (chunked_terminator ∷ [])) ≡ concat bs ++ chunked_terminator
concat-snoc [] = refl
concat-snoc (b ∷ bs) =
    ap (λ t. b ++ t) (concat-snoc bs) ∙ sym (append_assoc b (concat bs) chunked_terminator)

module _ (codec : TextCodec) where
  open codec use {decode-ascii}

  ascii : (s : Text) → All IsHex s → All (λ c. c < 128) s
  ascii [] h = tt
  ascii (c ∷ cs) h = (omega arith, ascii cs h.1)

  -- The size line that `_chunkedWrap` writes.
  chunk_size-show_number : (n : ℕ) → n < 2 ^ 32 → chunk_size codec (show_number 16 n) ≡ some (pos n)
  unfolding chunk_size
  chunk_size-show_number n h =
      let hex = show_number-IsHex n in
      rw
        (
          decode-ascii (show_number 16 n) (ascii (show_number 16 n) hex),
          split-IsHex (show_number 16 n) hex,
          trim-IsHex (show_number 16 n) hex,
        )
        (parse_int-show_number n h)

  -- A size line in front of the buffer and the stream.
  record Line (n : ℕ) (after : Bytes) (again : Bytes → List Bytes → Bytes → Body) (out : Bytes)
      (r : Body) : Type 0 where
    buf : Bytes
    left : List Bytes
    behind : bytes_of buf left ≡ after
    step : r ≡ read_chunk again (some (pos n)) buf left out

  read_chunks-Line :
      (n fuel : ℕ) (buf : Bytes) (cs : List Bytes) (out after : Bytes)
      → n < 2 ^ 32
      → bytes_of buf cs ≡ show_number 16 n ++ (13 ∷ 10 ∷ after)
      → Line n after (read_chunks codec fuel) out (read_chunks codec (suc fuel) buf cs out)
  unfolding read_chunks
  read_chunks-Line n fuel buf cs out after h e =
      let line = show_number 16 n in
      let f =
        fill_until-Found crlf (length line) buf cs
          (ap (index_of crlf) e ∙ index_of-line line after (show_number-IsHex n)) in
      let long = index_of-length crlf f.buf f.in_buf in
      let whole = f.same ∙ e in
      let text = cut line (13 ∷ 10 ∷ after) f.buf (concat f.left) whole (omega arith) in
      let rest =
        cut (line ++ crlf) after f.buf (concat f.left) (whole ∙ sym (append_assoc line crlf after))
          (omega (arith, length-append line crlf)) in
      let size : length (line ++ crlf) ≡ length line + 2 = length-append line crlf in
      record {
        buf = drop (length line + 2) f.buf;
        left = f.left;
        behind = rw size at rest.1;
        step = rw (f.is_some, read_chunks, text.0, chunk_size-show_number n h) refl;
      }

  -- The frame of one value and what stands behind it.
  frame_bytes :
      (v after : Bytes)
      → chunked_wrap v ++ after ≡ show_number 16 (length v) ++ (13 ∷ 10 ∷ (v ++ (13 ∷ 10 ∷ after)))
  unfolding chunked_wrap
  frame_bytes v after =
      append_assoc (show_number 16 (length v)) (13 ∷ 10 ∷ (v ++ (13 ∷ 10 ∷ []))) after
      ∙ ap (λ t. show_number 16 (length v) ++ (13 ∷ 10 ∷ t)) (append_assoc v (13 ∷ 10 ∷ []) after)

  -- A round on a size that is not zero.
  record Chunk (v after : Bytes) (again : Bytes → List Bytes → Bytes → Body) (out : Bytes)
      (r : Body) : Type 0 where
    buf : Bytes
    left : List Bytes
    behind : bytes_of buf left ≡ after
    step : r ≡ again buf left (out ++ v)

  read_value :
      (x : ℕ) (xs after : Bytes) (again : Bytes → List Bytes → Bytes → Body) (buf : Bytes)
      (cs : List Bytes) (out : Bytes)
      → bytes_of buf cs ≡ (x ∷ xs) ++ (13 ∷ 10 ∷ after)
      → Chunk (x ∷ xs) after again out (read_chunk again (some (pos (suc (length xs)))) buf cs out)
  unfolding read_chunk
  read_value x xs after again buf cs out e =
      let v = x ∷ xs in
      let total : length (bytes_of buf cs) ≡ length v + (2 + length after) =
        ap length e ∙ length-append v (13 ∷ 10 ∷ after) ∙ omega arith in
      let f = fill-Filled (suc (length xs) + 2) buf cs (omega arith) in
      let whole = f.same ∙ e in
      let data_part = cut v (13 ∷ 10 ∷ after) f.buf (concat f.left) whole (omega arith) in
      let size : length (v ++ crlf) ≡ suc (length xs) + 2 = length-append v crlf in
      let rest =
        cut (v ++ crlf) after f.buf (concat f.left) (whole ∙ sym (append_assoc v crlf after))
          (omega arith) in
      record {
        buf = drop (suc (length xs) + 2) f.buf;
        left = f.left;
        behind = rw size at rest.1;
        step = rw (f.is_some, read_chunk, data_part.0) refl;
      }

  not-zero : (n : ℕ) → (suc n == 0) ≡ false
  not-zero n = ground arith

  pipe_values-cons :
      (x : ℕ) (xs : Bytes) (vs : List Bytes)
      → pipe_values true ((x ∷ xs) ∷ vs) ≡ chunked_wrap (x ∷ xs) ∷ pipe_values true vs
  unfolding pipe_values
  pipe_values-cons x xs vs = rw (not-zero (length xs)) refl

  length-frame :
      (line v later : Bytes) → length later < length (line ++ (13 ∷ 10 ∷ (v ++ (13 ∷ 10 ∷ later))))
  length-frame line v later = omega (
    arith,
    length-append line (13 ∷ 10 ∷ (v ++ (13 ∷ 10 ∷ later))),
    length-append v (13 ∷ 10 ∷ later),
  )

  below : {a b c d : ℕ} (fuel : ℕ) → a ≡ b → c ≡ d → b < d → c < suc fuel → a < fuel
  below fuel e f h g = omega arith

  read_chunks-values :
      (values : List Bytes) (fuel : ℕ) (buf : Bytes) (cs : List Bytes) (out rest : Bytes)
      → All (λ v. length v < 2 ^ 32) values
      → bytes_of buf cs ≡ concat (pipe_values true values) ++ (chunked_terminator ++ rest)
      → length (bytes_of buf cs) < fuel
      → (left : List Bytes) × (read_chunks codec fuel buf cs out ≡ body (out ++ concat values) left)
  unfolding pipe_values show_number read_chunk end_body starts_with index_of
  read_chunks-values values zero buf cs out rest h e f = absurd (omega arith)
  read_chunks-values [] (suc fuel) buf cs out rest h e f =
      let line = read_chunks-Line 0 fuel buf cs out (13 ∷ 10 ∷ rest) (omega arith) e in
      let (left, ends) =
        skip_trailers-ends (suc (length (line.buf ++ concat line.left) + length line.left)) line.buf
          line.left (ap (index_of crlf) line.behind) (omega arith) in
      (left, line.step ∙ ap (end_body out) ends ∙ ap (λ t. body t left) (sym (append-nil out)))
  read_chunks-values ([] ∷ values) (suc fuel) buf cs out rest h e f =
      read_chunks-values values (suc fuel) buf cs out rest h.1 e f
  read_chunks-values ((x ∷ xs) ∷ values) (suc fuel) buf cs out rest h e f =
      let v = x ∷ xs in
      let wires = concat (pipe_values true values) in
      let later = wires ++ (chunked_terminator ++ rest) in
      let wire : bytes_of buf cs
          ≡ show_number 16 (length v) ++ (13 ∷ 10 ∷ (v ++ (13 ∷ 10 ∷ later))) =
        e
        ∙ ap (λ t. concat t ++ (chunked_terminator ++ rest)) (pipe_values-cons x xs values)
        ∙ append_assoc (chunked_wrap v) wires (chunked_terminator ++ rest)
        ∙ frame_bytes v later in
      let line = read_chunks-Line (length v) fuel buf cs out (v ++ (13 ∷ 10 ∷ later)) h.0 wire in
      let chunk =
        read_value x xs later (read_chunks codec fuel) line.buf line.left out line.behind in
      let smaller : length (bytes_of chunk.buf chunk.left) < fuel =
        below fuel (ap length chunk.behind) (ap length wire)
          (length-frame (show_number 16 (length v)) v later) f in
      let (left, done) =
        read_chunks-values values fuel chunk.buf chunk.left (out ++ v) rest h.1 chunk.behind
          smaller in
      (
        left,
        line.step ∙ chunk.step ∙ done ∙ ap (λ t. body t left) (append_assoc out v (concat values)),
      )

  -- However the bytes that `pipeBody` writes for a chunked body (of values shorter than 2 ^ 32 bytes),
  -- with anything behind them, are cut into what was carried over and the chunks of the stream:
  -- `readChunkedBody` ends, and returns the values joined.
  pub read_chunked_body-pipe_body :
      (values : List Bytes) (carry : Bytes) (cs : List Bytes) (rest : Bytes)
      → All (λ v. length v < 2 ^ 32) values
      → carry ++ concat cs ≡ concat (pipe_body true (some values)) ++ rest
      → (left : List Bytes) × (read_chunked_body codec carry cs ≡ body (concat values) left)
  unfolding read_chunked_body pipe_body
  read_chunked_body-pipe_body values carry cs rest h e =
      read_chunks-values values (suc (length (carry ++ concat cs))) carry cs [] rest h
        (e
          ∙ ap (λ t. t ++ rest) (concat-snoc (pipe_values true values))
          ∙ append_assoc (concat (pipe_values true values)) chunked_terminator rest)
        (omega arith)

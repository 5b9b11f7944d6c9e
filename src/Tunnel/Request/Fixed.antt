-- ===== src/Tunnel/Request/Fixed.antt =====
-- A request with a body of fixed length, and header names that break the parser.
use wisper.Prelude.{
  ℕ, ◌+◌, ◌≡◌, sym, ap, ◌∙◌, inl, inr, false, some, List, [], ◌∷◌, ◌++◌, append-nil, append_assoc,
  arith, ltb, Bool-cases, length, take, drop, concat, length-append, take-append_left, Bytes,
}
use wisper.Prelude.Int.{pos}
use wisper.Prelude.Text.{TextCodec}
use wisper.Tunnel.Buffer.{index_of}
use wisper.Tunnel.Buffer.Cuts.{bytes_of, cut, fill_until-Found, index_of-length}
use wisper.Tunnel.Request.{
  Parsed, request, parse_http_request, is_chunked, content_length, read_up_to, fixed_body,
  read_body, read_http, non_empty,
}

-- What is read holds `n` bytes, and begins with what was there.
read_up_to-take :
    (a b buf : Bytes) (cs : List Bytes)
    → bytes_of buf cs ≡ a ++ b
    → take (length a) (read_up_to (length a) buf cs) ≡ a
unfolding read_up_to
read_up_to-take a b buf [] e =
    ap (take (length a)) (sym (append-nil buf) ∙ e) ∙ take-append_left a b
read_up_to-take a b buf (c ∷ cs) e = elim (Bool-cases (ltb (length buf) (length a))) [
  | inl short ↦ rw short (read_up_to-take a b (buf ++ c) cs (append_assoc buf c (concat cs) ∙ e))
  | inr long ↦ rw long (cut a b buf (concat (c ∷ cs)) e (ground arith)).0
]

abbrev pub blank_line : Bytes
blank_line = 13 ∷ 10 ∷ 13 ∷ 10 ∷ []

module _ (codec : TextCodec) where
  open codec use {decode}

  read_body-fixed :
      (p : Parsed) (x : ℕ) (xs rest buf : Bytes) (cs : List Bytes)
      → is_chunked p.headers ≡ false
      → content_length p.headers ≡ some (pos (length (x ∷ xs)))
      → bytes_of buf cs ≡ (x ∷ xs) ++ rest
      → read_body codec (some p) buf cs ≡ request (record { head = p; payload = some (x ∷ xs) })
  unfolding read_body fixed_body
  read_body-fixed p x xs rest buf cs plain size e =
      rw (plain, size)
        (ap (λ b. request (record { head = p; payload = non_empty b }))
          (read_up_to-take (x ∷ xs) rest buf cs e))

  -- A head without a blank line in it, a blank line and a body of as many bytes as the head's
  -- Content-Length says, one at least, without chunked encoding: however the bytes and what follows
  -- them are cut, `_readHTTP` gives the parsed head and exactly that body.
  pub read_http-fixed :
      (p : Parsed) (head : Bytes) (x : ℕ) (xs rest carry : Bytes) (cs : List Bytes)
      → index_of blank_line (head ++ (blank_line ++ ((x ∷ xs) ++ rest))) ≡ some (length head)
      → parse_http_request codec (decode head) ≡ some p
      → is_chunked p.headers ≡ false
      → content_length p.headers ≡ some (pos (length (x ∷ xs)))
      → carry ++ concat cs ≡ head ++ (blank_line ++ ((x ∷ xs) ++ rest))
      → read_http codec carry cs ≡ request (record { head = p; payload = some (x ∷ xs) })
  unfolding read_http
  read_http-fixed p head x xs rest carry cs first parses plain size e =
      let f =
        fill_until-Found blank_line (length head) carry cs (ap (index_of blank_line) e ∙ first) in
      let long = index_of-length blank_line f.buf f.in_buf in
      let whole = f.same ∙ e in
      let after = (x ∷ xs) ++ rest in
      let text = cut head (blank_line ++ after) f.buf (concat f.left) whole (omega arith) in
      let total : length (head ++ blank_line) ≡ length head + 4 = length-append head blank_line in
      let behind =
        cut (head ++ blank_line) after f.buf (concat f.left)
          (whole ∙ sym (append_assoc head blank_line after)) (omega arith) in
      rw (f.is_some, read_http, text.0, parses)
        (read_body-fixed p x xs rest (drop (length head + 4) f.buf) f.left plain size
          (rw total at behind.1))

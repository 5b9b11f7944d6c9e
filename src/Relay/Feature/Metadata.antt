-- ===== src/Relay/Feature/Metadata.antt =====
-- `decodeMetadata` reads what `encodeMetadata` writes.
use wisper.Prelude.{
  ◌/◌, ◌%◌, ◌<◌, ◌≡◌, refl, inl, inr, false, if◌then◌else◌, Bool-cases, All-append, List, [], ◌∷◌,
  ◌++◌, append-nil, append_assoc, arith, length, All, length-append, take-append_left,
  drop-append_left, Bytes, u16_be, get_u16_be, get_u16_be-u16_be,
}
use wisper.Prelude.Text.{Text, TextCodec, text_eq}
use wisper.Relay.Feature.{
  take_text, assign_own, is_proto, assign, encode_entry, encode_entries, encode_metadata,
  decode_entries, decode_metadata,
}
use wisper.Relay.Result.{ok}

-- The key of `e` is not a key of the entries before it.
abbrev Fresh : Text → List (Text × Text) → Type 0
Fresh k m = All (λ e. text_eq e.0 k ≡ false) m

-- No key stands twice: so for the keys of an object.
abbrev pub Distinct : List (Text × Text) → Type 0
Distinct [] = Unit {0}
Distinct (e ∷ es) = All (λ g. text_eq e.0 g.0 ≡ false) es × Distinct es

-- The entries but one with the key `__proto__`.
unfoldable pub without_proto : List (Text × Text) → List (Text × Text)
unfolding is_proto
without_proto [] = []
without_proto ((k, v) ∷ kvs) = if is_proto k then without_proto kvs else (k, v) ∷ without_proto kvs

assign-Fresh :
    (k v : Text) (m : List (Text × Text)) → Fresh k m → assign_own k v m ≡ m ++ ((k, v) ∷ [])
unfolding assign_own
assign-Fresh k v [] h = refl
assign-Fresh k v ((j, w) ∷ m) h = rw (h.0, assign-Fresh k v m h.1)

-- The entries that are still to come are fresh behind one more entry.
All-Fresh :
    (k v : Text) (before kvs : List (Text × Text))
    → All (λ g. Fresh g.0 before) kvs
    → All (λ g. text_eq k g.0 ≡ false) kvs
    → All (λ g. Fresh g.0 (before ++ ((k, v) ∷ []))) kvs
All-Fresh k v before [] h d = tt
All-Fresh k v before (g ∷ kvs) h d = (
  All-append (λ e. text_eq e.0 g.0 ≡ false) before ((k, v) ∷ []) h.0 (d.0, tt),
  All-Fresh k v before kvs h.1 d.1,
)

All-Fresh-nil : (kvs : List (Text × Text)) → All (λ g. Fresh g.0 []) kvs
All-Fresh-nil [] = tt
All-Fresh-nil (g ∷ kvs) = (tt, All-Fresh-nil kvs)

module _ (codec : TextCodec) where
  open codec use {encode, decode, IsWellFormed, decode-encode}

  -- A text that is well formed and takes less than 2 ^ 16 bytes.
  abbrev pub Fits : Text → Type 0
  Fits s = IsWellFormed s × (length (encode s) < 65536)

  take_text-encode :
      (s : Text) (rest : Bytes)
      → Fits s
      → take_text codec (u16_be (length (encode s)) ++ (encode s ++ rest)) ≡ ok (s, rest)
  unfolding take_text
  take_text-encode s rest h =
      rw (same_length, take-append_left (encode s) rest, drop-append_left (encode s) rest)
        (ground (arith, length-append (encode s) rest, decode-encode s h.0))
    where
      same_length :
          get_u16_be (length (encode s) / 256 % 256) (length (encode s) % 256) ≡ length (encode s)
      same_length = omega (arith, get_u16_be-u16_be (length (encode s)))

  encode_entry-append :
      (k v : Text) (rest : Bytes)
      → encode_entry codec (k, v) ++ rest
        ≡ u16_be (length (encode k))
          ++ (encode k ++ (u16_be (length (encode v)) ++ (encode v ++ rest)))
  unfolding encode_entry
  encode_entry-append k v rest = simp append_assoc

  decode_entries-encode_entries :
      (kvs before : List (Text × Text))
      → All (λ e. Fits e.0 × Fits e.1) kvs
      → Distinct kvs
      → All (λ g. Fresh g.0 before) kvs
      → decode_entries codec (length kvs) (encode_entries codec kvs) before
        ≡ ok (before ++ without_proto kvs)
  unfolding decode_entries encode_entries without_proto assign
  decode_entries-encode_entries [] before h d fresh = rw append-nil
  decode_entries-encode_entries ((k, v) ∷ kvs) before h d fresh =
      rw
        (
          encode_entry-append k v (encode_entries codec kvs),
          take_text-encode k _ h.0.0,
          take_text-encode v _ h.0.1,
        )
        (elim (Bool-cases (is_proto k)) [
          | inl dropped ↦ rw dropped (decode_entries-encode_entries kvs before h.1 d.1 fresh.1)
          | inr kept ↦
              rw
                (
                  kept,
                  assign-Fresh k v before fresh.0,
                  decode_entries-encode_entries kvs (before ++ ((k, v) ∷ [])) h.1 d.1
                      (All-Fresh k v before kvs fresh.1 d.0),
                  append_assoc,
                )
                refl
        ])

  -- The entries of an object, with keys and values that are well formed and shorter than 2 ^ 16
  -- bytes, and fewer than 2 ^ 16 of them, are read back in order, but for one with the key `__proto__`,
  -- which is lost.
  pub decode_metadata-encode_metadata :
      (kvs : List (Text × Text))
      → All (λ e. Fits e.0 × Fits e.1) kvs
      → Distinct kvs
      → length kvs < 65536
      → decode_metadata codec (encode_metadata codec kvs) ≡ ok (without_proto kvs)
  unfolding decode_metadata encode_metadata
  decode_metadata-encode_metadata kvs h d n =
      rw (same_count) (decode_entries-encode_entries kvs [] h d (All-Fresh-nil kvs))
    where
      same_count : get_u16_be (length kvs / 256 % 256) (length kvs % 256) ≡ length kvs
      same_count = omega (arith, get_u16_be-u16_be (length kvs))

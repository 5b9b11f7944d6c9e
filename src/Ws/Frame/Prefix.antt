-- ===== src/Ws/Frame/Prefix.antt =====
-- The length field of a frame of ws-codec.js, when more bytes come behind it.
use wisper.Prelude.{
  ℕ, ◌≡◌, refl, ◌⊎◌, inl, inr, not, ◌||◌, [], ◌∷◌, ◌++◌, ltb, ◌==◌, Bool-cases, Bytes,
}
use wisper.Ws.Frame.{
  Length, len_more, len_too_big, len_known, read_length_16, read_length_64, read_length,
}

abbrev pub lengthened : Bytes → Length → Length
lengthened x len_more = len_more
lengthened x len_too_big = len_too_big
lengthened x (len_known len rest) = len_known len (rest ++ x)

read_length_16-append :
    (b x : Bytes)
    → (read_length_16 b ≡ len_more) ⊎ (read_length_16 (b ++ x) ≡ lengthened x (read_length_16 b))
unfolding read_length_16
read_length_16-append [] x = inl refl
read_length_16-append (a ∷ []) x = inl refl
read_length_16-append (a ∷ b ∷ rest) x = inr refl

read_length_64-append :
    (b x : Bytes)
    → (read_length_64 b ≡ len_more) ⊎ (read_length_64 (b ++ x) ≡ lengthened x (read_length_64 b))
unfolding read_length_64
read_length_64-append [] x = inl refl
read_length_64-append (a ∷ []) x = inl refl
read_length_64-append (a ∷ b ∷ []) x = inl refl
read_length_64-append (a ∷ b ∷ c ∷ []) x = inl refl
read_length_64-append (a ∷ b ∷ c ∷ d ∷ []) x = inl refl
read_length_64-append (a ∷ b ∷ c ∷ d ∷ e ∷ []) x = inl refl
read_length_64-append (a ∷ b ∷ c ∷ d ∷ e ∷ f ∷ []) x = inl refl
read_length_64-append (a ∷ b ∷ c ∷ d ∷ e ∷ f ∷ g ∷ []) x = inl refl
read_length_64-append (a ∷ b ∷ c ∷ d ∷ e ∷ f ∷ g ∷ h ∷ rest) x =
    elim (Bool-cases (not (a == 0) || (not (b == 0) || (not (c == 0) || not (d == 0))))) [
      | inl huge ↦ inr (rw huge refl)
      | inr small ↦ inr (rw small refl)
    ]

pub read_length-append :
    (l : ℕ) (b x : Bytes)
    → (read_length l b ≡ len_more) ⊎ (read_length l (b ++ x) ≡ lengthened x (read_length l b))
unfolding read_length
read_length-append l b x = elim (Bool-cases (ltb l 126)) [
  | inl short ↦ inr (rw short refl)
  | inr long ↦ elim (Bool-cases (l == 126)) [
    | inl two ↦ rw (long, two) (read_length_16-append b x)
    | inr eight ↦ rw (long, eight) (read_length_64-append b x)
  ]
]

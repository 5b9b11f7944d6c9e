-- ===== src/Prelude/Text/Radix.antt =====
-- `parseInt` reads what `toString` writes, and what it writes has no separators in it.
use wisper.Prelude.{
  ℕ, zero, suc, ◌+◌, ◌*◌, ◌/◌, ◌%◌, ◌^◌, ◌≤◌, ◌<◌, ◌≡◌, refl, ap, ◌∙◌, inl, inr, Bool, true, false,
  ◌&&◌, ◌||◌, some, [], ◌∷◌, arith, ltb, leb, ◌==◌, Bool-cases, All, All-append,
}
use mathlib.Core.List.{reverse, reverse-cons, reverse-reverse}
use wisper.Prelude.Int.{pos}
use wisper.Prelude.Text.{
  Text, split, trim, drop_spaces, is_space, digit_value, digit_char, parse_digits, skip_prefix,
  parse_signed, parse_int, show_digits, show_number, non_negative,
}

digit_value-digit_char : (d : ℕ) → d < 36 → digit_value (digit_char d) ≡ d
unfolding digit_value
digit_value-digit_char d h = ground arith

-- One digit in front is read.
pub parse_digits-digit :
    (d acc : ℕ) (any : Bool) (tail : Text)
    → d < 16
    → parse_digits 16 any acc (digit_char d ∷ tail) ≡ parse_digits 16 true (acc * 16 + d) tail
unfolding parse_digits
parse_digits-digit d acc any tail h =
    let value = digit_value-digit_char d (omega arith) in
    let small : ltb d 16 ≡ true = ground arith in rw (value, small) refl

or-false : (any : Bool) → (any || false) ≡ any
or-false true = refl
or-false false = refl

or-positive : (any : Bool) (fuel : ℕ) → (any || ltb 0 (suc fuel)) ≡ true
or-positive any fuel = ground arith

quotient-lt : (n fuel : ℕ) → n < 16 ^ suc fuel → n / 16 < 16 ^ fuel
quotient-lt n fuel h = omega arith

-- The digits in front of `tail` give the number back.
parse_digits-show_digits :
    (fuel n : ℕ) (any : Bool) (tail : Text)
    → n < 16 ^ fuel
    → parse_digits 16 any 0 (show_digits fuel 16 n tail)
      ≡ parse_digits 16 (any || ltb 0 fuel) n tail
unfolding show_digits
parse_digits-show_digits zero n any tail h =
    let none_left : 0 ≡ n = omega arith in rw (or-false any, ← none_left) refl
parse_digits-show_digits (suc fuel) n any tail h = elim (Bool-cases (ltb n 16)) [
  | inl small ↦
      rw (small, or-positive any fuel)
        (parse_digits-digit n 0 any tail (ground arith)
          ∙ ap (λ m. parse_digits 16 true m tail) (omega arith))
  | inr large ↦
      rw (large, or-positive any fuel)
        (parse_digits-show_digits fuel (n / 16) any (digit_char (n % 16) ∷ tail)
            (quotient-lt n fuel h)
          ∙ parse_digits-digit (n % 16) (n / 16) (any || ltb 0 fuel) tail (omega arith)
          ∙ ap (λ m. parse_digits 16 true m tail) (omega arith))
]

-- A character that `toString(16)` writes.
abbrev pub IsHex : ℕ → Type 0
IsHex c = (48 ≤ c) × (c < 103) × (((c == 59) || (c == 88)) ≡ false)

pub digit_char-IsHex : (d : ℕ) → d < 16 → IsHex (digit_char d)
digit_char-IsHex d h = (ground arith, ground arith, ground arith)

show_digits-IsHex :
    (fuel n : ℕ) (tail : Text) → All IsHex tail → All IsHex (show_digits fuel 16 n tail)
unfolding show_digits
show_digits-IsHex zero n tail h = h
show_digits-IsHex (suc fuel) n tail h = elim (Bool-cases (ltb n 16)) [
  | inl small ↦ rw small (digit_char-IsHex n (ground arith), h)
  | inr large ↦ rw large (
      show_digits-IsHex fuel (n / 16) (digit_char (n % 16) ∷ tail)
        (digit_char-IsHex (n % 16) (omega arith), h))
]

pub show_number-IsHex : (n : ℕ) → All IsHex (show_number 16 n)
unfolding show_number
show_number-IsHex n = show_digits-IsHex 64 n [] tt

-- Hexadecimal characters are neither separators nor spaces.
pub split-IsHex : (s : Text) → All IsHex s → split b';' s ≡ s ∷ []
unfolding split
split-IsHex [] h = refl
split-IsHex (c ∷ cs) h =
    let other : (c == b';') ≡ false = ground arith in rw (split-IsHex cs h.1, other) refl

drop_spaces-IsHex : (s : Text) → All IsHex s → drop_spaces s ≡ s
unfolding drop_spaces is_space
drop_spaces-IsHex [] h = refl
drop_spaces-IsHex (c ∷ cs) h =
    let narrow : ltb c 128 ≡ true = ground arith in
    let solid : ((c == 32) || (leb 9 c && leb c 13)) ≡ false = ground arith in
    rw (narrow, solid) refl

reverse-All : (s : Text) → All IsHex s → All IsHex (reverse s)
reverse-All [] h = tt
reverse-All (c ∷ cs) h =
    rw (reverse-cons c cs) (All-append IsHex (reverse cs) (c ∷ []) (reverse-All cs h.1) (h.0, tt))

pub trim-IsHex : (s : Text) → All IsHex s → trim s ≡ s
unfolding trim
trim-IsHex s h =
    rw (drop_spaces-IsHex s h, drop_spaces-IsHex (reverse s) (reverse-All s h), reverse-reverse s)
      refl

skip_prefix-IsHex : (s : Text) → All IsHex s → skip_prefix 16 s ≡ s
unfolding skip_prefix
skip_prefix-IsHex [] h = refl
skip_prefix-IsHex (c ∷ []) h = refl
skip_prefix-IsHex (z ∷ x ∷ cs) h =
    let no_x : ((z == 48) && ((x == 120) || (x == 88))) ≡ false = ground arith in rw no_x refl

pub parse_int-IsHex :
    (s : Text) → All IsHex s → parse_int 16 s ≡ non_negative (parse_digits 16 false 0 s)
unfolding parse_int parse_signed
parse_int-IsHex [] h = refl
parse_int-IsHex (c ∷ cs) h =
    let no_minus : (c == b'-') ≡ false = ground arith in
    let no_plus : (c == b'+') ≡ false = ground arith in
    rw (drop_spaces-IsHex (c ∷ cs) h, no_minus, no_plus, skip_prefix-IsHex (c ∷ cs) h) refl

-- `parseInt(n.toString(16), 16)`
pub parse_int-show_number : (n : ℕ) → n < 2 ^ 32 → parse_int 16 (show_number 16 n) ≡ some (pos n)
unfolding show_number parse_digits
parse_int-show_number n h =
    parse_int-IsHex (show_number 16 n) (show_number-IsHex n)
    ∙ ap non_negative (parse_digits-show_digits 64 n false [] (omega arith))

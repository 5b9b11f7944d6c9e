-- ===== src/Prelude/Text.antt =====
-- JavaScript strings as lists of code units, and what the program uses of the language's own library:
-- `split`, `indexOf`, `trim`, `toLowerCase`, `parseInt` and `toString(radix)`.
--   `TextEncoder` and `TextDecoder` belong to the browser, and so do the tables of Unicode: they are the
-- record `TextCodec`.
pub mod Radix
pub mod Equal
use Prim.Native.Nat.{ℕ, zero, suc, ◌+◌, ◌-◌, ◌*◌, ◌/◌, ◌%◌}
use Prim.Native.Char.{code}
use Prim.Native.String.{String}
use mathlib.Core.Bool.{Bool, true, false, ◌&&◌, ◌||◌}
use mathlib.Core.List.{List, [], ◌∷◌, ◌++◌, map, reverse}
use mathlib.Core.Option.{Option, none, some}
use mathlib.Core.Path.{◌≡◌}
use wisper.Prelude.Int.{ℤ, pos, negsuc}
use wisper.Prelude.Lists.{All}
use Prim.Native.Nat.{◌<◌}
use wisper.Prelude.Tests.{ltb, leb, ◌==◌, if◌then◌else◌}
use wisper.Prelude.Words.{Bytes}

abbrev pub Text : Type 0
Text = List ℕ

-- The code units of a literal.
abbrev pub codes : String → Text
codes String.[] = []
codes (String.◌∷◌ c s) = code c ∷ codes s

-- `toLowerCase` on one ASCII letter; other characters are left alone.
unfoldable pub lower : ℕ → ℕ
lower c = if leb 65 c && leb c 90 then c + 32 else c

unfoldable pub to_lower : Text → Text
unfolding lower
to_lower = map lower

-- `new TextEncoder().encode(s)` and `new TextDecoder().decode(bytes)`: UTF-8, which takes ASCII as it
-- is. A string comes back if it is well formed: without lone surrogates, and without a byte-order mark
-- in front, which the decoder drops. `lower_case` is `s.toLowerCase()` for any text, by the tables of
-- Unicode, where `to_lower` knows ASCII only.
pub record TextCodec : Type 1 where
  pub encode : Text → Bytes
  pub decode : Bytes → Text
  pub IsWellFormed : Text → Type 0
  pub decode-encode : (s : Text) → IsWellFormed s → decode (encode s) ≡ s
  pub encode-ascii : (s : Text) → All (λ c. c < 128) s → encode s ≡ s
  pub decode-ascii : (b : Bytes) → All (λ c. c < 128) b → decode b ≡ b
  pub lower_case : Text → Text
  pub lower_case-ascii : (s : Text) → All (λ c. c < 128) s → lower_case s ≡ to_lower s

-- `a === b` on strings
unfoldable pub text_eq : Text → Text → Bool
text_eq [] [] = true
text_eq [] (y ∷ ys) = false
text_eq (x ∷ xs) [] = false
text_eq (x ∷ xs) (y ∷ ys) = (x == y) && text_eq xs ys

abbrev pub cons_head : ℕ → List Text → List Text
cons_head c [] = (c ∷ []) ∷ []
cons_head c (w ∷ ws) = (c ∷ w) ∷ ws

-- `s.split(sep)` for a separator of one character
unfoldable pub split : ℕ → Text → List Text
split sep [] = [] ∷ []
split sep (c ∷ cs) = let ws = split sep cs in if c == sep then [] ∷ ws else cons_head c ws

-- `parts.join(sep)`
unfoldable pub join : Text → List Text → Text
join sep [] = []
join sep (w ∷ []) = w
join sep (w ∷ v ∷ ws) = w ++ (sep ++ join sep (v ∷ ws))

-- White space and the ends of lines beyond ASCII
unfoldable pub is_wide_space : ℕ → Bool
is_wide_space c =
    (c == 0xa0)
    || ((c == 0x1680)
        || ((leb 0x2000 c && leb c 0x200a)
            || ((leb 0x2028 c && leb c 0x2029)
                || ((c == 0x202f) || ((c == 0x205f) || ((c == 0x3000) || (c == 0xfeff)))))))

unfoldable pub is_space : ℕ → Bool
unfolding is_wide_space
is_space c = if ltb c 128 then (c == 32) || (leb 9 c && leb c 13) else is_wide_space c

unfoldable pub drop_spaces : Text → Text
unfolding is_space
drop_spaces [] = []
drop_spaces (c ∷ cs) = if is_space c then drop_spaces cs else c ∷ cs

-- `s.trim()`
unfoldable pub trim : Text → Text
unfolding drop_spaces
trim s = reverse (drop_spaces (reverse (drop_spaces s)))

-- The value of a digit, or 36 for what is no digit in any radix.
unfoldable pub digit_value : ℕ → ℕ
digit_value c =
    if leb 48 c && leb c 57
    then c - 48
    else if leb 97 c && leb c 122
    then c - 87
    else if leb 65 c && leb c 90
    then c - 55
    else 36

-- The digits that stand in front, and whether there are any.
unfoldable pub parse_digits : ℕ → Bool → ℕ → Text → Option ℕ
unfolding digit_value
parse_digits radix any acc [] = if any then some acc else none
parse_digits radix any acc (c ∷ cs) =
    let more = parse_digits radix true (acc * radix + digit_value c) cs in
    if ltb (digit_value c) radix then more else if any then some acc else none

-- In radix 16 a prefix `0x` is skipped.
unfoldable pub skip_prefix : ℕ → Text → Text
skip_prefix radix (z ∷ x ∷ cs) =
    if (radix == 16) && ((z == 48) && ((x == 120) || (x == 88))) then cs else z ∷ x ∷ cs
skip_prefix radix s = s

abbrev negate : Option ℕ → Option ℤ
negate none = none
negate (some zero) = some (pos 0)
negate (some (suc n)) = some (negsuc n)

abbrev pub non_negative : Option ℕ → Option ℤ
non_negative none = none
non_negative (some n) = some (pos n)

unfoldable pub parse_signed : ℕ → Text → Option ℤ
unfolding parse_digits skip_prefix
parse_signed radix [] = none
parse_signed radix (c ∷ cs) =
    if c == b'-'
    then negate (parse_digits radix false 0 (skip_prefix radix cs))
    else non_negative
        (parse_digits radix false 0 (skip_prefix radix (if c == b'+' then cs else c ∷ cs)))

-- `parseInt(s, radix)`; `none` is NaN.
unfoldable pub parse_int : ℕ → Text → Option ℤ
unfolding parse_signed drop_spaces
parse_int radix s = parse_signed radix (drop_spaces s)

abbrev pub digit_char : ℕ → ℕ
digit_char d = if ltb d 10 then 48 + d else 87 + d

unfoldable pub show_digits : ℕ → ℕ → ℕ → Text → Text
show_digits zero radix n tail = tail
show_digits (suc fuel) radix n tail =
    let front = show_digits fuel radix (n / radix) (digit_char (n % radix) ∷ tail) in
    if ltb n radix then digit_char n ∷ tail else front

-- `n.toString(radix)` for a number of at most 64 digits
unfoldable pub show_number : ℕ → ℕ → Text
unfolding show_digits
show_number radix n = show_digits 64 radix n []

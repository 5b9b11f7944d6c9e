-- ===== src/Relay/Ip.antt =====
-- `parseIPv4` and `parseIPv6` of relay.js, and how `decodeAddr` prints addresses.
use wisper.Prelude.{
  ℕ, zero, suc, ◌+◌, ◌-◌, ◌*◌, not, ◌&&◌, ◌||◌, Option, none, some, List, [], ◌∷◌, ◌++◌, map, ltb,
  ◌==◌, if◌then◌else◌, length, Bytes, u16_be, get_u16_be,
}
use wisper.Prelude.Int.{pos, negsuc}
use wisper.Prelude.Text.{Text, codes, split, join, parse_int, show_number}

-- One group: `none` where `isNaN(n) || n < 0 || n > limit`.
unfoldable pub group : ℕ → ℕ → Text → Option ℕ
unfolding parse_int
group radix limit s = elim (parse_int radix s) [
  | none ↦ none
  | some (pos n) ↦ if ltb limit n then none else some n
  | some (negsuc n) ↦ none
]

abbrev push : Option ℕ → Option (List ℕ) → Option (List ℕ)
push none ns = none
push (some n) none = none
push (some n) (some ns) = some (n ∷ ns)

-- Every group in turn.
unfoldable pub groups : ℕ → ℕ → List Text → Option (List ℕ)
unfolding group
groups radix limit [] = some []
groups radix limit (s ∷ ss) = push (group radix limit s) (groups radix limit ss)

-- `parseIPv4(host)`
unfoldable pub parse_ipv4 : Text → Option Bytes
unfolding groups split
parse_ipv4 host =
    let parts = split b'.' host in if not (length parts == 4) then none else groups 10 255 parts

unfoldable pub count_colons : Text → ℕ
count_colons [] = 0
count_colons (c ∷ cs) = if c == b':' then count_colons cs + 1 else count_colons cs

-- `host.indexOf('::')`, as the text before it and the text behind it
unfoldable pub cut_double_colon : Text → Option (Text × Text)
cut_double_colon [] = none
cut_double_colon (c ∷ []) = none
cut_double_colon (c ∷ d ∷ cs) =
    if (c == b':') && (d == b':') then some ([], cs) else elim (cut_double_colon (d ∷ cs)) [
      | none ↦ none
      | some (left, right) ↦ some (c ∷ left, right)
    ]

non_empty : List Text → List Text
non_empty [] = []
non_empty ([] ∷ ws) = non_empty ws
non_empty ((c ∷ cs) ∷ ws) = (c ∷ cs) ∷ non_empty ws

-- `s ? s.split(':').filter(p => p !== '') : []`
unfoldable pub colon_parts : Text → List Text
unfolding split non_empty
colon_parts s = non_empty (split b':' s)

-- `bytes[i++] = (n >> 8) & 0xff; bytes[i++] = n & 0xff;` for each group
unfoldable pub group_bytes : List ℕ → Bytes
group_bytes [] = []
group_bytes (n ∷ ns) = u16_be n ++ group_bytes ns

zeros : ℕ → Bytes
zeros zero = []
zeros (suc n) = 0 ∷ zeros n

-- The 16 bytes, from the texts on the two sides of the compressed groups.
sides : List Text → List Text → Option Bytes
unfolding groups group_bytes zeros
sides left right =
    if ltb 8 (length left + length right) then none else elim (groups 16 0xffff left) [
      | none ↦ none
      | some ls ↦ elim (groups 16 0xffff right) [
        | none ↦ none
        | some rs ↦
            some
              (group_bytes ls ++ (zeros ((8 - length left - length right) * 2) ++ group_bytes rs))
      ]
    ]

-- `parseIPv6(host)`
unfoldable pub parse_ipv6 : Text → Option Bytes
unfolding sides colon_parts cut_double_colon count_colons
parse_ipv6 host =
    let colons = count_colons host in
    if ltb colons 2 || ltb 7 colons then none else elim (cut_double_colon host) [
      | none ↦ if not (colons == 7) then none else sides (colon_parts host) []
      | some (left, right) ↦ sides (colon_parts left) (colon_parts right)
    ]

-- `ip.join('.')`
unfoldable pub show_ipv4 : Bytes → Text
unfolding show_number join
show_ipv4 ip = join (codes ".") (map (show_number 10) ip)

pairs : Bytes → List ℕ
pairs (hi ∷ lo ∷ rest) = get_u16_be hi lo ∷ pairs rest
pairs _ = []

-- Eight groups in hexadecimal, joined by colons.
unfoldable pub show_ipv6 : Bytes → Text
unfolding show_number join pairs
show_ipv6 ip = join (codes ":") (map (show_number 16) (pairs ip))

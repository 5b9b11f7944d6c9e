-- ===== src/Background/Json.antt =====
-- JavaScript objects of JSON values, as chrome.storage and messages carry them.
use wisper.Prelude.{
  not, ◌==◌, ℕ, zero, suc, ◌≡◌, refl, sym, ap, ◌∙◌, inl, inr, Bool, true, false, Option, none, some,
  [], ◌∷◌, if◌then◌else◌, Bool-cases,
}
use wisper.Prelude.Text.{Text, text_eq}
use wisper.Prelude.Text.Equal.{text_eq-eq, text_eq_sym}

-- Properties stand in the order in which they were made. A property that is missing is undefined.
mutual
  pub data Value : Type 0 where
    null : Value
    boolean : Bool → Value
    number : ℕ → Value
    string : Text → Value
    array : Items → Value
    object : Props → Value

  pub data Items : Type 0 where
    no_items : Items
    item : Value → Items → Items

  pub data Props : Type 0 where
    no_props : Props
    prop : Text → Value → Props → Props

-- `o.k`
unfoldable pub get : Text → Props → Option Value
unfolding text_eq
get k no_props = none
get k (prop j v o) = if text_eq j k then some v else get k o

-- `o.k = v`
unfoldable pub put : Text → Value → Props → Props
unfolding text_eq
put k v no_props = prop k v no_props
put k v (prop j w o) = let rest = prop j w (put k v o) in if text_eq j k then prop j v o else rest

-- `{ ...o, ...p }`
unfoldable pub spread : Props → Props → Props
unfolding put
spread o no_props = o
spread o (prop k v p) = spread (put k v o) p

-- `v || null`, where the property is missing or there
unfoldable pub or_null : Option Value → Value
or_null none = null
or_null (some null) = null
or_null (some (boolean b)) = if b then boolean true else null
or_null (some (number zero)) = null
or_null (some (number (suc n))) = number (suc n)
or_null (some (string [])) = null
or_null (some (string (c ∷ cs))) = string (c ∷ cs)
or_null (some (array vs)) = array vs
or_null (some (object o)) = object o

-- `v === s` for a string `s`
unfoldable pub is_string : Text → Option Value → Bool
unfolding text_eq
is_string s none = false
is_string s (some null) = false
is_string s (some (boolean b)) = false
is_string s (some (number n)) = false
is_string s (some (string t)) = text_eq t s
is_string s (some (array vs)) = false
is_string s (some (object o)) = false

-- `v === w` for a value `w` out of a message or the storage: two of their objects are never the same.
unfoldable pub is_same : Value → Option Value → Bool
unfolding is_string
is_same (string s) w = is_string s w
is_same null (some null) = true
is_same (boolean true) (some (boolean b)) = b
is_same (boolean false) (some (boolean b)) = not b
is_same (number n) (some (number m)) = n == m
is_same v w = false

-- Every property has one place.
unfoldable pub IsObject : Props → Type 0
unfolding get
IsObject no_props = Unit {0}
IsObject (prop k v o) = (get k o ≡ none) × IsObject o

-- The value that stands in front of another.
abbrev pub over : Option Value → Option Value → Option Value
over none d = d
over (some v) d = some v

-- Reading a property that was just written, or another one.
pub get-put :
    (j k : Text) (v : Value) (o : Props)
    → get j (put k v o) ≡ (if text_eq k j then some v else get j o)
unfolding get put
get-put j k v no_props = refl
get-put j k v (prop i w o) = elim (Bool-cases (text_eq i k)) [
  | inl here ↦
      let same = text_eq-eq i k here in
      rw (here, same) (elim (Bool-cases (text_eq k j)) [ inl e ↦ rw e refl | inr e ↦ rw e refl ])
  | inr other ↦ elim (Bool-cases (text_eq i j)) [
    | inl e ↦
        let apart : text_eq k j ≡ false =
          text_eq_sym k j ∙ ap (λ x. text_eq x k) (sym (text_eq-eq i j e)) ∙ other in
        rw (other, e, apart) refl
    | inr e ↦ rw (other, e) (get-put j k v o)
  ]
]

pub get-spread :
    (j : Text) (o p : Props) → IsObject p → get j (spread o p) ≡ over (get j p) (get j o)
unfolding get spread IsObject
get-spread j o no_props h = refl
get-spread j o (prop k v p) h = elim (Bool-cases (text_eq k j)) [
  | inl e ↦
      let alone : get j p ≡ none = ap (λ x. get x p) (sym (text_eq-eq k j e)) ∙ h.0 in
      get-spread j (put k v o) p h.1 ∙ rw (alone, e, get-put j k v o, e) refl
  | inr e ↦ get-spread j (put k v o) p h.1 ∙ rw (e, get-put j k v o, e) refl
]

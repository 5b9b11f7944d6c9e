-- ===== src/Background/Storage/Refines.antt =====
-- The stored list as a table: a value for every tunnel and property.
use wisper.Prelude.{
  ◌≡◌, refl, sym, ap, ◌∙◌, inl, inr, Bool, true, false, ◌&&◌, Option, none, some, List, [], ◌∷◌,
  if◌then◌else◌, Bool-cases, All, if-both,
}
use mathlib.Core.Path.{fun_ext}
use wisper.Prelude.Text.{Text, codes, text_eq}
use wisper.Prelude.Text.Equal.{text_eq-eq, text_eq_sym}
use wisper.Background.Json.{
  Value, null, string, boolean, number, array, object, Props, get, put, spread, or_null, is_string,
  is_same, over, IsObject, get-put, get-spread,
}
use wisper.Background.Storage.{
  is_tunnel, has_id, save_at, save, start_other, update_all, mark_stopped, StatusMessage,
  mark_status, Change, start, stop, report, count, apply, run,
}

abbrev pub Table : Type 0
Table = Text → Text → Option Value

-- The table that a list shows.
unfoldable pub table : List Props → Table
unfolding is_tunnel get
table [] i k = none
table (t ∷ ts) i k = let rest = table ts i k in if is_tunnel i t then get k t else rest

abbrev pub is_some : Option Value → Bool
is_some none = false
is_some (some v) = true

-- A property set to a value.
unfoldable pub field : Text → Value → Text → Option Value → Option Value
unfolding text_eq
field key v k old = if text_eq key k then some v else old

-- A change of one row, where there is one.
unfoldable pub at : Text → (Text → Option Value → Option Value) → Table → Table
unfolding text_eq
at id g m i k = if text_eq id i && is_some (m i (codes "tunnelId")) then g k (m i k) else m i k

unfoldable pub stopped_row : Text → Option Value → Option Value
unfolding field
stopped_row k v =
    field (codes "error") null k
      (field (codes "entrypoint") null k (field (codes "status") (string (codes "stopped")) k v))

unfoldable pub reported_row : StatusMessage → Text → Option Value → Option Value
unfolding field or_null
reported_row msg k v =
    field (codes "entrypoint") (or_null msg.entrypoint) k
      (field (codes "error") (or_null msg.error) k (field (codes "status") msg.status k v))

-- The specification: what a handler does to the table.
unfoldable pub enter : Change → Table → Table
unfolding at field stopped_row reported_row get
enter (start id config) m i k = if text_eq id i then over (get k config) (m i k) else m i k
enter (start_other id config) m i k = m i k
enter (stop id) m i k = at id stopped_row m i k
enter (report msg) m i k = at msg.tunnel_id (reported_row msg) m i k
enter (count id stats) m i k = at id (field (codes "stats") stats) m i k

unfoldable pub replay : List Change → Table → Table
unfolding enter
replay [] m = m
replay (c ∷ cs) m = replay cs (enter c m)

-- An id that is no string.
abbrev pub IsOther : Value → Type 0
IsOther (string s) = ⊥
IsOther v = Unit {0}

-- A configuration is an object that has the tunnelId.
unfoldable pub IsValid : Change → Type 0
unfolding IsObject get
IsValid (start id config) = IsObject config × (get (codes "tunnelId") config ≡ some (string id))
IsValid (start_other id config) =
    IsObject config × (get (codes "tunnelId") config ≡ some id) × IsOther id
IsValid (stop id) = Unit {0}
IsValid (report msg) = Unit {0}
IsValid (count id stats) = Unit {0}

is_string-string : (s : Text) (v : Option Value) → is_string s v ≡ true → v ≡ some (string s)
unfolding is_string
is_string-string s none h = absurd (cc h)
is_string-string s (some null) h = absurd (cc h)
is_string-string s (some (boolean b)) h = absurd (cc h)
is_string-string s (some (number n)) h = absurd (cc h)
is_string-string s (some (string t)) h = ap (λ u. some (string u)) (text_eq-eq t s h)
is_string-string s (some (array vs)) h = absurd (cc h)
is_string-string s (some (object o)) h = absurd (cc h)

pub is_tunnel-get :
    (i : Text) (t : Props) → is_tunnel i t ≡ true → get (codes "tunnelId") t ≡ some (string i)
unfolding is_tunnel
is_tunnel-get i t h = is_string-string i (get (codes "tunnelId") t) h

-- Whether a tunnel that has the id `i` has the id `j`.
pub is_tunnel-other :
    (i j : Text) (t : Props)
    → get (codes "tunnelId") t ≡ some (string i)
    → is_tunnel j t ≡ text_eq i j
unfolding is_tunnel is_string
is_tunnel-other i j t h = ap (is_string j) h

pub is_tunnel-kept :
    (i : Text) (t u : Props)
    → get (codes "tunnelId") t ≡ get (codes "tunnelId") u
    → is_tunnel i t ≡ is_tunnel i u
unfolding is_tunnel
is_tunnel-kept i t u h = ap (is_string i) h

-- A change of properties of the tunnels with an id is a change of the row.
table-update_all :
    (id : Text) (f : Props → Props) (g : Text → Option Value → Option Value)
    → ((t : Props) (k : Text) → get k (f t) ≡ g k (get k t))
    → ((t : Props) → get (codes "tunnelId") (f t) ≡ get (codes "tunnelId") t)
    → (ts : List Props) (i k : Text) → table (update_all id f ts) i k ≡ at id g (table ts) i k
unfolding table update_all at
table-update_all id f g fits keeps [] i k = elim (Bool-cases (text_eq id i)) [
  | inl e ↦ rw e refl
  | inr e ↦ rw e refl
]
table-update_all id f g fits keeps (t ∷ ts) i k = elim (Bool-cases (is_tunnel i t)) [
  | inl mine ↦
      let has_id = is_tunnel-get i t mine in
      elim (Bool-cases (text_eq i id)) [
        | inl same ↦
            rw
              (
                mine,
                is_tunnel-other i id t has_id,
                same,
                is_tunnel-kept i (f t) t (keeps t),
                mine,
                has_id,
                text_eq_sym id i,
                same,
              )
              (fits t k)
        | inr other ↦
            rw (mine, is_tunnel-other i id t has_id, other, mine, text_eq_sym id i, other) refl
      ]
  | inr yours ↦
      rw
        (
          if-both (λ x. is_tunnel i x ≡ false) (is_tunnel id t)
              (is_tunnel-kept i (f t) t (keeps t) ∙ yours) yours,
          yours,
        )
        (table-update_all id f g fits keeps ts i k)
]

over-none : (v : Option Value) → over v none ≡ v
over-none none = refl
over-none (some v) = refl

-- A tunnel whose id is no string, or is the same as one that is none, is not the tunnel of any text.
is_tunnel-IsOther :
    (id : Value) (t : Props)
    → IsOther id
    → get (codes "tunnelId") t ≡ some id
    → (i : Text) → is_tunnel i t ≡ false
unfolding is_tunnel is_string
is_tunnel-IsOther (string s) t other h i = absurd other
is_tunnel-IsOther null t other h i = ap (is_string i) h
is_tunnel-IsOther (boolean b) t other h i = ap (is_string i) h
is_tunnel-IsOther (number n) t other h i = ap (is_string i) h
is_tunnel-IsOther (array vs) t other h i = ap (is_string i) h
is_tunnel-IsOther (object o) t other h i = ap (is_string i) h

is_same-string : (id : Value) (s : Text) → IsOther id → is_same id (some (string s)) ≡ false
unfolding is_same
is_same-string (string t) s other = absurd other
is_same-string null s other = refl
is_same-string (boolean true) s other = refl
is_same-string (boolean false) s other = refl
is_same-string (number n) s other = refl
is_same-string (array vs) s other = refl
is_same-string (object o) s other = refl

is_same-IsOther :
    (id : Value) (w : Option Value) (i : Text)
    → IsOther id
    → is_same id w ≡ true
    → is_string i w ≡ false
unfolding is_string
is_same-IsOther id none i other h = refl
is_same-IsOther id (some null) i other h = refl
is_same-IsOther id (some (boolean b)) i other h = refl
is_same-IsOther id (some (number n)) i other h = refl
is_same-IsOther id (some (string s)) i other h = absurd (cc (sym (is_same-string id s other) ∙ h))
is_same-IsOther id (some (array vs)) i other h = refl
is_same-IsOther id (some (object o)) i other h = refl

-- What a configuration with such an id overwrites, and what it becomes, are no tunnels of a text.
pub is_tunnel-has_id :
    (id : Value) (t : Props) (i : Text) → IsOther id → has_id id t ≡ true → is_tunnel i t ≡ false
unfolding is_tunnel has_id
is_tunnel-has_id id t i other h = is_same-IsOther id (get (codes "tunnelId") t) i other h

pub is_tunnel-spread :
    (id : Value) (t config : Props) (i : Text)
    → IsValid (start_other id config)
    → is_tunnel i (spread t config) ≡ false
unfolding IsValid
is_tunnel-spread id t config i h =
    is_tunnel-IsOther id (spread t config) h.2
      (get-spread (codes "tunnelId") t config h.0 ∙ ap (λ v. over v (get (codes "tunnelId") t)) h.1)
      i

pub is_tunnel-config :
    (id : Value) (config : Props) (i : Text)
    → IsValid (start_other id config)
    → is_tunnel i config ≡ false
unfolding IsValid
is_tunnel-config id config i h = is_tunnel-IsOther id config h.2 h.1 i

-- Saving a configuration whose id is no string changes no row.
table-save_at :
    (id : Value) (config : Props)
    → IsValid (start_other id config)
    → (ts : List Props) (i k : Text) → table (save_at (has_id id) config ts) i k ≡ table ts i k
unfolding table save_at IsValid
table-save_at id config h [] i k = rw (is_tunnel-config id config i h) refl
table-save_at id config h (t ∷ ts) i k = elim (Bool-cases (has_id id t)) [
  | inl mine ↦ rw (mine, is_tunnel-spread id t config i h, is_tunnel-has_id id t i h.2 mine) refl
  | inr yours ↦ elim (Bool-cases (is_tunnel i t)) [
    | inl e ↦ rw (yours, e) refl
    | inr e ↦ rw (yours, e) (table-save_at id config h ts i k)
  ]
]

-- Saving a configuration puts its properties over those of its row.
table-save :
    (id : Text) (config : Props)
    → IsValid (start id config)
    → (ts : List Props) (i k : Text)
    → table (save id config ts) i k ≡ enter (start id config) (table ts) i k
unfolding table save save_at enter IsValid
table-save id config h [] i k = elim (Bool-cases (text_eq id i)) [
  | inl e ↦ rw (is_tunnel-other id i config h.1, e) (sym (over-none (get k config)))
  | inr e ↦ rw (is_tunnel-other id i config h.1, e) refl
]
table-save id config h (t ∷ ts) i k = elim (Bool-cases (is_tunnel id t)) [
  | inl mine ↦
      let has_id = is_tunnel-get id t mine in
      let spread_id : get (codes "tunnelId") (spread t config) ≡ some (string id) =
        get-spread (codes "tunnelId") t config h.0
        ∙ ap (λ v. over v (get (codes "tunnelId") t)) h.1 in
      elim (Bool-cases (text_eq id i)) [
        | inl e ↦
            rw
              (
                mine,
                is_tunnel-other id i (spread t config) spread_id,
                is_tunnel-other id i t has_id,
                e,
              )
              (get-spread k t config h.0)
        | inr e ↦
            rw
              (
                mine,
                is_tunnel-other id i (spread t config) spread_id,
                is_tunnel-other id i t has_id,
                e,
              )
              refl
      ]
  | inr yours ↦ elim (Bool-cases (is_tunnel i t)) [
    | inl his ↦
        let apart : text_eq id i ≡ false =
          text_eq_sym id i ∙ sym (is_tunnel-other i id t (is_tunnel-get i t his)) ∙ yours in
        rw (yours, his, apart) refl
    | inr other ↦ rw (yours, other) (table-save id config h ts i k)
  ]
]

pub get-mark_stopped : (t : Props) (k : Text) → get k (mark_stopped t) ≡ stopped_row k (get k t)
unfolding mark_stopped stopped_row field
get-mark_stopped t k = rw (get-put k _ _ _, get-put k _ _ _, get-put k _ _ t) refl

pub get-mark_status :
    (msg : StatusMessage) (t : Props) (k : Text)
    → get k (mark_status msg t) ≡ reported_row msg k (get k t)
unfolding mark_status reported_row field
get-mark_status msg t k = rw (get-put k _ _ _, get-put k _ _ _, get-put k _ _ t) refl

pub get-count :
    (stats : Value) (t : Props) (k : Text)
    → get k (put (codes "stats") stats t) ≡ field (codes "stats") stats k (get k t)
unfolding field
get-count stats t k = get-put k (codes "stats") stats t

-- One handler's change of the list is its change of the table.
table-apply :
    (c : Change)
    → IsValid c
    → (ts : List Props) (i k : Text) → table (apply c ts) i k ≡ enter c (table ts) i k
unfolding apply enter field text_eq stopped_row reported_row
table-apply (start id config) h ts i k = table-save id config h ts i k
table-apply (start_other id config) h ts i k = table-save_at id config h ts i k
table-apply (stop id) h ts i k =
    table-update_all id mark_stopped stopped_row get-mark_stopped
      (λ t. get-mark_stopped t (codes "tunnelId")) ts i k
table-apply (report msg) h ts i k =
    table-update_all msg.tunnel_id (mark_status msg) (reported_row msg) (get-mark_status msg)
      (λ t. get-mark_status msg t (codes "tunnelId")) ts i k
table-apply (count id stats) h ts i k =
    table-update_all id (put (codes "stats") stats) (field (codes "stats") stats) (get-count stats)
      (λ t. get-count stats t (codes "tunnelId")) ts i k

-- Whatever tunnels are stored: handlers whose configurations are objects that have their tunnelId, one
-- after the other, leave a list that shows the table that the specification has after the same changes.
pub table-run :
    (cs : List Change) (ts : List Props) → All IsValid cs → table (run cs ts) ≡ replay cs (table ts)
unfolding run replay
table-run [] ts h = refl
table-run (c ∷ cs) ts h =
    table-run cs (apply c ts) h.1 ∙ ap (replay cs) (fun_ext (λ i. fun_ext (table-apply c h.0 ts i)))

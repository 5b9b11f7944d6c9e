-- ===== src/Web/Store.antt =====
-- web-src/src/store/tunnel-store.ts and entrypoint-store.ts, which are one program on two types of items.
--   The backend is a service: its answers are events. The listeners draw pages and change nothing here.
use wisper.Prelude.{
  ℕ, zero, suc, ◌+◌, ◌-◌, ◌*◌, ◌/◌, ◌%◌, ◌^◌, ◌≤◌, ◌<◌, min, ◌≡◌, refl, sym, ap, ◌∙◌, ◌≢◌, ◌↔◌, ◌⊎◌,
  inl, inr, Bool, true, false, not, ◌&&◌, ◌||◌, Option, none, some, List, [], ◌∷◌, ◌++◌, map,
  append-nil, append_assoc, arith, ltb, leb, ◌==◌, if◌then◌else◌, ==_iff, Bool-cases, Option-cases,
  length, get_elem?, get_or, set, take, drop, All, concat, length-append, take-append-drop,
  length-take, length-drop, take-append_left, drop-append_left, take-append_le, drop-append_le,
  All-append, Bytes, IsByte, u8, u16_be, get_u16_be, u16_le, get_u16_le, u32_le, get_u32_le,
  get_u16_be-u16_be, get_u16_le-u16_le, get_u32_le-u32_le, subst, if-both,
}
use wisper.Prelude.Text.{Text, text_eq}
pub mod Refines

-- What the stores use of an item. `absorb s x` is `x` with the fields that a poll brings, from `s`.
pub record Item (A : Type 0) : Type 0 where
  pub id : A → Text
  pub favorite : A → Bool
  pub set_favorite : Bool → A → A
  pub absorb : A → A → A
  pub id-set_favorite : (b : Bool) (x : A) → id (set_favorite b x) ≡ id x
  pub id-absorb : (s x : A) → id (absorb s x) ≡ id x

-- `refreshes` counts the calls of `refresh` whose answer is awaited.
pub record Store (A : Type 0) : Type 0 where
  pub items : List A
  pub loading : Bool
  pub refreshes : ℕ

abbrev pub new_store : {A : Type 0} → Store A
new_store = record { items = []; loading = false; refreshes = 0 }

-- What happens to a store: a call of `refresh`, the answers of the backend (`none` is a failure), a call
-- of `toggleFavorite` up to its request, and a poll.
pub data Event (A : Type 0) : Type 0 where
  refresh : Event A
  refreshed : Option (List A) → Event A
  created : A → Event A
  updated : Text → A → Event A
  removed : Text → Event A
  toggled : Text → Event A
  toggle_answered : Text → Bool → Option A → Event A
  polled : List A → Event A

module _ {A : Type 0} (item : Item A) where
  open item use {id, favorite, set_favorite, absorb}

  -- `items.find(x => x.id === key)`
  unfoldable pub find_item : Text → List A → Option A
  unfolding text_eq
  find_item key [] = none
  find_item key (x ∷ xs) =
      let rest = find_item key xs in if text_eq (id x) key then some x else rest

  -- `items.map(x => (x.id === key ? f(x) : x))`
  unfoldable pub update_items : Text → (A → A) → List A → List A
  unfolding text_eq
  update_items key f [] = []
  update_items key f (x ∷ xs) = (if text_eq (id x) key then f x else x) ∷ update_items key f xs

  -- `items.filter(x => x.id !== key)`
  unfoldable pub remove_items : Text → List A → List A
  unfolding text_eq
  remove_items key [] = []
  remove_items key (x ∷ xs) =
      let rest = remove_items key xs in if text_eq (id x) key then rest else x ∷ rest

  -- `applyStats(statsList)`
  unfoldable pub apply_stats : List A → List A → List A
  unfolding update_items
  apply_stats [] xs = xs
  apply_stats (s ∷ ss) xs = apply_stats ss (update_items (id s) (absorb s) xs)

  -- `toggleFavorite(id)` up to its request: the item is changed at once.
  unfoldable pub toggle : Text → List A → List A
  unfolding find_item update_items
  toggle key xs = elim (find_item key xs) [
    | none ↦ xs
    | some x ↦ update_items key (set_favorite (not (favorite x))) xs
  ]

  -- The rest of `toggleFavorite(id)`; `current` is what the flag was.
  unfoldable pub toggle_answer : Text → Bool → Option A → List A → List A
  unfolding update_items
  toggle_answer key current none xs = update_items key (set_favorite current) xs
  toggle_answer key current (some x) xs = update_items key (λ y. x) xs

  unfoldable pub step : Event A → Store A → Store A
  unfolding update_items remove_items apply_stats toggle toggle_answer
  step refresh s = record s { loading = true; refreshes = s.refreshes + 1 }
  step (refreshed none) s = record s { loading = false; refreshes = s.refreshes - 1 }
  step (refreshed (some xs)) s = record s {
    items = xs;
    loading = false;
    refreshes = s.refreshes - 1;
  }
  step (created x) s = record s { items = s.items ++ (x ∷ []) }
  step (updated key x) s = record s { items = update_items key (λ y. x) s.items }
  step (removed key) s = record s { items = remove_items key s.items }
  step (toggled key) s = record s { items = toggle key s.items }
  step (toggle_answered key current answer) s = record s {
    items = toggle_answer key current answer s.items;
  }
  step (polled stats) s = record s { items = apply_stats stats s.items }

  unfoldable pub run : List (Event A) → Store A → Store A
  unfolding step
  run [] s = s
  run (e ∷ es) s = run es (step e s)

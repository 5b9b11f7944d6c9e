-- ===== src/Web/Store/Refines.antt =====
-- The list of a store as a table by ids.
use wisper.Prelude.{
  ◌≡◌, refl, sym, ap, ◌∙◌, inl, inr, false, not, Option, none, some, List, [], ◌∷◌, ◌++◌,
  if◌then◌else◌, Bool-cases, Option-cases, All, if-both,
}
use mathlib.Core.Path.{fun_ext}
use wisper.Prelude.Text.{Text, text_eq}
use wisper.Prelude.Text.Equal.{text_eq-eq, text_eq_sym}
use wisper.Web.Store.{
  Item, Store, Event, refresh, refreshed, created, updated, removed, toggled, toggle_answered,
  polled, find_item, update_items, remove_items, apply_stats, toggle, toggle_answer, step, run,
}

module _ {A : Type 0} (item : Item A) where
  open item use {id, favorite, set_favorite, absorb, id-set_favorite, id-absorb}

  abbrev pub Table : Type 0
  Table = Text → Option A

  abbrev pub changed : (A → A) → Option A → Option A
  changed f none = none
  changed f (some x) = some (f x)

  -- A new entry, where there is none.
  abbrev pub added : Option A → Option A → Option A
  added none new = new
  added (some x) new = some x

  -- A change of the entry of a key.
  unfoldable pub at : Text → (A → A) → Table → Table
  unfolding text_eq
  at key f m i = if text_eq key i then changed f (m i) else m i

  unfoldable pub absorb_all : List A → Table → Table
  unfolding at
  absorb_all [] m = m
  absorb_all (s ∷ ss) m = absorb_all ss (at (id s) (absorb s) m)

  -- The specification: what an event does to the table.
  unfoldable pub enter : Event A → Table → Table
  unfolding at absorb_all find_item text_eq
  enter refresh m = m
  enter (refreshed none) m = m
  enter (refreshed (some xs)) m = λ i. find_item item i xs
  enter (created x) m = λ i. added (m i) (if text_eq (id x) i then some x else none)
  enter (updated key x) m = at key (λ y. x) m
  enter (removed key) m = λ i. if text_eq key i then none else m i
  enter (toggled key) m = at key (λ x. set_favorite (not (favorite x)) x) m
  enter (toggle_answered key current none) m = at key (set_favorite current) m
  enter (toggle_answered key current (some x)) m = at key (λ y. x) m
  enter (polled stats) m = absorb_all stats m

  unfoldable pub replay : List (Event A) → Table → Table
  unfolding enter
  replay [] m = m
  replay (e ∷ es) m = replay es (enter e m)

  -- The backend answers for an id with an item of that id.
  abbrev pub IsAnswer : Event A → Type 0
  IsAnswer (updated key x) = id x ≡ key
  IsAnswer (toggle_answered key current (some x)) = id x ≡ key
  IsAnswer _ = Unit {0}

  pub find-update_items :
      (key : Text) (f : A → A) (xs : List A) (i : Text)
      → ((x : A) → id x ≡ key → id (f x) ≡ key)
      → find_item item i (update_items item key f xs) ≡ at key f (λ j. find_item item j xs) i
  unfolding find_item update_items at
  find-update_items key f [] i keeps =
      if-both (λ (o : Option A). none ≡ o) (text_eq key i) {x = none} {y = none} refl refl
  find-update_items key f (x ∷ xs) i keeps = elim (Bool-cases (text_eq (id x) key)) [
    | inl mine ↦
        let id-key = text_eq-eq (id x) key mine in
        let kept = keeps x id-key in
        elim (Bool-cases (text_eq key i)) [
          | inl e ↦ rw (mine, kept, id-key, e) refl
          | inr e ↦ rw (mine, kept, id-key, e) (find-update_items key f xs i keeps ∙ rw e refl)
        ]
    | inr other ↦ elim (Bool-cases (text_eq (id x) i)) [
      | inl e ↦
          let apart : text_eq key i ≡ false =
            text_eq_sym key i ∙ ap (λ t. text_eq t key) (sym (text_eq-eq (id x) i e)) ∙ other in
          rw (other, e, apart) refl
      | inr e ↦ rw (other, e) (find-update_items key f xs i keeps)
    ]
  ]

  find-remove_items :
      (key : Text) (xs : List A) (i : Text)
      → find_item item i (remove_items item key xs)
        ≡ (if text_eq key i then none else find_item item i xs)
  unfolding find_item remove_items
  find-remove_items key [] i =
      if-both (λ (o : Option A). none ≡ o) (text_eq key i) {x = none} {y = none} refl refl
  find-remove_items key (x ∷ xs) i = elim (Bool-cases (text_eq (id x) key)) [
    | inl mine ↦ elim (Bool-cases (text_eq key i)) [
      | inl e ↦ rw (mine, e) (find-remove_items key xs i ∙ rw e refl)
      | inr e ↦ rw (mine, text_eq-eq (id x) key mine, e) (find-remove_items key xs i ∙ rw e refl)
    ]
    | inr other ↦ elim (Bool-cases (text_eq (id x) i)) [
      | inl e ↦
          let apart : text_eq key i ≡ false =
            text_eq_sym key i ∙ ap (λ t. text_eq t key) (sym (text_eq-eq (id x) i e)) ∙ other in
          rw (other, e, apart) refl
      | inr e ↦ rw (other, e) (find-remove_items key xs i)
    ]
  ]

  find-append :
      (xs : List A) (x : A) (i : Text)
      → find_item item i (xs ++ (x ∷ []))
        ≡ added (find_item item i xs) (if text_eq (id x) i then some x else none)
  unfolding find_item
  find-append [] x i = refl
  find-append (y ∷ xs) x i = elim (Bool-cases (text_eq (id y) i)) [
    | inl e ↦ rw e refl
    | inr e ↦ rw e (find-append xs x i)
  ]

  find-apply_stats :
      (ss xs : List A) (m : Table) (i : Text)
      → ((j : Text) → find_item item j xs ≡ m j)
      → find_item item i (apply_stats item ss xs) ≡ absorb_all ss m i
  unfolding apply_stats absorb_all at
  find-apply_stats [] xs m i same = same i
  find-apply_stats (s ∷ ss) xs m i same =
      find-apply_stats ss (update_items item (id s) (absorb s) xs) (at (id s) (absorb s) m) i (λ j.
        find-update_items (id s) (absorb s) xs j (λ x e. id-absorb s x ∙ e)
        ∙ ap (λ (o : Option A). if text_eq (id s) j then changed (absorb s) o else o) (same j))

  find-toggle :
      (key : Text) (xs : List A) (i : Text)
      → find_item item i (toggle item key xs)
        ≡ at key (λ x. set_favorite (not (favorite x)) x) (λ j. find_item item j xs) i
  unfolding toggle at
  find-toggle key xs i = elim (Option-cases (find_item item key xs)) [
    | inl missing ↦
        rw (missing, toggle)
          (elim (Bool-cases (text_eq key i)) [
            | inl e ↦
                let gone : find_item item i xs ≡ none =
                  ap (λ k. find_item item k xs) (sym (text_eq-eq key i e)) ∙ missing in
                rw (e, gone) refl
            | inr e ↦ rw e refl
          ])
    | inr (x, found) ↦
        let flip = set_favorite (not (favorite x)) in
        rw (found, toggle)
          (find-update_items key flip xs i (λ y e. id-set_favorite (not (favorite x)) y ∙ e)
            ∙ elim (Bool-cases (text_eq key i)) [
              | inl e ↦
                  let here : find_item item i xs ≡ some x =
                    ap (λ k. find_item item k xs) (sym (text_eq-eq key i e)) ∙ found in
                  rw (at, e, here) refl
              | inr e ↦ rw (at, e) refl
            ])
  ]

  table-step :
      (e : Event A) (s : Store A) (i : Text)
      → IsAnswer e
      → find_item item i (step item e s).items ≡ enter e (λ j. find_item item j s.items) i
  unfolding step enter toggle_answer
  table-step refresh s i h = refl
  table-step (refreshed none) s i h = refl
  table-step (refreshed (some xs)) s i h = refl
  table-step (created x) s i h = find-append s.items x i
  table-step (updated key x) s i h = find-update_items key (λ y. x) s.items i (λ y e. h)
  table-step (removed key) s i h = find-remove_items key s.items i
  table-step (toggled key) s i h = find-toggle key s.items i
  table-step (toggle_answered key current none) s i h =
      find-update_items key (set_favorite current) s.items i (λ x e. id-set_favorite current x ∙ e)
  table-step (toggle_answered key current (some x)) s i h =
      find-update_items key (λ y. x) s.items i (λ y e. h)
  table-step (polled stats) s i h = find-apply_stats stats s.items _ i (λ j. refl)

  -- Whatever the store holds and whatever happens to it in whatever order: if the backend answers for
  -- an id with an item of that id, the list shows, by ids, the table that the specification makes of the
  -- table at the start.
  pub table-run :
      (es : List (Event A)) (s : Store A)
      → All IsAnswer es
      → (λ i. find_item item i (run item es s).items) ≡ replay es (λ i. find_item item i s.items)
  unfolding run replay
  table-run [] s h = refl
  table-run (e ∷ es) s h =
      table-run es (step item e s) h.1 ∙ ap (replay es) (fun_ext (λ i. table-step e s i h.0))

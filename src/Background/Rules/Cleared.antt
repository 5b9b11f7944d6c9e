-- ===== src/Background/Rules/Cleared.antt =====
-- What the synchronization of the rules leaves.
use wisper.Prelude.{
  ℕ, ◌+◌, ◌≤◌, ◌<◌, ◌≡◌, refl, sym, ap, ◌∙◌, inl, inr, Bool, true, false, ◌&&◌, ◌||◌, List, [], ◌∷◌,
  ◌++◌, map, arith, ltb, leb, ◌==◌, if◌then◌else◌, ==_iff, Bool-cases, All,
}
use wisper.Prelude.Text.{Text}
use wisper.Background.Rules.{
  rule_id, fallback_rule_id, contains, remove_rules, remove_hostname, set_hostname, set_all, Stored,
  active_hostname, is_stale, stale_rules, sync_hostname,
}

-- The two ids of a tunnel are 10000 apart, the first from 10000 up to 19999.
pub rule_id_bounds :
    (t : Text)
    → (10000 ≤ rule_id t) × (rule_id t < 20000) × (fallback_rule_id t ≡ rule_id t + 10000)
unfolding rule_id fallback_rule_id
rule_id_bounds t = (omega arith, omega arith, omega arith)

-- The rules of others: those outside of the two ranges.
unfoldable pub is_own : ℕ → Bool
is_own r = leb 10000 r && ltb r 30000

unfoldable pub foreign : List ℕ → List ℕ
unfolding is_own
foreign [] = []
foreign (r ∷ rs) = let rest = foreign rs in if is_own r then rest else r ∷ rest

or_assoc : (a b c : Bool) → (a || b) || c ≡ a || (b || c)
or_assoc a b c = ground arith

contains-append : (r : ℕ) (is js : List ℕ) → contains r (is ++ js) ≡ contains r is || contains r js
unfolding contains
contains-append r [] js = refl
contains-append r (i ∷ is) js =
    ap (λ b. (i == r) || b) (contains-append r is js) ∙ sym (or_assoc (i == r) _ _)

-- Removing twice is removing the ids of both.
remove-remove :
    (is js rs : List ℕ) → remove_rules is (remove_rules js rs) ≡ remove_rules (is ++ js) rs
unfolding remove_rules
remove-remove is js [] = refl
remove-remove is js (r ∷ rs) = elim (Bool-cases (contains r js)) [
  | inl gone ↦ rw (contains-append r is js, gone, or_true (contains r is)) (remove-remove is js rs)
  | inr left ↦ elim (Bool-cases (contains r is)) [
    | inl gone ↦ rw (contains-append r is js, left, gone) (remove-remove is js rs)
    | inr kept ↦ rw (contains-append r is js, left, kept) (ap (λ t. r ∷ t) (remove-remove is js rs))
  ]
]
  where
    or_true : (b : Bool) → b || true ≡ true
    or_true b = ground arith

remove_none : (rs : List ℕ) → remove_rules [] rs ≡ rs
unfolding remove_rules contains
remove_none [] = refl
remove_none (r ∷ rs) = ap (λ t. r ∷ t) (remove_none rs)

==_refl : (n : ℕ) → (n == n) ≡ true
==_refl n = ground arith

-- The ids that belong to tunnels.
ids_of : List Text → List ℕ
ids_of [] = []
ids_of (t ∷ ts) = ids_of ts ++ (rule_id t ∷ fallback_rule_id t ∷ [])

set_all-remove : (ts : List Text) (rs : List ℕ) → set_all ts rs ≡ remove_rules (ids_of ts) rs
unfolding set_all set_hostname remove_hostname remove_rules ids_of
set_all-remove [] rs = sym (remove_none rs)
set_all-remove (t ∷ ts) rs =
    set_all-remove ts (remove_hostname t rs)
    ∙ remove-remove (ids_of ts) (rule_id t ∷ fallback_rule_id t ∷ []) rs

-- A tunnel's id is its first or its second.
contains-ids_of :
    (r : ℕ) (ts : List Text)
    → contains r (ids_of ts) ≡ contains r (map rule_id ts) || contains r (map fallback_rule_id ts)
unfolding contains ids_of
contains-ids_of r [] = refl
contains-ids_of r (t ∷ ts) =
    contains-append r (ids_of ts) _
    ∙ ap (λ b. b || ((rule_id t == r) || ((fallback_rule_id t == r) || false)))
        (contains-ids_of r ts)
    ∙ shuffle (contains r (map rule_id ts)) _ (rule_id t == r) (fallback_rule_id t == r)
  where
    shuffle : (a b c d : Bool) → (a || b) || (c || (d || false)) ≡ (c || a) || (d || b)
    shuffle a b c d = ground arith

and_false : (b : Bool) → (b && false) ≡ false
and_false b = ground arith

or-right : (a b : Bool) → a ≡ false → (a || b) ≡ true → b ≡ true
or-right a b wrong h = ground arith

contains-stale_rules :
    (ms fs : List ℕ) (r : ℕ) (rs : List ℕ)
    → contains r (stale_rules ms fs rs) ≡ contains r rs && is_stale ms fs r
unfolding contains stale_rules
contains-stale_rules ms fs r [] = refl
contains-stale_rules ms fs r (q ∷ rs) = elim (Bool-cases (q == r)) [
  | inl same ↦
      let q-r : q ≡ r = (==_iff q r).0 same in
      elim (Bool-cases (is_stale ms fs r)) [
        | inl old ↦ rw (q-r, old, ==_refl r) refl
        | inr new ↦
            rw (q-r, new, ==_refl r)
              (contains-stale_rules ms fs r rs
                ∙ ap (λ b. contains r rs && b) new
                ∙ and_false (contains r rs))
      ]
  | inr other ↦ elim (Bool-cases (is_stale ms fs q)) [
    | inl old ↦ rw (old, other) (contains-stale_rules ms fs r rs)
    | inr new ↦ rw (new, other) (contains-stale_rules ms fs r rs)
  ]
]

-- Ids that lie between bounds.
contains-first :
    (r : ℕ) (ts : List Text) → contains r (map rule_id ts) ≡ true → (10000 ≤ r) × (r < 20000)
unfolding contains
contains-first r [] h = absurd (cc h)
contains-first r (t ∷ ts) h = elim (Bool-cases (rule_id t == r)) [
  | inl same ↦ let b = rule_id_bounds t in ground arith
  | inr other ↦ contains-first r ts (or-right (rule_id t == r) _ other h)
]

contains-second :
    (r : ℕ) (ts : List Text)
    → contains r (map fallback_rule_id ts) ≡ true
    → (20000 ≤ r) × (r < 30000)
unfolding contains
contains-second r [] h = absurd (cc h)
contains-second r (t ∷ ts) h = elim (Bool-cases (fallback_rule_id t == r)) [
  | inl same ↦ let b = rule_id_bounds t in ground arith
  | inr other ↦ contains-second r ts (or-right (fallback_rule_id t == r) _ other h)
]

-- For a rule that is there: removed as stale, or removed for an active tunnel, exactly if it is own.
removed-is_own :
    (r : ℕ) (ts : List Text)
    → (contains r (map rule_id ts) || contains r (map fallback_rule_id ts))
        || is_stale (map rule_id ts) (map fallback_rule_id ts) r
      ≡ is_own r
unfolding is_stale is_own
removed-is_own r ts = elim (Bool-cases (contains r (map rule_id ts))) [
  | inl first ↦ let b = contains-first r ts first in ground arith
  | inr not_first ↦ elim (Bool-cases (contains r (map fallback_rule_id ts))) [
    | inl second ↦ let b = contains-second r ts second in ground arith
    | inr not_second ↦ ground arith
  ]
]

remove_rules-foreign :
    (is rs : List ℕ) → All (λ r. contains r is ≡ is_own r) rs → remove_rules is rs ≡ foreign rs
unfolding remove_rules foreign
remove_rules-foreign is [] h = refl
remove_rules-foreign is (r ∷ rs) h = rw (h.0, remove_rules-foreign is rs h.1) refl

-- What holds of everything that the list contains.
All-contains : (P : ℕ → Type 0) (rs : List ℕ) → ((r : ℕ) → contains r rs ≡ true → P r) → All P rs
unfolding contains
All-contains P [] h = tt
All-contains P (r ∷ rs) h = (
  h r (or_first (r == r) _ (==_refl r)),
  All-contains P rs (λ q there. h q (or_second (r == q) _ there)),
)
  where
    or_first : (a b : Bool) → a ≡ true → (a || b) ≡ true
    or_first a b h = ground arith

    or_second : (a b : Bool) → b ≡ true → (a || b) ≡ true
    or_second a b h = ground arith

-- Whatever tunnels are stored and whatever rules there are, the synchronization leaves exactly the rules
-- with ids outside of 10000 to 29999, in order: also the rules of active tunnels are removed, and none is
-- made.
pub sync_hostname-foreign :
    (tunnels : List Stored) (rules : List ℕ) → sync_hostname tunnels rules ≡ foreign rules
unfolding sync_hostname
sync_hostname-foreign tunnels rules =
    let ts = active_hostname tunnels in
    let stale = stale_rules (map rule_id ts) (map fallback_rule_id ts) rules in
    set_all-remove ts (remove_rules stale rules)
    ∙ remove-remove (ids_of ts) stale rules
    ∙ remove_rules-foreign (ids_of ts ++ stale) rules (
        All-contains (λ r. contains r (ids_of ts ++ stale) ≡ is_own r) rules
          (λ r there.
            contains-append r (ids_of ts) stale
            ∙ ap (λ b. b || contains r stale) (contains-ids_of r ts)
            ∙ ap (λ b. (contains r (map rule_id ts) || contains r (map fallback_rule_id ts)) || b)
                (contains-stale_rules _ _ r rules
                  ∙ ap (λ b. b && is_stale (map rule_id ts) (map fallback_rule_id ts) r) there)
            ∙ removed-is_own r ts))

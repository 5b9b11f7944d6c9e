-- ===== src/Background/Storage/Unique.antt =====
-- No tunnel is stored twice.
use wisper.Prelude.{
  ℕ, ◌+◌, ◌≤◌, ◌≡◌, refl, sym, ap, ◌∙◌, ◌⊎◌, inl, inr, Bool, true, false, List, [], ◌∷◌, arith,
  if◌then◌else◌, Bool-cases, All, if-both,
}
use wisper.Prelude.Text.{Text, codes, text_eq}
use wisper.Prelude.Text.Equal.{text_eq-eq, text_eq_sym}
use wisper.Background.Json.{
  Value, no_props, prop, Props, get, put, spread, over, IsObject, get-put, get-spread,
}
use wisper.Background.Storage.{
  is_tunnel, has_id, save_at, save, start_other, update_all, mark_stopped, mark_status, Change,
  start, stop, report, count, apply,
}
use wisper.Background.Storage.Refines.{
  IsValid, is_tunnel-has_id, is_tunnel-spread, is_tunnel-config, is_tunnel-get, is_tunnel-other,
  is_tunnel-kept, get-mark_stopped, get-mark_status, get-count, stopped_row, reported_row,
}

-- How many of the tunnels have the id.
unfoldable pub copies : Text → List Props → ℕ
unfolding is_tunnel
copies i [] = 0
copies i (t ∷ ts) = (if is_tunnel i t then 1 else 0) + copies i ts

-- Every tunnel is an object, and no two have the same id.
pub record IsStore (ts : List Props) : Type 0 where
  pub objects : All IsObject ts
  pub unique : (i : Text) → copies i ts ≤ 1

pub IsObject-put : (k : Text) (v : Value) (o : Props) → IsObject o → IsObject (put k v o)
unfolding IsObject put get
IsObject-put k v no_props h = (refl, tt)
IsObject-put k v (prop j w o) h = elim (Bool-cases (text_eq j k)) [
  | inl here ↦ rw here h
  | inr other ↦ rw other (get-put j k v o ∙ rw (text_eq_sym k j, other) h.0, IsObject-put k v o h.1)
]

IsObject-spread : (o p : Props) → IsObject o → IsObject (spread o p)
unfolding spread
IsObject-spread o no_props h = h
IsObject-spread o (prop k v p) h = IsObject-spread (put k v o) p (IsObject-put k v o h)

update_all-objects :
    (id : Text) (f : Props → Props)
    → ((t : Props) → IsObject t → IsObject (f t))
    → (ts : List Props) → All IsObject ts
    → All IsObject (update_all id f ts)
unfolding update_all
update_all-objects id f keeps [] h = tt
update_all-objects id f keeps (t ∷ ts) h =
    (if-both IsObject (is_tunnel id t) (keeps t h.0) h.0, update_all-objects id f keeps ts h.1)

copies-update_all :
    (id : Text) (f : Props → Props)
    → ((t : Props) → get (codes "tunnelId") (f t) ≡ get (codes "tunnelId") t)
    → (i : Text) (ts : List Props) → copies i (update_all id f ts) ≡ copies i ts
unfolding copies update_all
copies-update_all id f keeps i [] = refl
copies-update_all id f keeps i (t ∷ ts) =
    rw
      (
        if-both (λ x. is_tunnel i x ≡ is_tunnel i t) (is_tunnel id t)
            (is_tunnel-kept i (f t) t (keeps t)) refl,
        copies-update_all id f keeps i ts,
      )
      refl

update_all-IsStore :
    (id : Text) (f : Props → Props)
    → ((t : Props) → IsObject t → IsObject (f t))
    → ((t : Props) → get (codes "tunnelId") (f t) ≡ get (codes "tunnelId") t)
    → (ts : List Props) → IsStore ts
    → IsStore (update_all id f ts)
update_all-IsStore id f objects keeps ts h = record {
  objects = update_all-objects id f objects ts h.objects;
  unique = λ i. let same = copies-update_all id f keeps i ts in let few = h.unique i in omega arith;
}

save_at-objects :
    (test : Props → Bool) (config : Props)
    → IsObject config
    → (ts : List Props) → All IsObject ts
    → All IsObject (save_at test config ts)
unfolding save_at
save_at-objects test config c [] h = (c, tt)
save_at-objects test config c (t ∷ ts) h = elim (Bool-cases (test t)) [
  | inl here ↦ rw here (IsObject-spread t config h.0, h.1)
  | inr other ↦ rw other (h.0, save_at-objects test config c ts h.1)
]

-- A configuration whose id is no string is no tunnel of any text.
copies-save_at :
    (id : Value) (config : Props)
    → IsValid (start_other id config)
    → (i : Text) (ts : List Props) → copies i (save_at (has_id id) config ts) ≡ copies i ts
unfolding copies save_at IsValid
copies-save_at id config h i [] = rw (is_tunnel-config id config i h) refl
copies-save_at id config h i (t ∷ ts) = elim (Bool-cases (has_id id t)) [
  | inl mine ↦ rw (mine, is_tunnel-spread id t config i h, is_tunnel-has_id id t i h.2 mine) refl
  | inr yours ↦ rw (yours, copies-save_at id config h i ts) refl
]

-- Saving adds a tunnel only where there was none.
copies-save :
    (id : Text) (config : Props)
    → IsValid (start id config)
    → (i : Text) (ts : List Props)
    → (copies i (save id config ts) ≡ copies i ts)
      ⊎ ((text_eq id i ≡ true) × (copies i ts ≡ 0) × (copies i (save id config ts) ≡ 1))
unfolding copies save save_at IsValid
copies-save id config h i [] = elim (Bool-cases (text_eq id i)) [
  | inl e ↦ inr (e, refl, rw (is_tunnel-other id i config h.1, e) refl)
  | inr e ↦ inl (rw (is_tunnel-other id i config h.1, e) refl)
]
copies-save id config h i (t ∷ ts) = elim (Bool-cases (is_tunnel id t)) [
  | inl mine ↦
      let has_id = is_tunnel-get id t mine in
      let kept : is_tunnel i (spread t config) ≡ is_tunnel i t =
        is_tunnel-kept i (spread t config) t (
          get-spread (codes "tunnelId") t config h.0
          ∙ ap (λ v. over v (get (codes "tunnelId") t)) h.1
          ∙ sym has_id) in
      inl (rw (mine, kept) refl)
  | inr yours ↦ elim (copies-save id config h i ts) [
    | inl same ↦ inl (rw (yours, same) refl)
    | inr (e, gone, one) ↦
        let other : is_tunnel i t ≡ false =
          ap (λ x. is_tunnel x t) (sym (text_eq-eq id i e)) ∙ yours in
        inr (e, rw (other, gone) refl, rw (yours, other, one) refl)
  ]
]

-- Every handler's change keeps it so.
pub apply-IsStore : (c : Change) → IsValid c → (ts : List Props) → IsStore ts → IsStore (apply c ts)
unfolding apply IsValid mark_stopped mark_status text_eq stopped_row reported_row
apply-IsStore (start id config) h ts s = record {
  objects = unfold save in save_at-objects (is_tunnel id) config h.0 ts s.objects;
  unique = λ i. elim (copies-save id config h i ts) [
    | inl same ↦ let few = s.unique i in omega arith
    | inr (e, gone, one) ↦ omega arith
  ];
}
apply-IsStore (start_other id config) h ts s = record {
  objects = save_at-objects (has_id id) config h.0 ts s.objects;
  unique = λ i. let same = copies-save_at id config h i ts in let few = s.unique i in omega arith;
}
apply-IsStore (stop id) h ts s =
    update_all-IsStore id mark_stopped
      (λ t o. IsObject-put _ _ _ (IsObject-put _ _ _ (IsObject-put _ _ t o)))
      (λ t. get-mark_stopped t (codes "tunnelId")) ts s
apply-IsStore (report msg) h ts s =
    update_all-IsStore msg.tunnel_id (mark_status msg)
      (λ t o. IsObject-put _ _ _ (IsObject-put _ _ _ (IsObject-put _ _ t o)))
      (λ t. get-mark_status msg t (codes "tunnelId")) ts s
apply-IsStore (count id stats) h ts s =
    update_all-IsStore id (put (codes "stats") stats) (λ t o. IsObject-put _ _ t o)
      (λ t. get-count stats t (codes "tunnelId")) ts s

-- ===== src/Web/Polling/Agrees.antt =====
-- What a poll brings to the list of tunnels and to the map of statistics.
use wisper.Prelude.{
  ◌≡◌, refl, sym, ap, ◌∙◌, ◌⊎◌, inl, inr, Bool, false, Option, none, some, List, [], ◌∷◌,
  if◌then◌else◌, Bool-cases,
}
use wisper.Prelude.Text.{Text, text_eq}
use wisper.Prelude.Text.Equal.{text_eq-eq, text_eq_sym}
use wisper.Web.Store.{find_item, apply_stats, step}
use wisper.Web.Store.Refines.{at, find-update_items}
use wisper.Web.Items.{Tunnel, Entrypoint, tunnel_item, entrypoint_item, absorb_tunnel}
use wisper.Web.Polling.{
  Snapshot, Polling, get_stats, set_stats, collect_tunnels, collect_entrypoints, poll_answer,
}

module _ {V : Type 0} where
  get-set_stats :
      (i k : Text) (v : V) (m : List (Text × V))
      → get_stats i (set_stats k v m) ≡ (if text_eq k i then some v else get_stats i m)
  unfolding get_stats set_stats
  get-set_stats i k v [] = refl
  get-set_stats i k v ((j, w) ∷ m) = elim (Bool-cases (text_eq j k)) [
    | inl here ↦
        rw (here, text_eq-eq j k here)
          (elim (Bool-cases (text_eq k i)) [ inl e ↦ rw e refl | inr e ↦ rw e refl ])
    | inr other ↦ elim (Bool-cases (text_eq j i)) [
      | inl e ↦
          let apart : text_eq k i ≡ false =
            text_eq_sym k i ∙ ap (λ x. text_eq x k) (sym (text_eq-eq j i e)) ∙ other in
          rw (other, e, apart) refl
      | inr e ↦ rw (other, e) (get-set_stats i k v m)
    ]
  ]

  -- Looking up behind an item with another id.
  find-other :
      (s : Tunnel V) (ss : List (Tunnel V)) (i : Text) (o : Option (Tunnel V))
      → text_eq s.id i ≡ false
      → find_item tunnel_item i (s ∷ ss) ≡ o
      → find_item tunnel_item i ss ≡ o
  unfolding find_item tunnel_item
  find-other s ss i o other h =
      ap (λ (t : Bool). if t then some s else find_item tunnel_item i ss) (sym other) ∙ h

  -- A tunnel that is listed, and that the poll has or that the map agrees with.
  apply-agrees :
      (ss xs : List (Tunnel V)) (m : List (Text × V)) (i : Text) (t : Tunnel V)
      → find_item tunnel_item i xs ≡ some t
      → ((s : Tunnel V) × (find_item tunnel_item i ss ≡ some s)) ⊎ (get_stats i m ≡ some t.stats)
      → (u : Tunnel V) × (find_item tunnel_item i (apply_stats tunnel_item ss xs) ≡ some u)
        × (get_stats i (collect_tunnels ss m) ≡ some u.stats)
  unfolding apply_stats collect_tunnels tunnel_item absorb_tunnel at find_item
  apply-agrees [] xs m i t found (inl (s, h)) = absurd (cc h)
  apply-agrees [] xs m i t found (inr agree) = (t, found, agree)
  apply-agrees (s ∷ ss) xs m i t found why =
      let moved = find-update_items tunnel_item s.id (absorb_tunnel s) xs i (λ x e. e) in
      elim (Bool-cases (text_eq s.id i)) [
        | inl e ↦
            apply-agrees ss _ (set_stats s.id s.stats m) i (absorb_tunnel s t)
              (moved ∙ rw (e, found) refl) (inr (get-set_stats i s.id s.stats m ∙ rw e refl))
        | inr e ↦
            apply-agrees ss _ (set_stats s.id s.stats m) i t (moved ∙ rw (e, found) refl)
              (elim why [
                | inl (s', h) ↦ inl (s', find-other s ss i (some s') e h)
                | inr agree ↦ inr (get-set_stats i s.id s.stats m ∙ rw e agree)
              ])
      ]

  -- Entry points of other ids leave the map alone.
  collect_entrypoints-other :
      (es : List (Entrypoint V)) (m : List (Text × V)) (i : Text)
      → find_item entrypoint_item i es ≡ none
      → get_stats i (collect_entrypoints es m) ≡ get_stats i m
  unfolding collect_entrypoints find_item entrypoint_item
  collect_entrypoints-other [] m i h = refl
  collect_entrypoints-other (e ∷ es) m i h = elim (Bool-cases (text_eq e.id i)) [
    | inl same ↦
        absurd (
          cc (sym h ∙ ap (λ (t : Bool). if t then some e else find_item entrypoint_item i es) same))
    | inr other ↦
        collect_entrypoints-other es (set_stats e.id e.stats m) i
          (ap (λ (t : Bool). if t then some e else find_item entrypoint_item i es) (sym other) ∙ h)
        ∙ get-set_stats i e.id e.stats m
        ∙ rw other refl
  ]

  -- After a poll whose answer has a tunnel that is listed: it is listed still, and if no entry point of
  -- the answer has its id, the map of statistics has exactly what the list shows of it.
  pub poll_answer-agrees :
      (snapshot : Snapshot V) (p : Polling V) (i : Text) (t s : Tunnel V)
      → find_item tunnel_item i p.tunnels.items ≡ some t
      → find_item tunnel_item i snapshot.tunnels ≡ some s
      → find_item entrypoint_item i snapshot.entrypoints ≡ none
      → (u : Tunnel V) × (find_item tunnel_item i (poll_answer (some snapshot) p).tunnels.items
          ≡ some u)
        × (get_stats i (poll_answer (some snapshot) p).stats ≡ some u.stats)
  unfolding poll_answer step
  poll_answer-agrees snapshot p i t s found listed others =
      rw
        (collect_entrypoints-other snapshot.entrypoints (collect_tunnels snapshot.tunnels []) i
          others)
        (apply-agrees snapshot.tunnels p.tunnels.items [] i t found (inl (s, listed)))

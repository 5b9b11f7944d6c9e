-- ===== src/Forward/Sockets/Isolated.antt =====
-- Bridges with different stream ids do not touch each other.
use wisper.Prelude.{
  ℕ, zero, suc, ◌≡◌, refl, ap, ◌∙◌, ◌≢◌, inl, inr, true, some, List, [], ◌∷◌, map, Option-cases,
  get_elem?, All, if-both,
}
use wisper.Prelude.Text.{Text, TextCodec}
use wisper.Ws.Decoder.{push, parse}
use wisper.Forward.Sockets.{
  close_reason, code_or, Bridge, Sockets, find, write, close_backend, Event, opened, accepted,
  switched, failed, backend_closed, message, chunk, ended, fail_visitor, handle, step, run,
}
use wisper.Forward.Sockets.Keyed.{
  IsKeyed, Only, Only-trans, Only-refl, on_bridge-Only, put-Only, close_visitor-Only,
  relay_events-Only, end_relay-Only, write-id,
}

get-ids :
    (bs : List Bridge) (i : ℕ) (b : Bridge)
    → get_elem? bs i ≡ some b
    → get_elem? (map (λ (x : Bridge). x.stream_id) bs) i ≡ some b.stream_id
get-ids [] i b found = absurd (cc found)
get-ids (x ∷ bs) zero b found =
    let x-b : x ≡ b = cc found in ap (λ y. some (Bridge.stream_id y)) x-b
get-ids (x ∷ bs) (suc i) b found = get-ids bs i b found

module _ (codec : TextCodec) where
  fail_visitor-id :
      (reason : Text) (b : Bridge) → (fail_visitor codec reason b).stream_id ≡ b.stream_id
  unfolding fail_visitor
  fail_visitor-id reason b =
      if-both (λ (x : Bridge). x.stream_id ≡ b.stream_id) b.responded refl
        (write-id _ (record b { responded = true }))

  handle-Only :
      (i : ℕ) (b : Bridge) (e : Event) (s : Sockets)
      → get_elem? s.bridges i ≡ some b
      → IsKeyed s
      → Only i s (handle codec i b e s)
  unfolding handle
  handle-Only i b opened s at h =
      let entered = put-Only i b.stream_id s (get-ids s.bridges i b at) h in
      Only-trans entered (on_bridge-Only i _ _ (λ c. refl) entered.keyed)
  handle-Only i b (accepted accept) s at h =
      if-both (Only i s) b.closed (on_bridge-Only i close_backend s (λ c. refl) h)
        (on_bridge-Only i (write _) s (write-id _) h)
  handle-Only i b switched s at h = on_bridge-Only i _ s (λ c. refl) h
  handle-Only i b failed s at h =
      let shut = close_visitor-Only i b.stream_id 1011 s h in
      Only-trans shut (on_bridge-Only i _ _ (λ c. fail_visitor-id _ (close_backend c)) shut.keyed)
  handle-Only i b (backend_closed code) s at h =
      let shut = close_visitor-Only i b.stream_id (code_or code) s h in
      Only-trans shut (
        on_bridge-Only i (λ c. fail_visitor codec (close_reason code c) (close_backend c)) _
          (λ c. fail_visitor-id (close_reason code c) (close_backend c)) shut.keyed)
  handle-Only i b (message is_text payload) s at h =
      elim (Option-cases (find b.stream_id s.active)) [
        | inl missing ↦ rw (missing, handle) (Only-refl h)
        | inr (k, found) ↦ rw (found, handle) (on_bridge-Only i (write _) s (write-id _) h)
      ]
  handle-Only i b (chunk bytes) s at h =
      let fed =
        on_bridge-Only i (λ c. record c { decoder = (parse (push bytes b.decoder)).1 }) s
          (λ c. refl) h in
      if-both (Only i s) b.relaying
        (Only-trans fed (
          relay_events-Only codec i b.stream_id (parse (push bytes b.decoder)).0 _
            (ap (λ ns. get_elem? ns i) fed.ids_same ∙ get-ids s.bridges i b at) fed.keyed))
        (Only-refl h)
  handle-Only i b ended s at h =
      if-both (Only i s) b.relaying (end_relay-Only i b.stream_id s (get-ids s.bridges i b at) h)
        (Only-refl h)

  step-Only : (i : ℕ) (e : Event) (s : Sockets) → IsKeyed s → Only i s (step codec (i, e) s)
  unfolding step
  step-Only i e s h = elim (Option-cases (get_elem? s.bridges i)) [
    | inl missing ↦ rw (missing, step) (Only-refl h)
    | inr (b, found) ↦ rw (found, step) (handle-Only i b e s found h)
  ]

  -- Where no two bridges have the same stream id: events of other bridges, in any order, leave a bridge
  -- as it is. Nothing of theirs is sent to its backend or written to its visitor.
  pub run-isolated :
      (es : List (ℕ × Event)) (k : ℕ) (s : Sockets)
      → All (λ e. k ≢ e.0) es
      → IsKeyed s
      → get_elem? (run codec es s).bridges k ≡ get_elem? s.bridges k
  unfolding run
  run-isolated [] k s apart h = refl
  run-isolated (e ∷ es) k s apart h =
      let one = step-Only e.0 e.1 s h in
      run-isolated es k (step codec e s) apart.1 one.keyed ∙ one.others k apart.0

-- ===== src/Smux/Session/Feed.antt =====
-- `feed` takes the transport's messages apart into frames, however the bytes are cut into messages.
use wisper.Prelude.{
  ℕ, zero, suc, ◌+◌, ◌≤◌, ◌≡◌, refl, sym, ap, ◌∙◌, inl, inr, Bool, false, none, some, [], ◌∷◌, ◌++◌,
  append_assoc, arith, if◌then◌else◌, Option-cases, length, length-append, length-drop,
  take-append_le, drop-append_le, Bytes, get_u16_le,
}
use wisper.Smux.Frame.{Frame, next_frame}
use wisper.Smux.Session.{Mux, SmuxServer, dispatch, process_frames, feed}

-- A whole frame takes its header at least.
pub next_frame-shorter :
    (b : Bytes) (f : Frame) (rest : Bytes)
    → next_frame b ≡ some (f, rest)
    → length rest + 8 ≤ length b
unfolding next_frame
next_frame-shorter (ver ∷ cmd ∷ l0 ∷ l1 ∷ s0 ∷ s1 ∷ s2 ∷ s3 ∷ more) f rest e =
    ground (arith, length-drop (get_u16_le l0 l1) more)
next_frame-shorter _ f rest e = cc

-- Bytes behind a whole frame do not change it.
pub next_frame-append :
    (b c : Bytes) (f : Frame) (rest : Bytes)
    → next_frame b ≡ some (f, rest)
    → next_frame (b ++ c) ≡ some (f, rest ++ c)
unfolding next_frame
next_frame-append (ver ∷ cmd ∷ l0 ∷ l1 ∷ s0 ∷ s1 ∷ s2 ∷ s3 ∷ more) c f rest e = ground (
  arith,
  length-append more c,
  take-append_le (get_u16_le l0 l1) more c,
  drop-append_le (get_u16_le l0 l1) more c,
)
next_frame-append _ c f rest e = cc

module _ (on_stream : ℕ → Mux → Mux) where
  -- The loop without its clock: what it does to the streams, and the bytes that it leaves.
  drain : ℕ → Mux → Bytes → Mux × Bytes
  drain zero m b = (m, b)
  drain (suc fuel) m b = elim (next_frame b) [
    | none ↦ (m, b)
    | some (f, rest) ↦ drain fuel (dispatch on_stream f m) rest
  ]

  drain_stop : (fuel : ℕ) (m : Mux) (b : Bytes) → next_frame b ≡ none → drain fuel m b ≡ (m, b)
  unfolding drain
  drain_stop zero m b e = refl
  drain_stop (suc fuel) m b e = rw (e, drain)

  drain_more :
      (fuel : ℕ) (m : Mux) (b : Bytes) {f : Frame} {rest : Bytes}
      → next_frame b ≡ some (f, rest)
      → drain (suc fuel) m b ≡ drain fuel (dispatch on_stream f m) rest
  unfolding drain
  drain_more fuel m b e = rw (e, drain)

  process_frames-drain :
      (fuel now : ℕ) (s : SmuxServer)
      → ((process_frames on_stream fuel now s).mux ≡ (drain fuel s.mux s.buffer).0)
        × ((process_frames on_stream fuel now s).buffer ≡ (drain fuel s.mux s.buffer).1)
  unfolding process_frames
  process_frames-drain zero now s = unfold drain in (refl, refl)
  process_frames-drain (suc fuel) now s = elim (Option-cases (next_frame s.buffer)) [
    | inl stop ↦ rw (drain_stop (suc fuel) s.mux s.buffer stop, stop, process_frames) (refl, refl)
    | inr ((f, rest), more) ↦
        rw (drain_more fuel s.mux s.buffer more, more, process_frames)
          (process_frames-drain fuel now
            (record { mux = dispatch on_stream f s.mux; buffer = rest; last_recv_at = now }))
  ]

  -- With fuel for every byte the loop stops where no whole frame is left.
  drain_ends :
      (fuel : ℕ) (m : Mux) (b : Bytes) → length b ≤ fuel → next_frame (drain fuel m b).1 ≡ none
  drain_ends zero m [] h = unfold drain next_frame in refl
  drain_ends zero m (x ∷ b) h = absurd (omega arith)
  drain_ends (suc fuel) m b h = elim (Option-cases (next_frame b)) [
    | inl stop ↦ rw (drain_stop (suc fuel) m b stop) stop
    | inr ((f, rest), more) ↦ rw (drain_more fuel m b more) (
        drain_ends fuel (dispatch on_stream f m) rest
          (omega (arith, next_frame-shorter b f rest more)))
  ]

  drain_fuel :
      (n k : ℕ) (m : Mux) (b : Bytes) → length b ≤ n → length b ≤ k → drain n m b ≡ drain k m b
  drain_fuel zero k m [] p q =
      drain_stop zero m [] (unfold next_frame in refl)
      ∙ sym (drain_stop k m [] (unfold next_frame in refl))
  drain_fuel zero k m (x ∷ b) p q = absurd (omega arith)
  drain_fuel (suc n) zero m (x ∷ b) p q = absurd (omega arith)
  drain_fuel (suc n) zero m [] p q =
      drain_stop (suc n) m [] (unfold next_frame in refl)
      ∙ sym (drain_stop zero m [] (unfold next_frame in refl))
  drain_fuel (suc n) (suc k) m b p q = elim (Option-cases (next_frame b)) [
    | inl stop ↦ drain_stop (suc n) m b stop ∙ sym (drain_stop (suc k) m b stop)
    | inr ((f, rest), more) ↦
        let shorter = next_frame-shorter b f rest more in
        drain_more n m b more
        ∙ drain_fuel n k (dispatch on_stream f m) rest (omega arith) (omega arith)
        ∙ sym (drain_more k m b more)
  ]

  -- Draining a first part and then the rest is draining all at once.
  drain-append :
      (fuel fuel' total : ℕ) (m : Mux) (b c : Bytes)
      → length b ≤ fuel
      → length ((drain fuel m b).1 ++ c) ≤ fuel'
      → length (b ++ c) ≤ total
      → drain total m (b ++ c) ≡ drain fuel' (drain fuel m b).0 ((drain fuel m b).1 ++ c)
  drain-append zero fuel' total m [] c h h' t = unfold drain in drain_fuel total fuel' m c t h'
  drain-append zero fuel' total m (x ∷ b) c h h' t = absurd (omega arith)
  drain-append (suc n) fuel' total m b c h h' t = elim (Option-cases (next_frame b)) [
    | inl stop ↦
        rw (drain_stop (suc n) m b stop)
          (drain_fuel total fuel' m (b ++ c) t (rw (drain_stop (suc n) m b stop) at h'))
    | inr ((f, rest), more) ↦ rw (drain_more n m b more) (
        drain_fuel total (suc (length (b ++ c))) m (b ++ c) t (omega arith)
        ∙ drain_more (length (b ++ c)) m (b ++ c) (next_frame-append b c f rest more)
        ∙ drain-append n fuel' (length (b ++ c)) (dispatch on_stream f m) rest c
            (omega (arith, next_frame-shorter b f rest more)) (rw (drain_more n m b more) at h')
            (omega
              (arith, next_frame-shorter b f rest more, length-append b c, length-append rest c)))
  ]

  feed_open :
      (now : ℕ) (payload : Bytes) (s : SmuxServer)
      → s.mux.closed ≡ false
      → feed on_stream now payload s
        ≡ process_frames on_stream
            (length (s.buffer ++ payload))
            now
            (record s { buffer = s.buffer ++ payload })
  unfolding feed
  feed_open now payload s opened =
      ap
        (λ (t : Bool).
          if t
          then s
          else process_frames on_stream (length (s.buffer ++ payload)) now
              (record s { buffer = s.buffer ++ payload }))
        opened

  feed-drain :
      (now : ℕ) (payload : Bytes) (s : SmuxServer)
      → s.mux.closed ≡ false
      → ((feed on_stream now payload s).mux
          ≡ (drain (length (s.buffer ++ payload)) s.mux (s.buffer ++ payload)).0)
        × ((feed on_stream now payload s).buffer
            ≡ (drain (length (s.buffer ++ payload)) s.mux (s.buffer ++ payload)).1)
  feed-drain now payload s opened = rw (feed_open now payload s opened) (
      process_frames-drain (length (s.buffer ++ payload)) now
        (record s { buffer = s.buffer ++ payload }))

  -- `feed` on a session that is not closed goes on until no whole frame is left in the buffer.
  pub feed_exhausts :
      (now : ℕ) (payload : Bytes) (s : SmuxServer)
      → s.mux.closed ≡ false
      → next_frame (feed on_stream now payload s).buffer ≡ none
  feed_exhausts now payload s opened =
      rw (feed-drain now payload s opened).1
        (drain_ends (length (s.buffer ++ payload)) s.mux (s.buffer ++ payload) (omega arith))

  -- If the session is open before and after the first of two messages, then feeding the messages one
  -- after the other, whatever the clock says, has the effect on the streams of feeding their bytes as
  -- one message, and leaves the same bytes in the buffer.
  pub feed-append :
      (now now' now'' : ℕ) (a b : Bytes) (s : SmuxServer)
      → s.mux.closed ≡ false
      → (feed on_stream now a s).mux.closed ≡ false
      → ((feed on_stream now' b (feed on_stream now a s)).mux
          ≡ (feed on_stream now'' (a ++ b) s).mux)
        × ((feed on_stream now' b (feed on_stream now a s)).buffer
            ≡ (feed on_stream now'' (a ++ b) s).buffer)
  feed-append now now' now'' a b s opened still =
      let first = feed-drain now a s opened in
      let second = feed-drain now' b (feed on_stream now a s) still in
      let whole = feed-drain now'' (a ++ b) s opened in
      let seam =
        drain-append (length (s.buffer ++ a)) (length ((feed on_stream now a s).buffer ++ b))
          (length ((s.buffer ++ a) ++ b)) s.mux (s.buffer ++ a) b (omega arith)
          (rw first.1 (omega arith)) (omega arith) in
      let joined = rw (← first.0, ← first.1, append_assoc) at seam in
      (
        second.0 ∙ ap (λ p. p.0) (sym joined) ∙ sym whole.0,
        second.1 ∙ ap (λ p. p.1) (sym joined) ∙ sym whole.1,
      )

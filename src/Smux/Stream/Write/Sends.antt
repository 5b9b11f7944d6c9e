-- ===== src/Smux/Stream/Write/Sends.antt =====
-- What a run of `_writeSync` sends, and how it ends.
use wisper.Prelude.{
  ℕ, zero, suc, ◌+◌, ◌-◌, ◌≤◌, ◌≡◌, refl, sym, ap, ◌∙◌, ◌≢◌, inl, inr, true, false, ◌||◌, List, [],
  ◌∷◌, ◌++◌, append-nil, append_assoc, arith, Bool-cases, length, take, drop, All, length-append,
  take-append-drop, length-take, length-drop, Bytes,
}
use wisper.Prelude.Int.{is_positive}
use wisper.Smux.Frame.{cmd_psh}
use wisper.Smux.Stream.{
  writer_idle, writer_blocked, StreamState, Out, out_frame, out_remove, write_win,
}
use wisper.Smux.Stream.Write.{
  max_frame_size, Outcome, finished, blocked, failed, out_of_fuel, chunk_len, wrote, write_loop,
  write_sync,
}

-- The data bytes of what a stream asks its session to send, in order.
unfoldable pub sent : List Out → Bytes
sent [] = []
sent (out_frame cmd payload ∷ outs) = payload ++ sent outs
sent (out_remove ∷ outs) = sent outs

-- The data that a run leaves for later.
unfoldable pub unsent : Outcome → Bytes
unsent finished = []
unsent (blocked rest) = rest
unsent failed = []
unsent out_of_fuel = []

-- A PSH frame with 1 to 32768 bytes of data.
abbrev pub IsChunk : Out → Type 0
IsChunk (out_frame cmd payload) =
    (cmd ≡ cmd_psh) × (1 ≤ length payload) × (length payload ≤ max_frame_size)
IsChunk out_remove = ⊥

-- The run ended because all was sent, or it waits because the window is used up.
abbrev pub Ends : Outcome → StreamState → Type 0
Ends finished st = Unit {0}
Ends (blocked rest) st =
    (st.peer_window + st.peer_consumed ≤ st.num_written)
    × (st.writer ≡ writer_blocked)
    × (rest ≢ [])
Ends failed st = ⊥
Ends out_of_fuel st = ⊥

-- What holds of a run on `payload` that began in `st`.
pub record Sends (payload : Bytes) (st : StreamState) (r : StreamState × List Out × Outcome)
    : Type 0 where
  pub in_order : sent r.1 ++ unsent r.2 ≡ payload
  pub counted : r.0.num_written ≡ st.num_written + length (sent r.1)
  pub in_window :
      r.0.num_written ≤ st.num_written + (st.peer_window + st.peer_consumed - st.num_written)
  pub chunks : All IsChunk r.1
  pub ends : Ends r.2 r.0
  pub same_window : (r.0.peer_window ≡ st.peer_window) × (r.0.peer_consumed ≡ st.peer_consumed)

module _ (b : ℕ) (bs : Bytes) (st : StreamState) where
  abbrev n : ℕ
  n = chunk_len st (b ∷ bs)

  -- With an open window a chunk is not empty, and fits the data, the frame and the window.
  chunk_fits :
      is_positive (write_win st) ≡ true
      → (1 ≤ n)
        × (n ≤ length (b ∷ bs))
        × (n ≤ max_frame_size)
        × (n + st.num_written ≤ st.peer_window + st.peer_consumed)
  chunk_fits open_window = ground arith

  length-chunk : is_positive (write_win st) ≡ true → length (take n (b ∷ bs)) ≡ n
  length-chunk open_window = omega (arith, chunk_fits open_window, length-take n (b ∷ bs))

  -- One round of the loop that sends.
  round-Sends :
      (r : StreamState × List Out × Outcome)
      → is_positive (write_win st) ≡ true
      → Sends (drop n (b ∷ bs)) (wrote n st) r
      → Sends (b ∷ bs) st (r.0, out_frame cmd_psh (take n (b ∷ bs)) ∷ r.1, r.2)
  unfolding sent
  round-Sends r open_window s =
      let fits = chunk_fits open_window in
      let size = length-chunk open_window in
      record {
        in_order =
            append_assoc (take n (b ∷ bs)) (sent r.1) (unsent r.2)
            ∙ ap (λ t. take n (b ∷ bs) ++ t) s.in_order
            ∙ take-append-drop n (b ∷ bs);
        counted = omega (arith, length-append (take n (b ∷ bs)) (sent r.1));
        in_window = omega arith;
        chunks = ((refl, omega arith, omega arith), s.chunks);
        ends = s.ends;
        same_window = s.same_window;
      }

write_loop-Sends :
    (fuel : ℕ) (payload : Bytes) (st : StreamState)
    → length payload ≤ fuel
    → (st.closed || st.remote_closed) ≡ false
    → Sends payload st (write_loop fuel payload st)
unfolding write_loop sent unsent
write_loop-Sends fuel [] st h over = record {
  in_order = refl;
  counted = omega arith;
  in_window = omega arith;
  chunks = tt;
  ends = tt;
  same_window = (refl, refl);
}
write_loop-Sends zero (b ∷ bs) st h over = absurd (omega arith)
write_loop-Sends (suc fuel) (b ∷ bs) st h over = elim (Bool-cases (is_positive (write_win st))) [
  | inl open_window ↦
      rw (over, open_window)
        (round-Sends b bs st _ open_window (
          write_loop-Sends fuel (drop (n b bs st) (b ∷ bs)) (wrote (n b bs st) st)
            (omega (arith, chunk_fits b bs st open_window, length-drop (n b bs st) (b ∷ bs))) over))
  | inr shut ↦
      rw (over, shut)
        (record {
          in_order = refl;
          counted = omega arith;
          in_window = omega arith;
          chunks = tt;
          ends = (ground arith, refl, λ e. cc);
          same_window = (refl, refl);
        })
]

-- A run of `_writeSync` on an open stream sends a first part of the data, in order, in PSH frames of
-- 1 to 32768 bytes, counts every byte of it, never passes the window, and always ends: by having
-- sent all, or waiting with the rest where the window is used up.
pub write_sync-Sends :
    (payload : Bytes) (st : StreamState)
    → (st.closed || st.remote_closed) ≡ false
    → Sends payload st (write_sync payload st)
unfolding write_sync
write_sync-Sends payload st over =
    let s =
      write_loop-Sends (length payload) payload (record st { writer = writer_idle }) (omega arith)
        over in
    rw over (record {
      in_order = s.in_order;
      counted = s.counted;
      in_window = s.in_window;
      chunks = s.chunks;
      ends = s.ends;
      same_window = s.same_window;
    })

finishes_from :
    (payload : Bytes) (st : StreamState) (r : StreamState × List Out × Outcome)
    → Sends payload st r
    → st.num_written + length payload ≤ st.peer_window + st.peer_consumed
    → (r.2 ≡ finished) × (sent r.1 ≡ payload)
unfolding unsent
finishes_from payload st (st', outs, finished) s room =
    (refl, sym (append-nil (sent outs)) ∙ s.in_order)
finishes_from payload st (st', outs, blocked []) s room = absurd (s.ends.2 refl)
finishes_from payload st (st', outs, blocked (b ∷ bs)) s room =
    absurd (omega (arith, ap length s.in_order, length-append (sent outs) (b ∷ bs)))
finishes_from payload st (st', outs, failed) s room = absurd s.ends
finishes_from payload st (st', outs, out_of_fuel) s room = absurd s.ends

-- Where the window has room for all of the data, a run of `_writeSync` on an open stream does not
-- wait: it finishes, and what it has sent is the data.
pub write_sync-finishes :
    (payload : Bytes) (st : StreamState)
    → (st.closed || st.remote_closed) ≡ false
    → st.num_written + length payload ≤ st.peer_window + st.peer_consumed
    → ((write_sync payload st).2 ≡ finished) × (sent (write_sync payload st).1 ≡ payload)
write_sync-finishes payload st over room =
    finishes_from payload st (write_sync payload st) (write_sync-Sends payload st over) room

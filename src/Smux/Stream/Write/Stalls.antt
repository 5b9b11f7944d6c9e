-- ===== src/Smux/Stream/Write/Stalls.antt =====
-- The count of written bytes has no bound, but the peer's count of consumed bytes has 32 bits.
use wisper.Prelude.{ℕ, ◌+◌, ◌^◌, ◌≤◌, ◌<◌, ◌≡◌, refl, false, ◌||◌, [], ◌∷◌, arith, Bytes}
use wisper.Prelude.Int.{is_positive}
use wisper.Smux.Stream.{StreamState, write_win, peer_update}
use wisper.Smux.Stream.Write.{blocked, write_loop, write_sync}

-- The window stays shut, whatever the peer reports.
shut :
    (consumed window : ℕ) (st : StreamState)
    → consumed < 2 ^ 32
    → 2 ^ 32 + window ≤ st.num_written + 1
    → is_positive (write_win (record st { peer_consumed = consumed; peer_window = window })) ≡ false
shut consumed window st h over = ground arith

peer_update-shut :
    (consumed window : ℕ) (st : StreamState)
    → consumed < 2 ^ 32
    → 2 ^ 32 + window ≤ st.num_written + 1
    → peer_update consumed window st ≡ record st { peer_consumed = consumed; peer_window = window }
unfolding peer_update
peer_update-shut consumed window st h over = rw (shut consumed window st h over)

-- After 2 ^ 32 + window - 1 bytes, a report of the peer, which counts modulo 2 ^ 32, never opens the
-- window again: a write that follows sends nothing and waits with all of its data.
pub write_sync-stalls :
    (consumed window b : ℕ) (bs : Bytes) (st : StreamState)
    → (st.closed || st.remote_closed) ≡ false
    → consumed < 2 ^ 32
    → 2 ^ 32 + window ≤ st.num_written + 1
    → ((write_sync (b ∷ bs) (peer_update consumed window st)).1 ≡ [])
      × ((write_sync (b ∷ bs) (peer_update consumed window st)).2 ≡ blocked (b ∷ bs))
unfolding write_sync write_loop
write_sync-stalls consumed window b bs st opened h over =
    rw (peer_update-shut consumed window st h over, opened, shut consumed window st h over)
      (refl, refl)

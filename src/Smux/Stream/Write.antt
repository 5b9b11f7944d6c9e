-- ===== src/Smux/Stream/Write.antt =====
-- The writer of a stream: `_writeSync`, and the jobs that `write` and `close` chain on `_writeTail`.
pub mod Sends
pub mod Drains
pub mod Stalls
use wisper.Prelude.{
  ℕ, zero, suc, ◌+◌, min, true, not, ◌||◌, List, [], ◌∷◌, if◌then◌else◌, length, take, drop, Bytes,
}
use wisper.Prelude.Int.{pos_part, is_positive}
use wisper.Smux.Frame.{cmd_fin, cmd_psh}
use wisper.Smux.Stream.{
  Writer, writer_idle, writer_blocked, Job, write_job, close_job, StreamState, Out, out_frame,
  out_remove, write_win,
}

abbrev pub max_frame_size : ℕ
max_frame_size = 32768

-- How a run of the loop of `_writeSync` ends: all data sent, waiting for the window with the rest of
-- the data, or by `throw new Error('stream closed')`. `out_of_fuel` is no outcome of the program.
pub data Outcome : Type 0 where
  finished : Outcome
  blocked : Bytes → Outcome
  failed : Outcome
  out_of_fuel : Outcome

-- `Math.min(win, remaining, MAX_FRAME_SIZE)`, for a positive window
abbrev pub chunk_len : StreamState → Bytes → ℕ
chunk_len st rest = min (pos_part (write_win st)) (min (length rest) max_frame_size)

-- The stream after one PSH frame of `n` bytes.
abbrev pub wrote : ℕ → StreamState → StreamState
wrote n st = record st { num_written = st.num_written + n }

-- The loop `while (offset < data.length)` on the data from `offset` on, up to the next `await`.
-- Each round sends a byte at least, so the length of the data is fuel enough.
unfoldable pub write_loop : ℕ → Bytes → StreamState → StreamState × List Out × Outcome
write_loop fuel [] st = (st, [], finished)
write_loop zero (b ∷ bs) st = (st, [], out_of_fuel)
write_loop (suc fuel) (b ∷ bs) st =
    let n = chunk_len st (b ∷ bs) in
    let again = write_loop fuel (drop n (b ∷ bs)) (wrote n st) in
    if st.closed || st.remote_closed
    then (st, [], failed)
    else if not (is_positive (write_win st))
    then (record st { writer = writer_blocked }, [], blocked (b ∷ bs))
    else (again.0, out_frame cmd_psh (take n (b ∷ bs)) ∷ again.1, again.2)

-- `_writeSync(data)` from its start, or from its `await` with the data that is left.
unfoldable pub write_sync : Bytes → StreamState → StreamState × List Out × Outcome
unfolding write_loop
write_sync payload st =
    let awake = record st { writer = writer_idle } in
    if st.closed || st.remote_closed
    then (awake, [], failed)
    else write_loop (length payload) payload awake

-- What is left of the tail after a run of its first job. A failure is swallowed by `.catch`.
unfoldable pub tail_after : Outcome → List Job → List Job
tail_after finished later = later
tail_after (blocked rest) later = write_job rest ∷ later
tail_after failed later = later
tail_after out_of_fuel later = later

unfoldable pub run_job : List Job → StreamState → StreamState × List Out
unfolding write_sync tail_after
run_job [] st = (st, [])
run_job (close_job ∷ later) st =
    (record st { closed = true; write_tail = later }, out_frame cmd_fin [] ∷ out_remove ∷ [])
run_job (write_job payload ∷ later) st =
    let (st', outs, outcome) = write_sync payload st in
    (record st' { write_tail = tail_after outcome later }, outs)

unfoldable pub run_unless_blocked : Writer → StreamState → StreamState × List Out
unfolding run_job
run_unless_blocked writer_blocked st = (st, [])
run_unless_blocked _ st = run_job st.write_tail st

-- The event loop runs the first job of the tail, unless that job waits for the window.
unfoldable pub advance : StreamState → StreamState × List Out
unfolding run_unless_blocked
advance st = run_unless_blocked st.writer st

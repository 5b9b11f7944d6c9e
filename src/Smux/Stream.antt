-- ===== src/Smux/Stream.antt =====
-- The class `StreamState` of smux.js and the stream's side of `Stream`: what each does to the state
-- of one stream, and what it hands to the session to send.
--   A promise's resolver is a flag that says whether one is pending. Resolving it moves the value
-- to `resumed`, the continuations that the event loop has still to run, in order.
pub mod Write
pub mod Read
use wisper.Prelude.{
  ℕ, zero, suc, ◌+◌, ◌-◌, ◌*◌, ◌/◌, ◌%◌, ◌^◌, ◌≤◌, ◌<◌, min, ◌≡◌, refl, sym, ap, ◌∙◌, ◌≢◌, ◌↔◌, ◌⊎◌,
  inl, inr, Bool, true, false, not, ◌&&◌, ◌||◌, Option, none, some, List, [], ◌∷◌, ◌++◌, map,
  append-nil, append_assoc, arith, ltb, leb, ◌==◌, if◌then◌else◌, ==_iff, Bool-cases, Option-cases,
  length, get_elem?, get_or, set, take, drop, All, concat, length-append, take-append-drop,
  length-take, length-drop, take-append_left, drop-append_left, take-append_le, drop-append_le,
  All-append, Bytes, IsByte, u8, u16_be, get_u16_be, u16_le, get_u16_le, u32_le, get_u32_le,
  get_u16_be-u16_be, get_u16_le-u16_le, get_u32_le-u32_le,
}
use wisper.Prelude.Int.{ℤ, sub_ℕ, is_positive}
use wisper.Smux.Frame.{cmd_fin, cmd_psh, cmd_upd, upd_payload}

abbrev pub initial_peer_window : ℕ
initial_peer_window = 262144

abbrev pub max_stream_buffer : ℕ
max_stream_buffer = 1048576

-- `MAX_STREAM_BUFFER >> 1`
abbrev pub upd_threshold : ℕ
upd_threshold = 524288

-- The slot `_writeResolve`: empty, pending, or resolved with its continuation still to run.
pub data Writer : Type 0 where
  writer_idle writer_blocked writer_resumed : Writer

-- What is chained onto `_writeTail`: the rest of a write's data, or the end of a graceful close.
pub data Job : Type 0 where
  write_job : Bytes → Job
  close_job : Job

pub record StreamState : Type 0 where
  pub id : ℕ
  pub read_queue : List Bytes
  pub read_resolve : Bool
  pub resumed : List (Option Bytes)
  pub writer : Writer
  pub closed : Bool
  pub closing : Bool
  pub remote_closed : Bool
  pub num_read : ℕ
  pub upd_incr : ℕ
  pub num_written : ℕ
  pub peer_consumed : ℕ
  pub peer_window : ℕ
  pub write_tail : List Job

-- `new StreamState(id, session)`
abbrev pub new_stream : ℕ → StreamState
new_stream id = record {
  id = id;
  read_queue = [];
  read_resolve = false;
  resumed = [];
  writer = writer_idle;
  closed = false;
  closing = false;
  remote_closed = false;
  num_read = 0;
  upd_incr = 0;
  num_written = 0;
  peer_consumed = 0;
  peer_window = initial_peer_window;
  write_tail = [];
}

-- What a stream asks of its session: `_sendFrame(cmd, id, payload)`, or `_removeStream(id)`.
pub data Out : Type 0 where
  out_frame : ℕ → Bytes → Out
  out_remove : Out

-- `if (st._readResolve) { st._readResolve(value); st._readResolve = null; }`
unfoldable pub resolve_read : Option Bytes → StreamState → StreamState
resolve_read value st =
    if st.read_resolve
    then record st { read_resolve = false; resumed = st.resumed ++ (value ∷ []) }
    else st

unfoldable pub wake : Writer → Writer
wake writer_blocked = writer_resumed
wake w = w

-- `if (st._writeResolve) { st._writeResolve(); st._writeResolve = null; }`
unfoldable pub resolve_write : StreamState → StreamState
unfolding wake
resolve_write st = record st { writer = wake st.writer }

-- `_pushData`
unfoldable pub push_data : Bytes → StreamState → StreamState
unfolding resolve_read
push_data chunk st =
    if st.closed
    then st
    else if st.read_resolve
    then resolve_read (some chunk) st
    else record st { read_queue = st.read_queue ++ (chunk ∷ []) }

-- `_handleFin`, on the stream that it found
unfoldable pub remote_fin : StreamState → StreamState
unfolding resolve_read resolve_write
remote_fin st = resolve_write (resolve_read none (record st { remote_closed = true }))

-- `_writeWin`: peerWindow - (numWritten - peerConsumed), which may be negative.
abbrev pub write_win : StreamState → ℤ
write_win st = sub_ℕ (st.peer_window + st.peer_consumed) st.num_written

-- `_handleUpd`, on the stream that it found: both counters are replaced.
unfoldable pub peer_update : ℕ → ℕ → StreamState → StreamState
unfolding resolve_write
peer_update consumed window st =
    let st' = record st { peer_consumed = consumed; peer_window = window } in
    if is_positive (write_win st') then resolve_write st' else st'

-- `_accountRead`: credit for a chunk that was read out.
unfoldable pub account_read : Bytes → StreamState → StreamState × List Out
account_read chunk st =
    let num_read = st.num_read + length chunk in
    let upd_incr = st.upd_incr + length chunk in
    if num_read == length chunk || leb upd_threshold upd_incr
    then (
      record st { num_read = num_read; upd_incr = 0 },
      out_frame cmd_upd (upd_payload num_read max_stream_buffer) ∷ [],
    )
    else (record st { num_read = num_read; upd_incr = upd_incr }, [])

-- What a call of `read()` has done when it returns: a chunk, the end of the stream, or a promise
-- that waits.
pub data ReadResult : Type 0 where
  chunk : Bytes → ReadResult
  eof : ReadResult
  pending : ReadResult

read_queued : List Bytes → StreamState → StreamState × List Out × ReadResult
unfolding account_read
read_queued (c ∷ rest) st =
    let (st', outs) = account_read c (record st { read_queue = rest }) in (st', outs, chunk c)
read_queued [] st =
    if st.remote_closed then (st, [], eof) else (record st { read_resolve = true }, [], pending)

-- `read()`, up to its first `await`
unfoldable pub read : StreamState → StreamState × List Out × ReadResult
unfolding read_queued
read st = if st.closed then (st, [], eof) else read_queued st.read_queue st

resume_with : List (Option Bytes) → StreamState → StreamState × List Out × ReadResult
unfolding account_read
resume_with (some c ∷ rest) st =
    let (st', outs) = account_read c (record st { resumed = rest }) in (st', outs, chunk c)
resume_with (none ∷ rest) st = (record st { resumed = rest }, [], eof)
resume_with [] st = (st, [], pending)

-- `read()` behind its `await`: the continuation of the oldest resolved promise.
unfoldable pub resume_read : StreamState → StreamState × List Out × ReadResult
unfolding resume_with
resume_read st = resume_with st.resumed st

-- `write(data)`: true where the data was chained onto the tail, false where it was rejected.
unfoldable pub write : Bytes → StreamState → StreamState × Bool
write payload st =
    if st.closed || st.closing || st.remote_closed
    then (st, false)
    else (record st { write_tail = st.write_tail ++ (write_job payload ∷ []) }, true)

-- `close(force)`
unfoldable pub close : Bool → StreamState → StreamState × List Out
unfolding resolve_read resolve_write
close force st =
    if st.closed
    then (st, [])
    else if force
    then (
      resolve_write (resolve_read none (record st { closed = true })),
      out_frame cmd_fin [] ∷ out_remove ∷ [],
    )
    else (
      record (resolve_write (resolve_read none (record st { closing = true }))) {
        write_tail = st.write_tail ++ (close_job ∷ []);
      },
      [],
    )

-- `_closeStream`, which the session's `close()` calls on each stream
unfoldable pub close_stream : StreamState → StreamState
unfolding resolve_read resolve_write
close_stream st = resolve_write (resolve_read none (record st { closed = true; closing = true }))

-- ===== src/Smux/Session.antt =====
-- The class `SmuxServer` of smux.js. Stream states are shared objects, held by the session's map
-- and by the `Stream` objects that consumers keep: they live in a heap, and a handle is an index.
--   What the session does outside of itself is recorded: the frames given to `_output`, the calls
-- of `_error` and of the callback `onClose`. The callback `onStream` is the argument `on_stream`: what
-- the consumer does with a new stream at once. The clock is read once for each call of `feed`.
pub mod Feed
pub mod Handles
pub mod Shut
use wisper.Prelude.{
  ℕ, zero, suc, ◌+◌, ◌-◌, ◌*◌, ◌/◌, ◌%◌, ◌^◌, ◌≤◌, ◌<◌, min, ◌≡◌, refl, sym, ap, ◌∙◌, ◌≢◌, ◌↔◌, ◌⊎◌,
  inl, inr, Bool, true, false, not, ◌&&◌, ◌||◌, Option, none, some, List, [], ◌∷◌, ◌++◌, map,
  append-nil, append_assoc, arith, ltb, leb, ◌==◌, if◌then◌else◌, ==_iff, Bool-cases, Option-cases,
  length, get_elem?, get_or, set, take, drop, All, concat, length-append, take-append-drop,
  length-take, length-drop, take-append_left, drop-append_left, take-append_le, drop-append_le,
  All-append, Bytes, IsByte, u8, u16_be, get_u16_be, u16_le, get_u16_le, u32_le, get_u32_le,
  get_u16_be-u16_be, get_u16_le-u16_le, get_u32_le-u32_le,
}
use wisper.Smux.Frame.{
  cmd_syn, cmd_fin, cmd_psh, cmd_nop, cmd_upd, version, Frame, encode_frame, read_upd, next_frame,
}
use wisper.Smux.Stream.{
  StreamState, new_stream, Out, out_frame, out_remove, push_data, remote_fin, peer_update,
  close_stream,
}

pub data SmuxError : Type 0 where
  bad_version : ℕ → SmuxError
  unknown_command : ℕ → SmuxError
  keepalive_timeout : SmuxError

pub record Mux : Type 0 where
  pub heap : List StreamState
  pub streams : List (ℕ × ℕ)
  pub closed : Bool
  pub has_output : Bool
  pub nop_timer : Bool
  pub timeout_timer : Bool
  pub output : List Bytes
  pub errors : List SmuxError
  pub close_calls : ℕ

pub record SmuxServer : Type 0 where
  pub mux : Mux
  pub buffer : Bytes
  pub last_recv_at : ℕ

-- `new SmuxServer(callbacks)`
abbrev pub new_server : ℕ → SmuxServer
new_server now = record {
  mux = record {
    heap = [];
    streams = [];
    closed = false;
    has_output = false;
    nop_timer = false;
    timeout_timer = false;
    output = [];
    errors = [];
    close_calls = 0;
  };
  buffer = [];
  last_recv_at = now;
}

-- `setOutput(fn)`
unfoldable pub set_output : Mux → Mux
set_output m = record m { has_output = true }

-- `Map.get`, `Map.set` (an entry that is there keeps its place) and `Map.delete`
unfoldable pub map_get : ℕ → List (ℕ × ℕ) → Option ℕ
map_get k [] = none
map_get k ((j, v) ∷ m) = if j == k then some v else map_get k m

unfoldable pub map_set : ℕ → ℕ → List (ℕ × ℕ) → List (ℕ × ℕ)
map_set k v [] = (k, v) ∷ []
map_set k v ((j, w) ∷ m) = if j == k then (k, v) ∷ m else (j, w) ∷ map_set k v m

unfoldable pub map_delete : ℕ → List (ℕ × ℕ) → List (ℕ × ℕ)
map_delete k [] = []
map_delete k ((j, w) ∷ m) = if j == k then m else (j, w) ∷ map_delete k m

-- `_sendFrame(cmd, sid, data)`
unfoldable pub send_frame : ℕ → ℕ → Bytes → Mux → Mux
send_frame cmd sid payload m =
    if not m.has_output || m.closed
    then m
    else record m { output = m.output ++ (encode_frame cmd sid payload ∷ []) }

-- `_error(msg)`
unfoldable pub error : SmuxError → Mux → Mux
error e m = record m { errors = m.errors ++ (e ∷ []) }

-- The requests of the stream with the id `sid`, in order.
unfoldable pub apply_outs : ℕ → List Out → Mux → Mux
unfolding send_frame map_delete
apply_outs sid [] m = m
apply_outs sid (out_frame cmd payload ∷ outs) m = apply_outs sid outs (send_frame cmd sid payload m)
apply_outs sid (out_remove ∷ outs) m =
    apply_outs sid outs (record m { streams = map_delete sid m.streams })

-- An operation of a `Stream` object, on the state that it holds. A handle is never dangling.
unfoldable pub on_handle : ℕ → (StreamState → StreamState × List Out) → Mux → Mux
unfolding apply_outs
on_handle h f m = elim (get_elem? m.heap h) [
  | none ↦ m
  | some st ↦ let (st', outs) = f st in apply_outs st.id outs (record m { heap = set m.heap h st' })
]

-- A handler that changes the state of the stream `sid`, where the map has one.
unfoldable pub on_stream_id : ℕ → (StreamState → StreamState) → Mux → Mux
unfolding on_handle map_get
on_stream_id sid f m = elim (map_get sid m.streams) [
  | none ↦ m
  | some h ↦ on_handle h (λ st. (f st, [])) m
]

-- `_closeStream` on the stream of each entry of the map
close_all : List (ℕ × ℕ) → Mux → Mux
unfolding on_handle close_stream
close_all [] m = m
close_all ((sid, h) ∷ rest) m = close_all rest (on_handle h (λ st. (close_stream st, [])) m)

-- `close()`
unfoldable pub close : Mux → Mux
unfolding close_all
close m =
    if m.closed
    then m
    else (let m' =
          close_all m.streams
            (record m { closed = true; nop_timer = false; timeout_timer = false }) in
        record m' { streams = []; close_calls = m'.close_calls + 1 })

module _ (on_stream : ℕ → Mux → Mux) where
  -- `_handleSyn`: an entry with the same id is replaced. Data on the SYN is pushed before `onStream`.
  handle_syn : ℕ → Bytes → Mux → Mux
  unfolding map_set
  handle_syn sid payload m =
      let h = length m.heap in
      let st =
        if ltb 0 (length payload) then push_data payload (new_stream sid) else new_stream sid in
      on_stream h (record m { heap = m.heap ++ (st ∷ []); streams = map_set sid h m.streams })

  -- `_dispatch`
  unfoldable pub dispatch : Frame → Mux → Mux
  unfolding handle_syn on_stream_id error send_frame
  dispatch f m =
      if not (f.ver == version)
      then error (bad_version f.ver) m
      else if f.cmd == cmd_syn
      then handle_syn f.sid f.payload m
      else if f.cmd == cmd_psh
      then on_stream_id f.sid (push_data f.payload) m
      else if f.cmd == cmd_fin
      then on_stream_id f.sid remote_fin m
      else if f.cmd == cmd_nop
      then send_frame cmd_nop 0 [] m
      else if f.cmd == cmd_upd
      then elim (read_upd f.payload) [
        | none ↦ m
        | some (consumed, window) ↦ on_stream_id f.sid (peer_update consumed window) m
      ]
      else error (unknown_command f.cmd) m

  -- `_processFrames`. Each round takes a header at least, so the length of the buffer is fuel enough.
  unfoldable pub process_frames : ℕ → ℕ → SmuxServer → SmuxServer
  process_frames zero now s = s
  process_frames (suc fuel) now s = elim (next_frame s.buffer) [
    | none ↦ s
    | some (f, rest) ↦
        process_frames fuel now
          (record { mux = dispatch f s.mux; buffer = rest; last_recv_at = now })
  ]

  -- `feed(data)`
  unfoldable pub feed : ℕ → Bytes → SmuxServer → SmuxServer
  unfolding process_frames
  feed now payload s =
      if s.mux.closed
      then s
      else process_frames (length (s.buffer ++ payload)) now
          (record s { buffer = s.buffer ++ payload })

-- `startKeepalive()`
unfoldable pub start_keepalive : ℕ → SmuxServer → SmuxServer
start_keepalive now s = if s.mux.nop_timer then s else (record {
  mux = record s.mux { nop_timer = true; timeout_timer = true };
  buffer = s.buffer;
  last_recv_at = now;
})

-- One tick of the interval `_nopTimer`
unfoldable pub nop_tick : SmuxServer → SmuxServer
unfolding send_frame
nop_tick s = record s { mux = send_frame cmd_nop 0 [] s.mux }

abbrev pub keepalive_timeout_ms : ℕ
keepalive_timeout_ms = 30000

-- One tick of the interval `_timeoutTimer`
unfoldable pub timeout_tick : ℕ → SmuxServer → SmuxServer
unfolding error close
timeout_tick now s =
    if s.mux.closed
    then s
    else if ltb (keepalive_timeout_ms + s.last_recv_at) now
    then record s { mux = close (error keepalive_timeout s.mux) }
    else s

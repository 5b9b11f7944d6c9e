-- ===== src/Smux/Tests.antt =====
-- The theorems on smux at concrete frames, streams and sessions.
use wisper.Prelude.{ℕ, ◌+◌, ◌≡◌, refl, arith, false, none, some, List, [], ◌∷◌, ◌++◌, All, Bytes}
use wisper.Smux.Frame.{cmd_psh, version, encode_frame, next_frame, read_upd, upd_payload}
use wisper.Smux.Frame.RoundTrip.{next_frame-encode_frame}
use wisper.Smux.Stream.{
  StreamState, new_stream, push_data, peer_update, read, resume_read, close as close_stream_of,
}
use wisper.Smux.Stream.Write.{write_sync, blocked}
use wisper.Smux.Stream.Write.Sends.{Sends, write_sync-Sends}
use wisper.Smux.Stream.Read.{Run, start, push, read_later, resume, IsOrderly}
use wisper.Smux.Stream.Read.Orderly.{Run-IsOrderly}
use wisper.Smux.Session.{Mux, new_server, feed, close, send_frame}
use wisper.Smux.Session.Handles.{IsWellFormed}
use wisper.Smux.Session.Shut.{IsShut, close-IsShut}
use wisper.Smux.Stream.Write.Drains.{Drains, turns, write_all, write_all-close-Drains}
use wisper.Smux.Stream.Write.Stalls.{write_sync-stalls}
use wisper.Smux.Session.Feed.{feed_exhausts, feed-append}

next_frame-encode_frame_example :
    next_frame (encode_frame cmd_psh 3 (b'h' ∷ b'i' ∷ []) ++ (9 ∷ []))
    ≡ some (record { ver = version; cmd = cmd_psh; sid = 3; payload = b'h' ∷ b'i' ∷ [] }, 9 ∷ [])
next_frame-encode_frame_example =
    next_frame-encode_frame cmd_psh 3 (b'h' ∷ b'i' ∷ []) (9 ∷ []) (omega arith) (omega arith)
      (omega arith)

-- A stream with a window of two bytes.
abbrev narrow : StreamState
narrow = record (new_stream 3) { peer_window = 2 }

abbrev three_bytes : Bytes
three_bytes = 7 ∷ 8 ∷ 9 ∷ []

write_sync-Sends_example : Sends three_bytes narrow (write_sync three_bytes narrow)
write_sync-Sends_example = write_sync-Sends three_bytes narrow refl

-- A read waits, a chunk comes for it, the reader takes it, and the peer ends.
abbrev waiting : StreamState
waiting = (read (new_stream 3)).0

abbrev served : StreamState
served = (resume_read (push_data three_bytes waiting)).0

served-Run : Run served (three_bytes ∷ []) (three_bytes ∷ []) 3
unfolding read resume_read push_data read_upd upd_payload
served-Run =
    resume three_bytes 3 (push three_bytes (read_later (start 3) refl refl refl) refl) refl refl

Run-IsOrderly_example : IsOrderly served (three_bytes ∷ []) (three_bytes ∷ []) 3
Run-IsOrderly_example = Run-IsOrderly served-Run

abbrev ignore : ℕ → Mux → Mux
ignore h m = m

abbrev syn_bytes : Bytes
syn_bytes = 2 ∷ 0 ∷ 0 ∷ 0 ∷ 3 ∷ []

abbrev more_bytes : Bytes
more_bytes = 0 ∷ 0 ∷ 0 ∷ 2 ∷ []

feed_exhausts_example : next_frame (feed ignore 5 syn_bytes (new_server 0)).buffer ≡ none
feed_exhausts_example = feed_exhausts ignore 5 syn_bytes (new_server 0) refl

still_open : (feed ignore 5 syn_bytes (new_server 0)).mux.closed ≡ false
unfolding feed next_frame
still_open = refl

feed-append_example :
    ((feed ignore 6 more_bytes (feed ignore 5 syn_bytes (new_server 0))).mux
      ≡ (feed ignore 7 (syn_bytes ++ more_bytes) (new_server 0)).mux)
    × ((feed ignore 6 more_bytes (feed ignore 5 syn_bytes (new_server 0))).buffer
        ≡ (feed ignore 7 (syn_bytes ++ more_bytes) (new_server 0)).buffer)
feed-append_example = feed-append ignore 5 6 7 syn_bytes more_bytes (new_server 0) refl still_open

abbrev two_writes : List Bytes
two_writes = three_bytes ∷ (4 ∷ []) ∷ []

write_all-close-Drains_example :
    Drains two_writes (turns 3 (close_stream_of false (write_all two_writes (new_stream 3))).0)
write_all-close-Drains_example =
    write_all-close-Drains two_writes (new_stream 3) refl refl refl (omega arith)

-- A stream that has written 2 ^ 32 bytes and the window, less one.
abbrev long_lived : StreamState
long_lived = record (new_stream 3) { num_written = 4295229439 }

write_sync-stalls_example :
    ((write_sync (7 ∷ []) (peer_update 4294967295 262144 long_lived)).1 ≡ [])
    × ((write_sync (7 ∷ []) (peer_update 4294967295 262144 long_lived)).2 ≡ blocked (7 ∷ []))
write_sync-stalls_example =
    write_sync-stalls 4294967295 262144 7 [] long_lived refl (omega arith) (omega arith)

-- A session with one stream.
abbrev one_stream : Mux
one_stream = record (new_server 0).mux { heap = new_stream 3 ∷ []; streams = (3, 0) ∷ [] }

one_stream-IsWellFormed : IsWellFormed one_stream
one_stream-IsWellFormed = ((new_stream 3, refl, refl), tt)

close-IsShut_example :
    All (IsShut (close one_stream).heap) one_stream.streams
    × ((close one_stream).streams ≡ [])
    × ((close one_stream).output ≡ one_stream.output)
    × ((close one_stream).close_calls ≡ one_stream.close_calls + 1)
    × (send_frame cmd_psh 3 three_bytes (close one_stream) ≡ close one_stream)
    × (close (close one_stream) ≡ close one_stream)
close-IsShut_example = close-IsShut cmd_psh 3 three_bytes one_stream refl one_stream-IsWellFormed

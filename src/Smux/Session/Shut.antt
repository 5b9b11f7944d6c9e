-- ===== src/Smux/Session/Shut.antt =====
-- Closing the session closes the streams of all entries of its map, and silences it.
use wisper.Prelude.{
  ℕ, zero, suc, ◌+◌, ◌≡◌, refl, sym, ap, ◌∙◌, inl, inr, true, false, some, List, [], ◌∷◌, arith,
  Bool-cases, Option-cases, get_elem?, set, All, Bytes, subst,
}
use wisper.Smux.Stream.{StreamState, close_stream, resolve_read, resolve_write}
use wisper.Smux.Session.{Mux, send_frame, on_handle, close_all, close}
use wisper.Smux.Session.Handles.{HasStream, IsWellFormed, set-HasStream, All-map, on_handle-quiet}

-- The entries of a map that `close_all` has gone through.
abbrev pub IsShut : List StreamState → ℕ × ℕ → Type 0
IsShut heap (sid, h) = (st : StreamState) × (get_elem? heap h ≡ some st) × (st.closed ≡ true)

close_stream-closed : (st : StreamState) → (close_stream st).closed ≡ true
unfolding close_stream resolve_read resolve_write
close_stream-closed st = ground arith

close_stream-id : (st : StreamState) → (close_stream st).id ≡ st.id
unfolding close_stream resolve_read resolve_write
close_stream-id st = ground arith

get_elem?-set :
    (heap : List StreamState) (h : ℕ) (st st' : StreamState)
    → get_elem? heap h ≡ some st
    → get_elem? (set heap h st') h ≡ some st'
get_elem?-set [] h st st' e = absurd (cc e)
get_elem?-set (s ∷ heap) zero st st' e = refl
get_elem?-set (s ∷ heap) (suc h) st st' e = get_elem?-set heap h st st' e

-- A write of a closed stream leaves closed what was closed.
set-IsShut :
    (heap : List StreamState) (h : ℕ) (st' : StreamState) (e : ℕ × ℕ)
    → st'.closed ≡ true
    → IsShut heap e
    → IsShut (set heap h st') e
set-IsShut [] h st' e c has = has
set-IsShut (s ∷ heap) zero st' (sid, zero) c has = (st', refl, c)
set-IsShut (s ∷ heap) zero st' (sid, suc j) c has = has
set-IsShut (s ∷ heap) (suc h) st' (sid, zero) c has = has
set-IsShut (s ∷ heap) (suc h) st' (sid, suc j) c has = set-IsShut heap h st' (sid, j) c has

-- Closing the streams of some entries shuts them, and what was shut stays so.
close_all-IsShut :
    (todo done : List (ℕ × ℕ)) (m : Mux)
    → All (HasStream m.heap) todo
    → All (IsShut m.heap) done
    → All (IsShut (close_all todo m).heap) todo × All (IsShut (close_all todo m).heap) done
unfolding close_all
close_all-IsShut [] done m w s = (tt, s)
close_all-IsShut ((sid, h) ∷ todo) done m ((st, at_h, id), w) s =
    let m' : Mux = record m { heap = set m.heap h (close_stream st) } in
    let shut =
      close_all-IsShut todo ((sid, h) ∷ done) m'
        (All-map todo (λ e. set-HasStream m.heap h st (close_stream st) e at_h (close_stream-id st))
          w)
        (
          (
            close_stream st,
            get_elem?-set m.heap h st (close_stream st) at_h,
            close_stream-closed st,
          ),
          All-map done (λ e. set-IsShut m.heap h (close_stream st) e (close_stream-closed st)) s,
        ) in
    subst (λ (n : Mux). All (IsShut n.heap) ((sid, h) ∷ todo) × All (IsShut n.heap) done)
      (sym (ap (close_all todo) (on_handle-quiet h close_stream m at_h)))
      ((shut.1.0, shut.0), shut.1.1)

-- What closing a stream leaves alone in its session.
record SameOutside (m m' : Mux) : Type 0 where
  output : m'.output ≡ m.output
  closed : m'.closed ≡ m.closed
  close_calls : m'.close_calls ≡ m.close_calls

on_handle-outside : (h : ℕ) (m : Mux) → SameOutside m (on_handle h (λ st. (close_stream st, [])) m)
unfolding on_handle
on_handle-outside h m = elim (Option-cases (get_elem? m.heap h)) [
  | inl missing ↦
      rw (missing, on_handle) (record { output = refl; closed = refl; close_calls = refl })
  | inr (st, found) ↦
      rw (on_handle-quiet h close_stream m found)
        (record { output = refl; closed = refl; close_calls = refl })
]

close_all-outside : (todo : List (ℕ × ℕ)) (m : Mux) → SameOutside m (close_all todo m)
unfolding close_all
close_all-outside [] m = record { output = refl; closed = refl; close_calls = refl }
close_all-outside ((sid, h) ∷ todo) m =
    let first = on_handle-outside h m in
    let rest = close_all-outside todo (on_handle h (λ st. (close_stream st, [])) m) in
    record {
      output = rest.output ∙ first.output;
      closed = rest.closed ∙ first.closed;
      close_calls = rest.close_calls ∙ first.close_calls;
    }

-- The session when `close()` begins to close the streams.
abbrev closing : Mux → Mux
closing m = record m { closed = true; nop_timer = false; timeout_timer = false }

close-opened :
    (m : Mux)
    → m.closed ≡ false
    → close m ≡ record (close_all m.streams (closing m)) {
      streams = [];
      close_calls = (close_all m.streams (closing m)).close_calls + 1;
    }
unfolding close
close-opened m opened = rw opened

close-again : (m : Mux) → m.closed ≡ true → close m ≡ m
unfolding close
close-again m over = rw over

send_frame-closed :
    (cmd sid : ℕ) (payload : Bytes) (m : Mux) → m.closed ≡ true → send_frame cmd sid payload m ≡ m
unfolding send_frame
send_frame-closed cmd sid payload m over = elim (Bool-cases m.has_output) [
  | inl on ↦ rw (on, over)
  | inr off ↦ rw off
]

-- Closing an open session whose map is as it should be closes the stream of every entry, empties the
-- map, sends nothing, and tells the owner once; from then on no frame is sent, and closing again
-- changes nothing.
pub close-IsShut :
    (cmd sid : ℕ) (payload : Bytes) (m : Mux)
    → m.closed ≡ false
    → IsWellFormed m
    → All (IsShut (close m).heap) m.streams
      × ((close m).streams ≡ [])
      × ((close m).output ≡ m.output)
      × ((close m).close_calls ≡ m.close_calls + 1)
      × (send_frame cmd sid payload (close m) ≡ close m)
      × (close (close m) ≡ close m)
close-IsShut cmd sid payload m opened w =
    let step = close-opened m opened in
    let outside = close_all-outside m.streams (closing m) in
    let over : (close m).closed ≡ true = ap (λ n. n.closed) step ∙ outside.closed in
    (
      rw step (close_all-IsShut m.streams [] (closing m) w tt).0,
      ap (λ n. n.streams) step,
      ap (λ n. n.output) step ∙ outside.output,
      ap (λ n. n.close_calls) step ∙ ap (λ n. n + 1) outside.close_calls,
      send_frame-closed cmd sid payload (close m) over,
      close-again (close m) over,
    )

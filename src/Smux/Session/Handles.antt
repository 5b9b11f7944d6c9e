-- ===== src/Smux/Session/Handles.antt =====
-- Every entry of the session's map leads to a stream with its id.
use wisper.Prelude.{
  ℕ, zero, suc, ◌≡◌, refl, ◌∙◌, inl, inr, not, ◌||◌, Option, none, some, List, [], ◌∷◌, ◌++◌, arith,
  ltb, ◌==◌, if◌then◌else◌, ==_iff, Bool-cases, Option-cases, length, get_elem?, set, All, Bytes,
  subst, if-both,
}
use wisper.Smux.Frame.{Frame, cmd_nop, read_upd}
use wisper.Smux.Stream.{
  StreamState, new_stream, push_data, remote_fin, peer_update, resolve_read, resolve_write,
}
use wisper.Smux.Session.{
  Mux, map_get, map_set, send_frame, error, apply_outs, on_handle, on_stream_id, handle_syn,
  dispatch, bad_version, unknown_command,
}

-- A handle of a stream with the id `sid`.
abbrev pub HasStream : List StreamState → ℕ × ℕ → Type 0
HasStream heap (sid, h) = (st : StreamState) × (get_elem? heap h ≡ some st) × (st.id ≡ sid)

abbrev pub IsWellFormed : Mux → Type 0
IsWellFormed m = All (HasStream m.heap) m.streams

get_elem?-append :
    (heap : List StreamState) (extra : List StreamState) (h : ℕ) {st : StreamState}
    → get_elem? heap h ≡ some st
    → get_elem? (heap ++ extra) h ≡ some st
get_elem?-append [] extra h e = absurd (cc e)
get_elem?-append (s ∷ heap) extra zero e = e
get_elem?-append (s ∷ heap) extra (suc h) e = get_elem?-append heap extra h e

get_elem?-length :
    (heap : List StreamState) (st : StreamState)
    → get_elem? (heap ++ (st ∷ [])) (length heap) ≡ some st
get_elem?-length [] st = refl
get_elem?-length (s ∷ heap) st = get_elem?-length heap st

-- A write of a stream with the same id leaves every handle with a stream of its id.
pub set-HasStream :
    (heap : List StreamState) (h : ℕ) (st st' : StreamState) (e : ℕ × ℕ)
    → get_elem? heap h ≡ some st
    → st'.id ≡ st.id
    → HasStream heap e
    → HasStream (set heap h st') e
set-HasStream [] h st st' e at_h same has = absurd (cc at_h)
set-HasStream (s ∷ heap) zero st st' (sid, zero) at_h same (t, at_t, id) = (st', refl, same ∙ cc)
set-HasStream (s ∷ heap) zero st st' (sid, suc j) at_h same has = has
set-HasStream (s ∷ heap) (suc h) st st' (sid, zero) at_h same has = has
set-HasStream (s ∷ heap) (suc h) st st' (sid, suc j) at_h same has =
    set-HasStream heap h st st' (sid, j) at_h same has

pub All-map :
    {P Q : ℕ × ℕ → Type 0} (xs : List (ℕ × ℕ)) → ((e : ℕ × ℕ) → P e → Q e) → All P xs → All Q xs
All-map [] f h = h
All-map (x ∷ xs) f h = (f x h.0, All-map xs f h.1)

map_set-All :
    (P : ℕ × ℕ → Type 0) (sid h : ℕ) (xs : List (ℕ × ℕ))
    → P (sid, h)
    → All P xs
    → All P (map_set sid h xs)
unfolding map_set
map_set-All P sid h [] p hs = (p, tt)
map_set-All P sid h ((j, w) ∷ xs) p hs = elim (Bool-cases (j == sid)) [
  | inl same ↦ rw same (p, hs.1)
  | inr other ↦ rw other (hs.0, map_set-All P sid h xs p hs.1)
]

-- The entry that `map_get` finds is one of the map.
map_get-All :
    (P : ℕ × ℕ → Type 0) (sid : ℕ) (xs : List (ℕ × ℕ)) {h : ℕ}
    → All P xs
    → map_get sid xs ≡ some h
    → P (sid, h)
unfolding map_get
map_get-All P sid [] hs e = absurd (cc e)
map_get-All P sid ((j, w) ∷ xs) {h} hs e = elim (Bool-cases (j == sid)) [
  | inl same ↦
      let key = (==_iff j sid).0 same in
      let value : some w ≡ some h = rw same at e in subst P (cc (key, value)) hs.0
  | inr other ↦ map_get-All P sid xs hs.1 (rw other at e)
]

-- What an operation on a handle does to the session, when it asks for nothing.
pub on_handle-quiet :
    (h : ℕ) (f : StreamState → StreamState) (m : Mux) {st : StreamState}
    → get_elem? m.heap h ≡ some st
    → on_handle h (λ s. (f s, [])) m ≡ record m { heap = set m.heap h (f st) }
unfolding on_handle apply_outs
on_handle-quiet h f m e = rw (e, on_handle)

on_stream_id-IsWellFormed :
    (sid : ℕ) (f : StreamState → StreamState) (m : Mux)
    → ((st : StreamState) → (f st).id ≡ st.id)
    → IsWellFormed m
    → IsWellFormed (on_stream_id sid f m)
unfolding on_stream_id
on_stream_id-IsWellFormed sid f m keeps w = elim (Option-cases (map_get sid m.streams)) [
  | inl missing ↦ rw (missing, on_stream_id) w
  | inr (h, found) ↦
      let (st, at_h, id) = map_get-All (HasStream m.heap) sid m.streams w found in
      rw (found, on_stream_id, on_handle-quiet h f m at_h)
        (All-map m.streams (λ e. set-HasStream m.heap h st (f st) e at_h (keeps st)) w)
]

push_data-id : (chunk : Bytes) (st : StreamState) → (push_data chunk st).id ≡ st.id
unfolding push_data resolve_read
push_data-id chunk st = ground arith

remote_fin-id : (st : StreamState) → (remote_fin st).id ≡ st.id
unfolding remote_fin resolve_read resolve_write
remote_fin-id st = ground arith

peer_update-id :
    (consumed window : ℕ) (st : StreamState) → (peer_update consumed window st).id ≡ st.id
unfolding peer_update resolve_write
peer_update-id consumed window st = ground arith

first_state-id :
    (sid : ℕ) (payload : Bytes)
    → (if ltb 0 (length payload) then push_data payload (new_stream sid) else new_stream sid).id
      ≡ sid
first_state-id sid payload = elim (Bool-cases (ltb 0 (length payload))) [
  | inl some_data ↦ rw some_data (push_data-id payload (new_stream sid))
  | inr no_data ↦ rw no_data
]

handle_syn-IsWellFormed :
    (on_stream : ℕ → Mux → Mux) (sid : ℕ) (payload : Bytes) (m : Mux)
    → ((h : ℕ) (m : Mux) → IsWellFormed m → IsWellFormed (on_stream h m))
    → IsWellFormed m
    → IsWellFormed (handle_syn on_stream sid payload m)
unfolding handle_syn
handle_syn-IsWellFormed on_stream sid payload m good w = good (length m.heap) _ (
    map_set-All _ sid (length m.heap) m.streams
      (_, get_elem?-length m.heap _, first_state-id sid payload)
      (All-map m.streams (λ e has. (has.0, get_elem?-append m.heap _ e.1 has.1, has.2)) w))

-- `_handleUpd` on what was read of its payload
update-IsWellFormed :
    (sid : ℕ) (read : Option (ℕ × ℕ)) (m : Mux)
    → IsWellFormed m
    → IsWellFormed (elim read [
      | none ↦ m
      | some (consumed, window) ↦ on_stream_id sid (peer_update consumed window) m
    ])
update-IsWellFormed sid none m w = w
update-IsWellFormed sid (some (consumed, window)) m w =
    on_stream_id-IsWellFormed sid (peer_update consumed window) m (peer_update-id consumed window) w

send_frame-IsWellFormed :
    (cmd sid : ℕ) (payload : Bytes) (m : Mux)
    → IsWellFormed m
    → IsWellFormed (send_frame cmd sid payload m)
unfolding send_frame
send_frame-IsWellFormed cmd sid payload m w = elim (Bool-cases (not m.has_output || m.closed)) [
  | inl quiet ↦ rw quiet w
  | inr sends ↦ rw sends w
]

-- A property of the session after a frame, branch by branch.
dispatch-branches :
    (P : Mux → Type 0) (on_stream : ℕ → Mux → Mux) (f : Frame) (m : Mux)
    → P (error (bad_version f.ver) m)
    → P (handle_syn on_stream f.sid f.payload m)
    → P (on_stream_id f.sid (push_data f.payload) m)
    → P (on_stream_id f.sid remote_fin m)
    → P (send_frame cmd_nop 0 [] m)
    → P (elim (read_upd f.payload) [
      | none ↦ m
      | some (consumed, window) ↦ on_stream_id f.sid (peer_update consumed window) m
    ])
    → P (error (unknown_command f.cmd) m)
    → P (dispatch on_stream f m)
unfolding dispatch
dispatch-branches P on_stream f m ver syn psh fin nop upd cmd =
    if-both P _ ver
      (if-both P _ syn (if-both P _ psh (if-both P _ fin (if-both P _ nop (if-both P _ upd cmd)))))

-- If what the consumer does with a new stream keeps it so, then after any frame every entry of the
-- map still leads to a stream with its id.
dispatch-IsWellFormed :
    (on_stream : ℕ → Mux → Mux) (f : Frame) (m : Mux)
    → ((h : ℕ) (m : Mux) → IsWellFormed m → IsWellFormed (on_stream h m))
    → IsWellFormed m
    → IsWellFormed (dispatch on_stream f m)
unfolding error send_frame
dispatch-IsWellFormed on_stream f m good w =
    dispatch-branches IsWellFormed on_stream f m w
      (handle_syn-IsWellFormed on_stream f.sid f.payload m good w)
      (on_stream_id-IsWellFormed f.sid (push_data f.payload) m (push_data-id f.payload) w)
      (on_stream_id-IsWellFormed f.sid remote_fin m remote_fin-id w)
      (send_frame-IsWellFormed cmd_nop 0 [] m w)
      (update-IsWellFormed f.sid (read_upd f.payload) m w) w

-- ===== src/Smux/Stream/Write/Drains.antt =====
-- A graceful close lets every accepted write finish before the FIN.
use wisper.Prelude.{
  ℕ, zero, suc, ◌+◌, ◌≤◌, ◌≡◌, refl, sym, ap, ◌∙◌, inl, inr, Bool, true, false, ◌||◌, List, [], ◌∷◌,
  ◌++◌, append-nil, append_assoc, arith, Bool-cases, length, All, concat, length-append, All-append,
  Bytes,
}
use wisper.Smux.Frame.{cmd_fin}
use wisper.Smux.Stream.{
  StreamState, writer_idle, Job, write_job, close_job, Out, out_frame, out_remove, write, write_win,
  close, wake, resolve_read, resolve_write,
}
use wisper.Smux.Stream.Write.{
  write_sync, finished, tail_after, write_loop, run_job, run_unless_blocked, advance, wrote,
  chunk_len,
}
use wisper.Prelude.Int.{is_positive}
use wisper.Smux.Stream.Write.Sends.{sent, IsChunk, write_sync-Sends, write_sync-finishes}

-- Calls of `write(data)` one after the other.
unfoldable pub write_all : List Bytes → StreamState → StreamState
unfolding write
write_all [] st = st
write_all (p ∷ ps) st = write_all ps (write p st).0

-- Turns of the event loop, and all that the stream sends in them.
unfoldable pub turns : ℕ → StreamState → StreamState × List Out
unfolding advance
turns zero st = (st, [])
turns (suc n) st =
    let (st', outs) = advance st in let (st'', later) = turns n st' in (st'', outs ++ later)

-- The jobs of writes.
abbrev jobs : List Bytes → List Job
jobs [] = []
jobs (p ∷ ps) = write_job p ∷ jobs ps

write-open :
    (p : Bytes) (st : StreamState)
    → (st.closed || st.closing || st.remote_closed) ≡ false
    → write p st ≡ (record st { write_tail = st.write_tail ++ (write_job p ∷ []) }, true)
unfolding write
write-open p st h = rw h

write_all-tail :
    (ps : List Bytes) (st : StreamState)
    → (st.closed || st.closing || st.remote_closed) ≡ false
    → write_all ps st ≡ record st { write_tail = st.write_tail ++ jobs ps }
unfolding write_all write
write_all-tail [] st h = ap (λ t. record st { write_tail = t }) (sym (append-nil st.write_tail))
write_all-tail (p ∷ ps) st h =
    ap (λ (r : StreamState × Bool). write_all ps r.0) (write-open p st h)
    ∙ write_all-tail ps (record st { write_tail = st.write_tail ++ (write_job p ∷ []) }) h
    ∙ ap (λ t. record st { write_tail = t })
        (append_assoc st.write_tail (write_job p ∷ []) (jobs ps))

-- What a run of the loop that finishes leaves alone.
write_loop-keeps :
    (fuel : ℕ) (payload : Bytes) (st : StreamState)
    → (st.closed || st.remote_closed) ≡ false
    → (write_loop fuel payload st).2 ≡ finished
    → ((write_loop fuel payload st).0.writer ≡ st.writer)
      × ((write_loop fuel payload st).0.closed ≡ st.closed)
      × ((write_loop fuel payload st).0.remote_closed ≡ st.remote_closed)
unfolding write_loop
write_loop-keeps fuel [] st over e = (refl, refl, refl)
write_loop-keeps zero (b ∷ bs) st over e = absurd (cc e)
write_loop-keeps (suc fuel) (b ∷ bs) st over e = elim (Bool-cases (is_positive (write_win st))) [
  | inl open_window ↦
      rw (over, open_window)
        (write_loop-keeps fuel _ (wrote (chunk_len st (b ∷ bs)) st) over
          (rw (over, open_window) at e))
  | inr shut ↦ absurd (cc (rw (over, shut) at e))
]

advance-tail :
    (st : StreamState) (todo : List Job)
    → st.writer ≡ writer_idle
    → st.write_tail ≡ todo
    → advance st ≡ run_job todo st
unfolding advance run_unless_blocked
advance-tail st todo idle tail =
    ap (λ w. run_unless_blocked w st) idle ∙ ap (λ js. run_job js st) tail

-- What holds of turns that work off the writes `ps` and a graceful close behind them.
pub record Drains (ps : List Bytes) (r : StreamState × List Out) : Type 0 where
  pub frames : List Out
  pub then_fin : r.1 ≡ frames ++ (out_frame cmd_fin [] ∷ out_remove ∷ [])
  pub chunks : All IsChunk frames
  pub in_order : sent frames ≡ concat ps
  pub shut : r.0.closed ≡ true
  pub nothing_left : r.0.write_tail ≡ []

sent-append : (xs ys : List Out) → sent (xs ++ ys) ≡ sent xs ++ sent ys
unfolding sent
sent-append [] ys = refl
sent-append (out_frame cmd payload ∷ xs) ys =
    ap (λ t. payload ++ t) (sent-append xs ys) ∙ sym (append_assoc payload (sent xs) (sent ys))
sent-append (out_remove ∷ xs) ys = sent-append xs ys

-- A turn that runs a write to its end.
write_turn :
    (p : Bytes) (later : List Job) (st : StreamState)
    → st.writer ≡ writer_idle
    → st.write_tail ≡ write_job p ∷ later
    → (write_sync p st).2 ≡ finished
    → advance st ≡ (record (write_sync p st).0 { write_tail = later }, (write_sync p st).1)
unfolding run_job tail_after
write_turn p later st idle tail done =
    advance-tail st (write_job p ∷ later) idle tail
    ∙ ap
        (λ o. (record (write_sync p st).0 { write_tail = tail_after o later }, (write_sync p st).1))
        done

or-eq : {a a' b b' : Bool} → a ≡ a' → b ≡ b' → (a || b) ≡ (a' || b')
or-eq e f = cc

write_sync-keeps :
    (p : Bytes) (st : StreamState)
    → (st.closed || st.remote_closed) ≡ false
    → (write_sync p st).2 ≡ finished
    → ((write_sync p st).0.writer ≡ writer_idle)
      × (((write_sync p st).0.closed || (write_sync p st).0.remote_closed) ≡ false)
unfolding write_sync
write_sync-keeps p st over done =
    let kept =
      write_loop-keeps (length p) p (record st { writer = writer_idle }) over (rw over at done) in
    rw over (kept.0, or-eq kept.1 kept.2 ∙ over)

turns-Drains :
    (ps : List Bytes) (st : StreamState)
    → (st.closed || st.remote_closed) ≡ false
    → st.writer ≡ writer_idle
    → st.write_tail ≡ jobs ps ++ (close_job ∷ [])
    → st.num_written + length (concat ps) ≤ st.peer_window + st.peer_consumed
    → Drains ps (turns (suc (length ps)) st)
unfolding turns sent run_job
turns-Drains [] st over idle tail room = rw (advance-tail st _ idle tail) (record {
  frames = [];
  then_fin = refl;
  chunks = tt;
  in_order = refl;
  shut = refl;
  nothing_left = refl;
})
turns-Drains (p ∷ ps) st over idle tail room =
    let fits : length (concat (p ∷ ps)) ≡ length p + length (concat ps) =
      length-append p (concat ps) in
    let (done, all_sent) = write_sync-finishes p st over (omega arith) in
    let s = write_sync-Sends p st over in
    let (idle', over') = write_sync-keeps p st over done in
    let rest =
      turns-Drains ps (record (write_sync p st).0 { write_tail = jobs ps ++ (close_job ∷ []) })
        over' idle' refl
        (omega (arith, s.counted, s.same_window.0, s.same_window.1, ap length all_sent)) in
    rw (write_turn p _ st idle tail done) (record {
      frames = (write_sync p st).1 ++ rest.frames;
      then_fin =
          ap (λ t. (write_sync p st).1 ++ t) rest.then_fin
          ∙ sym (append_assoc (write_sync p st).1 rest.frames _);
      chunks = All-append IsChunk (write_sync p st).1 rest.frames s.chunks rest.chunks;
      in_order =
          sent-append (write_sync p st).1 rest.frames
          ∙ ap (λ t. t ++ sent rest.frames) all_sent
          ∙ ap (λ t. p ++ t) rest.in_order;
      shut = rest.shut;
      nothing_left = rest.nothing_left;
    })

closes :
    (st : StreamState)
    → st.closed ≡ false
    → ((close false st).0.write_tail ≡ st.write_tail ++ (close_job ∷ []))
      × ((close false st).0.writer ≡ wake st.writer)
      × (((close false st).0.closed || (close false st).0.remote_closed)
          ≡ (st.closed || st.remote_closed))
      × ((close false st).0.num_written ≡ st.num_written)
      × ((close false st).0.peer_window + (close false st).0.peer_consumed
          ≡ st.peer_window + st.peer_consumed)
unfolding close resolve_read resolve_write wake
closes st h = ground arith

-- On an open stream whose writer does nothing: after any writes and a graceful close, if the window
-- has room for all of their data, then as many turns of the event loop as there are writes, and one
-- more, send exactly that data, in order, in PSH frames, then the FIN and the removal of the stream;
-- the stream is closed then, and no job is left.
pub write_all-close-Drains :
    (ps : List Bytes) (st : StreamState)
    → (st.closed || st.closing || st.remote_closed) ≡ false
    → st.writer ≡ writer_idle
    → st.write_tail ≡ []
    → st.num_written + length (concat ps) ≤ st.peer_window + st.peer_consumed
    → Drains ps (turns (suc (length ps)) (close false (write_all ps st)).0)
unfolding wake
write_all-close-Drains ps st h idle tail room =
    let written : StreamState = record st { write_tail = st.write_tail ++ jobs ps } in
    let c = closes written (ground arith) in
    rw (write_all-tail ps st h) (
      turns-Drains ps (close false written).0 (c.2 ∙ ground arith) (c.1 ∙ ap wake idle)
        (c.0 ∙ ap (λ t. (t ++ jobs ps) ++ (close_job ∷ [])) tail) (omega (arith, c.3, c.4)))

-- ===== src/Smux/Stream/Read/Orderly.antt =====
-- Every run of a stream with one reader is orderly: first in, first out, with prompt credit.
use wisper.Prelude.{
  ℕ, ◌+◌, ◌%◌, ◌^◌, ◌<◌, ◌≡◌, refl, sym, ap, ◌∙◌, inl, inr, true, false, none, some, List, [], ◌∷◌,
  ◌++◌, append-nil, append_assoc, arith, Bool-cases, length, concat, Bytes, get_u32_le-u32_le,
}
use wisper.Smux.Frame.{upd_payload, read_upd}
use wisper.Smux.Stream.{
  StreamState, upd_threshold, resolve_read, resolve_write, push_data, remote_fin, peer_update,
  account_read, chunk, eof, pending, read, resume_read, close,
}
use wisper.Smux.Stream.Read.{
  report, Reports, Run, start, push, fin, update, stop, read_at_once, read_later, resume_end,
  resume, chunks, IsOrderly,
}
use wisper.Smux.Stream.Read.Steps.{
  chunks-append, length-concat-append, push_waiting, push_idle, resolve_waiting, resolve_idle,
  close_shut, close_open, account_cases, read_now, read_waits, resume_now, resume_ends,
}

read_upd-upd_payload : (a b : ℕ) → read_upd (upd_payload a b) ≡ some (a % 2 ^ 32, b % 2 ^ 32)
unfolding read_upd upd_payload
read_upd-upd_payload a b = ground (arith, get_u32_le-u32_le a, get_u32_le-u32_le b)

-- Accounting for `c`, which was next in line, moves it to what the reader got.
account_read-IsOrderly :
    (c : Bytes) (st : StreamState) (came got : List Bytes) (reported : ℕ)
    → came ≡ got ++ (c ∷ (chunks st.resumed ++ st.read_queue))
    → (st.read_resolve ≡ true → (st.read_queue ≡ []) × (st.resumed ≡ []))
    → st.num_read ≡ length (concat got)
    → st.num_read % 2 ^ 32 ≡ (reported + st.upd_incr) % 2 ^ 32
    → st.upd_incr < upd_threshold
    → IsOrderly (account_read c st).0 came (got ++ (c ∷ [])) (report reported (account_read c st).1)
account_read-IsOrderly c st came got reported f w n k p = elim (account_cases st c) [
  | inl credit ↦
      rw (credit, read_upd-upd_payload)
        (record {
          fifo = f ∙ sym (append_assoc got (c ∷ []) (chunks st.resumed ++ st.read_queue));
          waits = w;
          counted = omega (arith, length-concat-append got c);
          credit = omega arith;
          prompt = omega arith;
        })
  | inr (untold, small) ↦ rw untold (record {
    fifo = f ∙ sym (append_assoc got (c ∷ []) (chunks st.resumed ++ st.read_queue));
    waits = w;
    counted = omega (arith, length-concat-append got c);
    credit = omega arith;
    prompt = small;
  })
]

module _ {st : StreamState} {came got : List Bytes} {reported : ℕ}
    (h : IsOrderly st came got reported) where
  push-IsOrderly :
      (c : Bytes) → st.closed ≡ false → IsOrderly (push_data c st) (came ++ (c ∷ [])) got reported
  push-IsOrderly c op = elim (Bool-cases st.read_resolve) [
    | inl w ↦
        let (q, r) = h.waits w in
        rw (push_waiting st c op w) (record {
          fifo = rw (r, q) (ap (λ t. t ++ (c ∷ [])) ((rw (r, q) at h.fifo) ∙ append-nil got));
          waits = λ e. cc;
          counted = h.counted;
          credit = h.credit;
          prompt = h.prompt;
        })
    | inr w ↦ rw (push_idle st c op w) (record {
      fifo =
          ap (λ t. t ++ (c ∷ [])) h.fifo
          ∙ append_assoc got (chunks st.resumed ++ st.read_queue) (c ∷ [])
          ∙ ap (λ t. got ++ t) (append_assoc (chunks st.resumed) st.read_queue (c ∷ []));
      waits = λ e. absurd (cc (e, w));
      counted = h.counted;
      credit = h.credit;
      prompt = h.prompt;
    })
  ]

  -- Ending a read that waits adds no chunk.
  resolve_read-IsOrderly : IsOrderly (resolve_read none st) came got reported
  resolve_read-IsOrderly = elim (Bool-cases st.read_resolve) [
    | inl w ↦ rw (resolve_waiting st w) (record {
      fifo = rw (chunks-append, append-nil) h.fifo;
      waits = λ e. cc;
      counted = h.counted;
      credit = h.credit;
      prompt = h.prompt;
    })
    | inr w ↦ rw (resolve_idle st w) h
  ]

  read-IsOrderly :
      (c : Bytes) (reported' : ℕ)
      → st.read_resolve ≡ false
      → st.resumed ≡ []
      → (read st).2 ≡ chunk c
      → Reports (read st).1 reported reported'
      → IsOrderly (read st).0 came (got ++ (c ∷ [])) reported'
  read-IsOrderly c reported' w r e p =
      let (rest, q, state, outs) = read_now st c st.read_queue refl e in
      rw (state, p, outs)
        (account_read-IsOrderly c (record st { read_queue = rest }) came got reported
          (h.fifo ∙ rw (r, q)) (λ e'. absurd (cc (e', w))) h.counted h.credit h.prompt)

  read_later-IsOrderly :
      st.resumed ≡ [] → (read st).2 ≡ pending → IsOrderly (read st).0 came got reported
  read_later-IsOrderly r e =
      let (q, state) = read_waits st st.read_queue refl e in
      rw state (record {
        fifo = h.fifo;
        waits = λ _. (q, r);
        counted = h.counted;
        credit = h.credit;
        prompt = h.prompt;
      })

  resume-IsOrderly :
      (c : Bytes) (reported' : ℕ)
      → (resume_read st).2 ≡ chunk c
      → Reports (resume_read st).1 reported reported'
      → IsOrderly (resume_read st).0 came (got ++ (c ∷ [])) reported'
  resume-IsOrderly c reported' e p =
      let (rest, q, state, outs) = resume_now st c st.resumed refl e in
      rw (state, p, outs)
        (account_read-IsOrderly c (record st { resumed = rest }) came got reported (h.fifo ∙ rw q)
          (λ e'. absurd (cc (q, (h.waits e').1))) h.counted h.credit h.prompt)

  resume_end-IsOrderly : (resume_read st).2 ≡ eof → IsOrderly (resume_read st).0 came got reported
  resume_end-IsOrderly e =
      let (rest, q, state) = resume_ends st st.resumed refl e in
      rw state (record {
        fifo = h.fifo ∙ rw q;
        waits = λ e'. absurd (cc (q, (h.waits e').1));
        counted = h.counted;
        credit = h.credit;
        prompt = h.prompt;
      })

-- What the operations that touch no part of the reading side keep.
same_reader :
    {st st' : StreamState} {came got : List Bytes} {reported : ℕ}
    → IsOrderly st came got reported
    → st'.resumed ≡ st.resumed
    → st'.read_queue ≡ st.read_queue
    → st'.read_resolve ≡ st.read_resolve
    → st'.num_read ≡ st.num_read
    → st'.upd_incr ≡ st.upd_incr
    → IsOrderly st' came got reported
same_reader h a b c d e = record {
  fifo = rw (a, b) h.fifo;
  waits = rw (a, b, c) h.waits;
  counted = rw d h.counted;
  credit = rw (d, e) h.credit;
  prompt = rw e h.prompt;
}

module _ {st : StreamState} {came got : List Bytes} {reported : ℕ}
    (h : IsOrderly st came got reported) where
  remote_fin-IsOrderly : IsOrderly (remote_fin st) came got reported
  unfolding remote_fin resolve_write
  remote_fin-IsOrderly =
      same_reader (resolve_read-IsOrderly (same_reader h refl refl refl refl refl)) refl refl refl
        refl refl

  peer_update-IsOrderly :
      (consumed window : ℕ) → IsOrderly (peer_update consumed window st) came got reported
  unfolding peer_update
  peer_update-IsOrderly consumed window =
      same_reader h (ground arith) (ground arith) (ground arith) (ground arith) (ground arith)

  stop-IsOrderly : IsOrderly (close false st).0 came got reported
  unfolding resolve_write
  stop-IsOrderly = elim (Bool-cases st.closed) [
    | inl shut ↦ rw (close_shut st shut) h
    | inr opened ↦ rw (close_open st opened) (
        same_reader (resolve_read-IsOrderly (same_reader h refl refl refl refl refl)) refl refl refl
          refl refl)
  ]

-- In every run of a stream with one reader: what the reader got, what is resolved for it and what
-- is queued are, in this order, the chunks that came; nothing is queued while a read waits; the
-- stream counts the bytes that the reader got, and what it has read beyond its last report (both
-- modulo 2 ^ 32) is less than half of the receive buffer.
pub Run-IsOrderly :
    {st : StreamState} {came got : List Bytes} {reported : ℕ}
    → Run st came got reported
    → IsOrderly st came got reported
Run-IsOrderly (start id) = record {
  fifo = refl;
  waits = λ e. absurd (cc e);
  counted = refl;
  credit = refl;
  prompt = omega arith;
}
Run-IsOrderly (push c r op) = push-IsOrderly (Run-IsOrderly r) c op
Run-IsOrderly (fin r) = remote_fin-IsOrderly (Run-IsOrderly r)
Run-IsOrderly (update consumed window r) = peer_update-IsOrderly (Run-IsOrderly r) consumed window
Run-IsOrderly (stop r) = stop-IsOrderly (Run-IsOrderly r)
Run-IsOrderly (read_at_once c reported' r w q e p) =
    read-IsOrderly (Run-IsOrderly r) c reported' w q e p
Run-IsOrderly (read_later r w q e) = read_later-IsOrderly (Run-IsOrderly r) q e
Run-IsOrderly (resume_end r e) = resume_end-IsOrderly (Run-IsOrderly r) e
Run-IsOrderly (resume c reported' r e p) = resume-IsOrderly (Run-IsOrderly r) c reported' e p

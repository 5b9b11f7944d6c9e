-- ===== src/Smux/Stream/Read/Steps.antt =====
-- What single operations do to the reading side of a stream.
use wisper.Prelude.{
  ◌+◌, ◌<◌, ◌≡◌, refl, ap, ◌⊎◌, inl, inr, true, false, ◌||◌, Option, none, some, List, [], ◌∷◌,
  ◌++◌, arith, leb, ◌==◌, Bool-cases, length, concat, length-append, Bytes,
}
use wisper.Smux.Frame.{cmd_upd, upd_payload}
use wisper.Smux.Stream.{
  close_job, StreamState, out_frame, max_stream_buffer, upd_threshold, resolve_read, resolve_write,
  push_data, account_read, chunk, eof, pending, read, resume_read, close,
}
use wisper.Smux.Stream.Read.{chunks}

pub chunks-append : (xs ys : List (Option Bytes)) → chunks (xs ++ ys) ≡ chunks xs ++ chunks ys
chunks-append [] ys = refl
chunks-append (some c ∷ xs) ys = ap (λ t. c ∷ t) (chunks-append xs ys)
chunks-append (none ∷ xs) ys = chunks-append xs ys

pub length-concat-append :
    (got : List Bytes) (c : Bytes)
    → length (concat (got ++ (c ∷ []))) ≡ length (concat got) + length c
length-concat-append [] c = omega (arith, length-append c [])
length-concat-append (g ∷ got) c = omega (
  arith,
  length-append g (concat (got ++ (c ∷ []))),
  length-append g (concat got),
  length-concat-append got c,
)

module _ (st : StreamState) where
  pub push_waiting :
      (c : Bytes)
      → st.closed ≡ false
      → st.read_resolve ≡ true
      → push_data c st ≡ record st { read_resolve = false; resumed = st.resumed ++ (some c ∷ []) }
  unfolding push_data
  push_waiting c op w = rw (op, w)

  pub push_idle :
      (c : Bytes)
      → st.closed ≡ false
      → st.read_resolve ≡ false
      → push_data c st ≡ record st { read_queue = st.read_queue ++ (c ∷ []) }
  unfolding push_data
  push_idle c op w = rw (op, w)

  pub resolve_waiting :
      st.read_resolve ≡ true
      → resolve_read none st
        ≡ record st { read_resolve = false; resumed = st.resumed ++ (none ∷ []) }
  unfolding resolve_read
  resolve_waiting w = rw w

  pub resolve_idle : st.read_resolve ≡ false → resolve_read none st ≡ st
  unfolding resolve_read
  resolve_idle w = rw w

  pub close_shut : st.closed ≡ true → (close false st).0 ≡ st
  unfolding close
  close_shut h = rw h

  pub close_open :
      st.closed ≡ false
      → (close false st).0
        ≡ record (resolve_write (resolve_read none (record st { closing = true }))) {
          write_tail = st.write_tail ++ (close_job ∷ []);
        }
  unfolding close
  close_open h = rw h

  pub account_cases :
      (c : Bytes)
      → ((account_read c st ≡ (
        record st { num_read = st.num_read + length c; upd_incr = 0 },
        out_frame cmd_upd (upd_payload (st.num_read + length c) max_stream_buffer) ∷ [],
      )))
        ⊎ ((account_read c st ≡ (
          record st { num_read = st.num_read + length c; upd_incr = st.upd_incr + length c },
          [],
        ))
            × (st.upd_incr + length c < upd_threshold))
  unfolding account_read
  account_cases c =
      elim (Bool-cases
        (st.num_read + length c == length c || leb upd_threshold (st.upd_incr + length c))) [
          | inl t ↦ inl (rw t)
          | inr t ↦ inr (rw t, ground arith)
        ]

  -- A read that returns a chunk took the head of the queue, and accounted for it.
  pub read_now :
      (c : Bytes) (queue : List Bytes)
      → st.read_queue ≡ queue
      → (read st).2 ≡ chunk c
      → (rest : List Bytes) × (queue ≡ c ∷ rest)
        × ((read st).0 ≡ (account_read c (record st { read_queue = rest })).0)
        × ((read st).1 ≡ (account_read c (record st { read_queue = rest })).1)
  unfolding read
  read_now c [] q e = absurd (ground arith)
  read_now c (d ∷ rest) q e = (rest, ground arith, ground arith, ground arith)

  pub read_waits :
      (queue : List Bytes)
      → st.read_queue ≡ queue
      → (read st).2 ≡ pending
      → (queue ≡ []) × ((read st).0 ≡ record st { read_resolve = true })
  unfolding read
  read_waits [] q e = ground arith
  read_waits (d ∷ rest) q e = absurd (ground arith)

  -- A continuation that returns a chunk took the oldest resolved value, and accounted for it.
  pub resume_now :
      (c : Bytes) (values : List (Option Bytes))
      → st.resumed ≡ values
      → (resume_read st).2 ≡ chunk c
      → (rest : List (Option Bytes)) × (values ≡ some c ∷ rest)
        × ((resume_read st).0 ≡ (account_read c (record st { resumed = rest })).0)
        × ((resume_read st).1 ≡ (account_read c (record st { resumed = rest })).1)
  unfolding resume_read
  resume_now c [] q e = absurd (ground arith)
  resume_now c (none ∷ rest) q e = absurd (ground arith)
  resume_now c (some d ∷ rest) q e = (rest, ground arith, ground arith, ground arith)

  pub resume_ends :
      (values : List (Option Bytes))
      → st.resumed ≡ values
      → (resume_read st).2 ≡ eof
      → (rest : List (Option Bytes)) × (values ≡ none ∷ rest)
        × ((resume_read st).0 ≡ record st { resumed = rest })
  unfolding resume_read
  resume_ends [] q e = absurd (ground arith)
  resume_ends (none ∷ rest) q e = (rest, refl, ground arith)
  resume_ends (some d ∷ rest) q e = absurd (ground arith)

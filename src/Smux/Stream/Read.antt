-- ===== src/Smux/Stream/Read.antt =====
-- The reading side of a stream over any run: the bytes come out in the order in which they came in,
-- and the credit that is reported keeps up with what was read.
pub mod Steps
pub mod Orderly
use wisper.Prelude.{
  ℕ, zero, suc, ◌+◌, ◌-◌, ◌*◌, ◌/◌, ◌%◌, ◌^◌, ◌≤◌, ◌<◌, min, ◌≡◌, refl, sym, ap, ◌∙◌, ◌≢◌, ◌↔◌, ◌⊎◌,
  inl, inr, Bool, true, false, not, ◌&&◌, ◌||◌, Option, none, some, List, [], ◌∷◌, ◌++◌, map,
  append-nil, append_assoc, arith, ltb, leb, ◌==◌, if◌then◌else◌, ==_iff, Bool-cases, Option-cases,
  length, get_elem?, get_or, set, take, drop, All, concat, length-append, take-append-drop,
  length-take, length-drop, take-append_left, drop-append_left, take-append_le, drop-append_le,
  All-append, Bytes, IsByte, u8, u16_be, get_u16_be, u16_le, get_u16_le, u32_le, get_u32_le,
  get_u16_be-u16_be, get_u16_le-u16_le, get_u32_le-u32_le,
}
use wisper.Smux.Frame.{cmd_upd, upd_payload, read_upd}
use wisper.Smux.Stream.{
  Writer, writer_idle, writer_blocked, writer_resumed, StreamState, new_stream, Out, out_frame,
  out_remove, max_stream_buffer, upd_threshold, resolve_read, resolve_write, push_data, remote_fin,
  peer_update, account_read, ReadResult, chunk, eof, pending, read, resume_read, write, close,
}

abbrev pub told : ℕ → Option (ℕ × ℕ) → ℕ
told before none = before
told before (some (consumed, window)) = consumed

-- The 32-bit count of consumed bytes that the peer was last told of, after the frames of one read.
abbrev pub report : ℕ → List Out → ℕ
report before [] = before
report before (out_frame cmd payload ∷ outs) = told before (read_upd payload)
report before (out_remove ∷ outs) = before

abbrev pub Reports : List Out → ℕ → ℕ → Type 0
Reports outs before after = after ≡ report before outs

-- The runs of a stream with one reader, which calls `read()` again only when the call before has
-- given its result: the state, the chunks pushed, the chunks that the reader got, and the count of
-- bytes that was last reported to the peer. The stream may be closed gracefully or by the peer.
pub data Run : StreamState → List Bytes → List Bytes → ℕ → Type 0 where
  start : (id : ℕ) → Run (new_stream id) [] [] 0
  push :
      {st : StreamState} {came got : List Bytes} {reported : ℕ} (c : Bytes)
      → Run st came got reported
      → st.closed ≡ false
      → Run (push_data c st) (came ++ (c ∷ [])) got reported
  fin :
      {st : StreamState} {came got : List Bytes} {reported : ℕ}
      → Run st came got reported
      → Run (remote_fin st) came got reported
  update :
      {st : StreamState} {came got : List Bytes} {reported : ℕ} (consumed window : ℕ)
      → Run st came got reported
      → Run (peer_update consumed window st) came got reported
  stop :
      {st : StreamState} {came got : List Bytes} {reported : ℕ}
      → Run st came got reported
      → Run (close false st).0 came got reported
  read_at_once :
      {st : StreamState} {came got : List Bytes} {reported : ℕ} (c : Bytes) (reported' : ℕ)
      → Run st came got reported
      → st.read_resolve ≡ false
      → st.resumed ≡ []
      → (read st).2 ≡ chunk c
      → Reports (read st).1 reported reported'
      → Run (read st).0 came (got ++ (c ∷ [])) reported'
  read_later :
      {st : StreamState} {came got : List Bytes} {reported : ℕ}
      → Run st came got reported
      → st.read_resolve ≡ false
      → st.resumed ≡ []
      → (read st).2 ≡ pending
      → Run (read st).0 came got reported
  resume_end :
      {st : StreamState} {came got : List Bytes} {reported : ℕ}
      → Run st came got reported
      → (resume_read st).2 ≡ eof
      → Run (resume_read st).0 came got reported
  resume :
      {st : StreamState} {came got : List Bytes} {reported : ℕ} (c : Bytes) (reported' : ℕ)
      → Run st came got reported
      → (resume_read st).2 ≡ chunk c
      → Reports (resume_read st).1 reported reported'
      → Run (resume_read st).0 came (got ++ (c ∷ [])) reported'

-- The chunks among the values that continuations have still to take.
abbrev pub chunks : List (Option Bytes) → List Bytes
chunks [] = []
chunks (some c ∷ rest) = c ∷ chunks rest
chunks (none ∷ rest) = chunks rest

pub record IsOrderly (st : StreamState) (came got : List Bytes) (reported : ℕ) : Type 0 where
  pub fifo : came ≡ got ++ (chunks st.resumed ++ st.read_queue)
  pub waits : st.read_resolve ≡ true → (st.read_queue ≡ []) × (st.resumed ≡ [])
  pub counted : st.num_read ≡ length (concat got)
  pub credit : st.num_read % 2 ^ 32 ≡ (reported + st.upd_incr) % 2 ^ 32
  pub prompt : st.upd_incr < upd_threshold

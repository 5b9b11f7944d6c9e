-- ===== src/Ws/Decoder/Messages.antt =====
-- What the decoder makes of whole frames in a row, and of a message in fragments.
use wisper.Prelude.{
  ℕ, zero, suc, ◌^◌, ◌≤◌, ◌<◌, ◌≡◌, refl, ap, ◌∙◌, inl, inr, true, false, ◌||◌, Option, none, some,
  List, [], ◌∷◌, ◌++◌, append-nil, append_assoc, arith, ltb, ◌==◌, Bool-cases, length, All, concat,
  length-append, Bytes,
}
use wisper.Ws.Frame.{op_cont, op_text, op_binary, op_close, op_ping, op_pong, MaskKey}
use wisper.Ws.Decoder.{
  Event, data_event, close_event, ping_event, pong_event, WsDecoder, Parsed, incomplete, more,
  event, scan, dispatch, parse_one, parse_loop, parse,
}
use wisper.Ws.Encode.{encode_header, encode_ws_frame}
use wisper.Ws.Encode.RoundTrip.{scan-encode_ws_frame}

-- What a sender sends in one frame.
pub data Message : Type 0 where
  text : Bytes → Message
  binary : Bytes → Message
  closing : Bytes → Message
  ping : Bytes → Message
  pong : Bytes → Message

abbrev pub opcode_of : Message → ℕ
opcode_of (text _) = op_text
opcode_of (binary _) = op_binary
opcode_of (closing _) = op_close
opcode_of (ping _) = op_ping
opcode_of (pong _) = op_pong

abbrev pub payload_of : Message → Bytes
payload_of (text p) = p
payload_of (binary p) = p
payload_of (closing p) = p
payload_of (ping p) = p
payload_of (pong p) = p

abbrev pub event_of : Message → Event
event_of (text p) = data_event op_text p
event_of (binary p) = data_event op_binary p
event_of (closing p) = close_event p
event_of (ping p) = ping_event p
event_of (pong p) = pong_event p

-- The frames of messages, each with its own mask or none, one after the other.
abbrev pub encode_all : List (Message × Option MaskKey) → Bytes
encode_all [] = []
encode_all ((m, mask) ∷ ms) = encode_ws_frame (opcode_of m) (payload_of m) mask ++ encode_all ms

abbrev pub events_of : List (Message × Option MaskKey) → List Event
events_of [] = []
events_of ((m, mask) ∷ ms) = event_of m ∷ events_of ms

abbrev pub AllFit : List (Message × Option MaskKey) → Type 0
AllFit ms = All (λ m. length (payload_of m.0) < 2 ^ 32) ms

pub opcode_of-lt : (m : Message) → opcode_of m < 16
opcode_of-lt (text p) = omega arith
opcode_of-lt _ = omega arith

pub dispatch-message :
    (m : Message) (frag : Option (ℕ × Bytes))
    → dispatch true (opcode_of m) (payload_of m) frag ≡ (event (event_of m), frag)
unfolding dispatch
dispatch-message (text p) frag = refl
dispatch-message _ frag = refl

-- What `parse_loop` does with the answer of `parse_one`.
after_one : ℕ → Parsed × WsDecoder → List Event × WsDecoder
after_one fuel (p, d) = elim p [
  | incomplete ↦ ([], d)
  | more ↦ parse_loop fuel d
  | event e ↦ (e ∷ (parse_loop fuel d).0, (parse_loop fuel d).1)
]

parse_one-message :
    (m : Message) (mask : Option MaskKey) (rest : Bytes) (frag : Option (ℕ × Bytes))
    → length (payload_of m) < 2 ^ 32
    → parse_one
        (record { buf = encode_ws_frame (opcode_of m) (payload_of m) mask ++ rest; frag = frag })
      ≡ (event (event_of m), record { buf = rest; frag = frag })
unfolding parse_one
parse_one-message m mask rest frag h =
    rw
      (
        scan-encode_ws_frame (opcode_of m) (payload_of m) rest mask (opcode_of-lt m) h,
        dispatch-message m frag,
      )
      refl

pub parse_loop-event :
    (fuel : ℕ) (d d' : WsDecoder) (e : Event)
    → parse_one d ≡ (event e, d')
    → parse_loop (suc fuel) d ≡ (e ∷ (parse_loop fuel d').0, (parse_loop fuel d').1)
unfolding parse_loop after_one
parse_loop-event fuel d d' e h = ap (after_one fuel) h

pub parse_loop-incomplete :
    (fuel : ℕ) (d d' : WsDecoder)
    → parse_one d ≡ (incomplete, d')
    → parse_loop (suc fuel) d ≡ ([], d')
unfolding parse_loop after_one
parse_loop-incomplete fuel d d' h = ap (after_one fuel) h

parse_loop-messages :
    (ms : List (Message × Option MaskKey)) (fuel : ℕ) (frag : Option (ℕ × Bytes))
    → AllFit ms
    → length ms < fuel
    → parse_loop fuel (record { buf = encode_all ms; frag = frag })
      ≡ (events_of ms, record { buf = []; frag = frag })
unfolding parse_loop
parse_loop-messages ms zero frag h f = absurd (omega arith)
parse_loop-messages [] (suc fuel) frag h f = unfold parse_one scan in refl
parse_loop-messages ((m, mask) ∷ ms) (suc fuel) frag h f =
    parse_loop-event fuel _ _ (event_of m) (parse_one-message m mask (encode_all ms) frag h.0)
    ∙ rw (parse_loop-messages ms fuel frag h.1 (omega arith))

pub encode_ws_frame-ne-nil :
    (opcode : ℕ) (payload : Bytes) (mask : Option MaskKey)
    → 1 ≤ length (encode_ws_frame opcode payload mask)
unfolding encode_ws_frame encode_header
encode_ws_frame-ne-nil opcode payload mask = elim (Bool-cases (ltb (length payload) 126)) [
  | inl short ↦ rw short (omega arith)
  | inr long ↦ elim (Bool-cases (ltb (length payload) 65536)) [
    | inl middle ↦ rw (long, middle) (omega arith)
    | inr huge ↦ rw (long, huge) (omega arith)
  ]
]

length-encode_all : (ms : List (Message × Option MaskKey)) → length ms ≤ length (encode_all ms)
length-encode_all [] = omega arith
length-encode_all ((m, mask) ∷ ms) = omega (
  arith,
  length-append (encode_ws_frame (opcode_of m) (payload_of m) mask) (encode_all ms),
  encode_ws_frame-ne-nil (opcode_of m) (payload_of m) mask,
  length-encode_all ms,
)

-- A buffer that holds the frames of any messages, each of fewer than 2 ^ 32 bytes and masked or not,
-- is parsed into exactly their events, in order; nothing is left of it, and a message in fragments
-- that was under way still is.
pub parse-messages :
    (ms : List (Message × Option MaskKey)) (frag : Option (ℕ × Bytes))
    → AllFit ms
    → parse (record { buf = encode_all ms; frag = frag })
      ≡ (events_of ms, record { buf = []; frag = frag })
unfolding parse
parse-messages ms frag h =
    parse_loop-messages ms (suc (length (encode_all ms))) frag h
      (omega (arith, length-encode_all ms))

-- The payloads of continuation frames, none of them final.
abbrev pub continue : List Bytes → Option (ℕ × Bytes) → Option (ℕ × Bytes)
continue [] frag = frag
continue (p ∷ ps) frag = continue ps (dispatch false op_cont p frag).1

continue-concat :
    (ps : List Bytes) (opcode : ℕ) (before : Bytes)
    → continue ps (some (opcode, before)) ≡ some (opcode, before ++ concat ps)
unfolding dispatch
continue-concat [] opcode before = rw append-nil
continue-concat (p ∷ ps) opcode before = continue-concat ps opcode (before ++ p) ∙ rw append_assoc

opening :
    (opcode : ℕ) (first : Bytes) (frag : Option (ℕ × Bytes))
    → ((opcode == op_text) || (opcode == op_binary)) ≡ true
    → (dispatch false opcode first frag).1 ≡ some (opcode, first)
unfolding dispatch
opening opcode first frag h = rw h

final :
    (opcode : ℕ) (before last : Bytes)
    → dispatch true op_cont last (some (opcode, before))
      ≡ (event (data_event opcode (before ++ last)), none)
unfolding dispatch
final opcode before last = refl

-- A text or binary message in fragments (a first frame, any number of continuations, and a final
-- one) gives, at the final frame, one event with the opcode of the first frame and all payloads in
-- order, and no message is under way then.
pub dispatch-fragments :
    (opcode : ℕ) (first last : Bytes) (middle : List Bytes) (frag : Option (ℕ × Bytes))
    → ((opcode == op_text) || (opcode == op_binary)) ≡ true
    → dispatch true op_cont last (continue middle (dispatch false opcode first frag).1)
      ≡ (event (data_event opcode (first ++ (concat middle ++ last))), none)
dispatch-fragments opcode first last middle frag h =
    rw (opening opcode first frag h, continue-concat middle opcode first, final) (rw append_assoc)

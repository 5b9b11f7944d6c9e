-- ===== src/Ws/Decoder/Cuts.antt =====
-- Frames of ws-codec.js that come in pieces: pushing and parsing chunk by chunk.
use wisper.Prelude.{
  ℕ, zero, suc, ◌≤◌, ◌<◌, ◌≡◌, refl, sym, ap, ◌∙◌, ◌⊎◌, inl, inr, Bool, true, false, not, Option,
  List, [], ◌∷◌, ◌++◌, append-nil, append_assoc, arith, ltb, ◌==◌, Bool-cases, length, concat,
  length-append, take-append_le, drop-append_le, Bytes, subst,
}
use Prim.Native.Nat.{bit_and}
use wisper.Ws.Frame.{MaskKey, Length, len_more, len_too_big, len_known, read_length}
use wisper.Ws.Frame.Prefix.{lengthened, read_length-append}
use wisper.Ws.Decoder.{
  Event, WsDecoder, push, Scan, scan_incomplete, scan_too_big, scan_frame, scan_payload,
  scan_masked, scan_body, scan, parse_one, parse_loop, parse,
}
use wisper.Ws.Decoder.Messages.{
  Message, opcode_of, payload_of, event_of, encode_all, events_of, AllFit, opcode_of-lt,
  dispatch-message, encode_ws_frame-ne-nil, parse_loop-event, parse_loop-incomplete, parse-messages,
}
use wisper.Ws.Encode.{encode_ws_frame}
use wisper.Ws.Encode.RoundTrip.{scan-encode_ws_frame}

-- What a buffer gives with more bytes behind it, where it gave something already.
abbrev extended : Bytes → Scan → Scan
extended x scan_incomplete = scan_incomplete
extended x scan_too_big = scan_too_big
extended x (scan_frame fin opcode payload rest) = scan_frame fin opcode payload (rest ++ x)

abbrev Stays : Bytes → Scan → Scan → Type 0
Stays x before after = (before ≡ scan_incomplete) ⊎ (after ≡ extended x before)

scan_payload-Stays :
    (fin : Bool) (opcode len : ℕ) (b x : Bytes)
    → Stays x (scan_payload fin opcode len b) (scan_payload fin opcode len (b ++ x))
unfolding scan_payload
scan_payload-Stays fin opcode len b x = elim (Bool-cases (ltb (length b) len)) [
  | inl short ↦ inl (rw short refl)
  | inr whole ↦
      let fits : len ≤ length b = ground arith in
      let still : ltb (length (b ++ x)) len ≡ false = ground (arith, length-append b x) in
      inr (rw (whole, still, take-append_le len b x fits, drop-append_le len b x fits) refl)
]

scan_masked-Stays :
    (fin : Bool) (opcode len : ℕ) (b x : Bytes)
    → Stays x (scan_masked fin opcode len b) (scan_masked fin opcode len (b ++ x))
unfolding scan_masked
scan_masked-Stays fin opcode len [] x = inl refl
scan_masked-Stays fin opcode len (k0 ∷ []) x = inl refl
scan_masked-Stays fin opcode len (k0 ∷ k1 ∷ []) x = inl refl
scan_masked-Stays fin opcode len (k0 ∷ k1 ∷ k2 ∷ []) x = inl refl
scan_masked-Stays fin opcode len (k0 ∷ k1 ∷ k2 ∷ k3 ∷ b) x =
    elim (Bool-cases (ltb (length b) len)) [
      | inl short ↦ inl (rw short refl)
      | inr whole ↦
          let fits : len ≤ length b = ground arith in
          let still : ltb (length (b ++ x)) len ≡ false = ground (arith, length-append b x) in
          inr (rw (whole, still, take-append_le len b x fits, drop-append_le len b x fits) refl)
    ]

scan_body-Stays :
    (fin : Bool) (opcode : ℕ) (masked : Bool) (len : Length) (x : Bytes)
    → Stays x (scan_body fin opcode masked len) (scan_body fin opcode masked (lengthened x len))
unfolding scan_body
scan_body-Stays fin opcode masked len_more x = inl refl
scan_body-Stays fin opcode masked len_too_big x = inr refl
scan_body-Stays fin opcode true (len_known len rest) x = scan_masked-Stays fin opcode len rest x
scan_body-Stays fin opcode false (len_known len rest) x = scan_payload-Stays fin opcode len rest x

-- A frame that is whole, or too big, is so with whatever bytes behind it.
scan-Stays : (b x : Bytes) → Stays x (scan b) (scan (b ++ x))
unfolding scan scan_body
scan-Stays [] x = inl refl
scan-Stays (b0 ∷ []) x = inl refl
scan-Stays (b0 ∷ b1 ∷ rest) x =
    let fin = not (bit_and b0 0x80 == 0) in
    let masked = not (bit_and b1 0x80 == 0) in
    let opcode = bit_and b0 0x0f in
    let len = read_length (bit_and b1 0x7f) rest in
    elim (read_length-append (bit_and b1 0x7f) rest x) [
      | inl short ↦ inl (ap (scan_body fin opcode masked) short)
      | inr whole ↦
          subst (λ l. Stays x (scan_body fin opcode masked len) (scan_body fin opcode masked l))
            (sym whole) (scan_body-Stays fin opcode masked len x)
    ]

-- A scan in front of `x` that goes with a frame whose rest is `rest`: none yet, or the frame.
abbrev Front : Bytes → Bytes → Bytes → Bool → ℕ → Scan → Type 0
Front x rest payload fin opcode s =
    (s ≡ scan_incomplete)
    ⊎ ((r : Bytes) × ((s ≡ scan_frame fin opcode payload r) × (r ++ x ≡ rest)))

rest_of : Scan → Bytes
rest_of (scan_frame fin opcode payload rest) = rest
rest_of s = []

with_rest : Bytes → Scan → Scan
with_rest r (scan_frame fin opcode payload rest) = scan_frame fin opcode payload r
with_rest r s = s

is_frame : Scan → Bool
is_frame (scan_frame fin opcode payload rest) = true
is_frame s = false

extended-Front :
    (s : Scan) (x rest payload : Bytes) (fin : Bool) (opcode : ℕ)
    → scan_frame fin opcode payload rest ≡ extended x s
    → Front x rest payload fin opcode s
unfolding rest_of with_rest is_frame
extended-Front scan_incomplete x rest payload fin opcode h = inl refl
extended-Front scan_too_big x rest payload fin opcode h =
    let e : true ≡ false = ap is_frame h in absurd (ground arith)
extended-Front (scan_frame f o p r) x rest payload fin opcode h =
    inr (r, (sym (ap (with_rest r) h), sym (ap rest_of h)))

-- The front of a buffer that starts with a frame is too short for a frame, or it has that frame.
scan-Front :
    (b x rest payload : Bytes) (fin : Bool) (opcode : ℕ)
    → scan (b ++ x) ≡ scan_frame fin opcode payload rest
    → Front x rest payload fin opcode (scan b)
scan-Front b x rest payload fin opcode h = elim (scan-Stays b x) [
  | inl short ↦ inl short
  | inr whole ↦ extended-Front (scan b) x rest payload fin opcode (sym h ∙ whole)
]

-- What a part of the frames of messages gives: the events of the messages that are whole in it.
pub record Part (ms : List (Message × Option MaskKey)) (x : Bytes) (frag : Option (ℕ × Bytes))
    (result : List Event × WsDecoder) : Type 0 where
  pub done : List (Message × Option MaskKey)
  pub left : List (Message × Option MaskKey)
  pub kept : Bytes
  pub gives : result ≡ (events_of done, record { buf = kept; frag = frag })
  pub parts : ms ≡ done ++ left
  pub behind : kept ++ x ≡ encode_all left
  pub fits : AllFit left

events_of-append :
    (ms ns : List (Message × Option MaskKey)) → events_of (ms ++ ns) ≡ events_of ms ++ events_of ns
events_of-append [] ns = refl
events_of-append (m ∷ ms) ns = ap (λ es. event_of m.0 ∷ es) (events_of-append ms ns)

parse_loop-short :
    (fuel : ℕ) (d : WsDecoder) → scan d.buf ≡ scan_incomplete → parse_loop (suc fuel) d ≡ ([], d)
parse_loop-short fuel d h = parse_loop-incomplete fuel d d (unfold parse_one in rw h refl)

parse_loop-frame :
    (fuel : ℕ) (m : Message) (b r : Bytes) (frag : Option (ℕ × Bytes)) (es : List Event)
    (d : WsDecoder)
    → scan b ≡ scan_frame true (opcode_of m) (payload_of m) r
    → parse_loop fuel (record { buf = r; frag = frag }) ≡ (es, d)
    → parse_loop (suc fuel) (record { buf = b; frag = frag }) ≡ (event_of m ∷ es, d)
parse_loop-frame fuel m b r frag es d frame after =
    parse_loop-event fuel (record { buf = b; frag = frag }) (record { buf = r; frag = frag })
      (event_of m) (unfold parse_one in rw (frame, dispatch-message m frag) refl)
    ∙ rw after

-- What is left behind the first frame is shorter than the buffer.
rest-lt :
    (m : Message) (mask : Option MaskKey) (ms : List (Message × Option MaskKey)) (b r x : Bytes)
    → b ++ x ≡ encode_all ((m, mask) ∷ ms)
    → r ++ x ≡ encode_all ms
    → length r < length b
rest-lt m mask ms b r x whole behind =
    let frame = encode_ws_frame (opcode_of m) (payload_of m) mask in
    omega (
      arith,
      ap length whole,
      ap length behind,
      length-append b x,
      length-append r x,
      length-append frame (encode_all ms),
      encode_ws_frame-ne-nil (opcode_of m) (payload_of m) mask,
    )

parse_loop-Part :
    (ms : List (Message × Option MaskKey)) (fuel : ℕ) (b x : Bytes) (frag : Option (ℕ × Bytes))
    → AllFit ms
    → b ++ x ≡ encode_all ms
    → length b < fuel
    → Part ms x frag (parse_loop fuel (record { buf = b; frag = frag }))
parse_loop-Part ms zero b x frag fit whole f = absurd (omega arith)
parse_loop-Part [] (suc fuel) [] x frag fit whole f = record {
  done = [];
  left = [];
  kept = [];
  gives = parse_loop-short fuel _ (unfold scan in refl);
  parts = refl;
  behind = whole;
  fits = fit;
}
parse_loop-Part [] (suc fuel) (c ∷ b) x frag fit whole f = absurd (omega (arith, ap length whole))
parse_loop-Part ((m, mask) ∷ ms) (suc fuel) b x frag fit whole f =
    elim (scan-Front b x (encode_all ms) (payload_of m) true (opcode_of m) (
      ap scan whole
      ∙ scan-encode_ws_frame (opcode_of m) (payload_of m) (encode_all ms) mask (opcode_of-lt m)
          fit.0)) [
            | inl short ↦ record {
              done = [];
              left = (m, mask) ∷ ms;
              kept = b;
              gives = parse_loop-short fuel _ short;
              parts = refl;
              behind = whole;
              fits = fit;
            }
            | inr (r, (frame, behind)) ↦
                let rest =
                  parse_loop-Part ms fuel r x frag fit.1 behind
                    (omega (arith, rest-lt m mask ms b r x whole behind)) in
                record {
                  done = (m, mask) ∷ rest.done;
                  left = rest.left;
                  kept = rest.kept;
                  gives = parse_loop-frame fuel m b r frag (events_of rest.done) _ frame rest.gives;
                  parts = ap (λ l. (m, mask) ∷ l) rest.parts;
                  behind = rest.behind;
                  fits = rest.fits;
                }
          ]

-- One chunk behind what is left of earlier ones, in front of `x`.
pub parse-Part :
    (ms : List (Message × Option MaskKey)) (b c x : Bytes) (frag : Option (ℕ × Bytes))
    → AllFit ms
    → b ++ (c ++ x) ≡ encode_all ms
    → Part ms x frag (parse (push c (record { buf = b; frag = frag })))
unfolding push parse
parse-Part ms b c x frag fit whole =
    parse_loop-Part ms (suc (length (b ++ c))) (b ++ c) x frag fit (append_assoc b c x ∙ whole)
      (omega arith)

-- Chunks as they come: each is pushed, and the decoder parsed.
abbrev pub feed : List Bytes → WsDecoder → List Event × WsDecoder
feed [] d = ([], d)
feed (c ∷ cs) d = let (es, d') = parse (push c d) in let (es', d'') = feed cs d' in (es ++ es', d'')

feed-next :
    (c : Bytes) (cs : List Bytes) (d d' d'' : WsDecoder) (es es' : List Event)
    → parse (push c d) ≡ (es, d')
    → feed cs d' ≡ (es', d'')
    → feed (c ∷ cs) d ≡ (es ++ es', d'')
feed-next c cs d d' d'' es es' now then_ =
    ap (λ q. (q.0 ++ (feed cs q.1).0, (feed cs q.1).1)) now ∙ ap (λ q. (es ++ q.0, q.1)) then_

-- The frames of any messages, each of fewer than 2 ^ 32 bytes and masked or not, cut into any chunks
-- that are pushed and parsed one by one (the first onto what is left of earlier ones), give all in
-- all exactly the events of the messages, in order; nothing is left in the buffer, and a message in
-- fragments that was under way still is.
pub feed-messages :
    (cs : List Bytes) (c b : Bytes) (ms : List (Message × Option MaskKey))
    (frag : Option (ℕ × Bytes))
    → AllFit ms
    → b ++ concat (c ∷ cs) ≡ encode_all ms
    → feed (c ∷ cs) (record { buf = b; frag = frag })
      ≡ (events_of ms, record { buf = []; frag = frag })
unfolding push parse
feed-messages [] c b ms frag fit whole =
    let all : b ++ c ≡ encode_all ms = rw append-nil at whole in
    let done : WsDecoder = record { buf = []; frag = frag } in
    feed-next c [] (record { buf = b; frag = frag }) done done (events_of ms) []
      (rw all (parse-messages ms frag fit)) refl
    ∙ rw append-nil
feed-messages (c' ∷ cs) c b ms frag fit whole =
    let p = parse-Part ms b c (concat (c' ∷ cs)) frag fit whole in
    feed-next c (c' ∷ cs) (record { buf = b; frag = frag }) _ _ (events_of p.done)
      (events_of p.left) p.gives (feed-messages cs c' p.kept p.left frag p.fits p.behind)
    ∙ ap (λ es. (es, record { buf = []; frag = frag }))
        (sym (ap events_of p.parts ∙ events_of-append p.done p.left))

-- ===== src/Ws/Decoder.antt =====
-- The class `WsDecoder` of ws-codec.js.
pub mod Messages
pub mod Cuts
use wisper.Prelude.{
  ℕ, zero, suc, ◌+◌, ◌-◌, ◌*◌, ◌/◌, ◌%◌, ◌^◌, ◌≤◌, ◌<◌, min, ◌≡◌, refl, sym, ap, ◌∙◌, ◌≢◌, ◌↔◌, ◌⊎◌,
  inl, inr, Bool, true, false, not, ◌&&◌, ◌||◌, Option, none, some, List, [], ◌∷◌, ◌++◌, map,
  append-nil, append_assoc, arith, ltb, leb, ◌==◌, if◌then◌else◌, ==_iff, Bool-cases, Option-cases,
  length, get_elem?, get_or, set, take, drop, All, concat, length-append, take-append-drop,
  length-take, length-drop, take-append_left, drop-append_left, take-append_le, drop-append_le,
  All-append, Bytes, IsByte, u8, u16_be, get_u16_be, u16_le, get_u16_le, u32_le, get_u32_le,
  get_u16_be-u16_be, get_u16_le-u16_le, get_u32_le-u32_le,
}
use Prim.Native.Nat.{bit_and}
use wisper.Ws.Frame.{
  op_cont, op_text, op_binary, op_close, op_ping, op_pong, MaskKey, apply_mask, Length, len_more,
  len_too_big, len_known, read_length,
}

pub data Event : Type 0 where
  data_event : ℕ → Bytes → Event
  close_event : Bytes → Event
  ping_event : Bytes → Event
  pong_event : Bytes → Event

-- `_frag`: the opcode and what has come of a message in fragments
pub record WsDecoder : Type 0 where
  pub buf : Bytes
  pub frag : Option (ℕ × Bytes)

abbrev pub new_decoder : WsDecoder
new_decoder = record { buf = []; frag = none }

-- `push(data)`
unfoldable pub push : Bytes → WsDecoder → WsDecoder
push chunk d = record d { buf = d.buf ++ chunk }

-- What `_parseOne` returns: `null`, 'more', or an event.
pub data Parsed : Type 0 where
  incomplete : Parsed
  more : Parsed
  event : Event → Parsed

-- `_parseOne` behind the consumption of a frame, on the payload after demasking.
unfoldable pub dispatch : Bool → ℕ → Bytes → Option (ℕ × Bytes) → Parsed × Option (ℕ × Bytes)
dispatch fin opcode payload frag =
    if (opcode == op_text) || (opcode == op_binary)
    then (if fin then (event (data_event opcode payload), frag) else (more, some (opcode, payload)))
    else if opcode == op_cont
    then elim frag [
      | none ↦ (event (close_event []), none)
      | some (op, before) ↦
          if fin
          then (event (data_event op (before ++ payload)), none)
          else (more, some (op, before ++ payload))
    ]
    else if opcode == op_close
    then (event (close_event payload), frag)
    else if opcode == op_ping
    then (event (ping_event payload), frag)
    else if opcode == op_pong
    then (event (pong_event payload), frag)
    else (event (close_event []), frag)

-- A whole frame in front of a buffer, or why there is none.
pub data Scan : Type 0 where
  scan_incomplete : Scan
  scan_too_big : Scan
  scan_frame : Bool → ℕ → Bytes → Bytes → Scan

scan_payload : Bool → ℕ → ℕ → Bytes → Scan
scan_payload fin opcode len rest =
    if ltb (length rest) len
    then scan_incomplete
    else scan_frame fin opcode (take len rest) (drop len rest)

scan_masked : Bool → ℕ → ℕ → Bytes → Scan
scan_masked fin opcode len (k0 ∷ k1 ∷ k2 ∷ k3 ∷ rest) =
    if ltb (length rest) len
    then scan_incomplete
    else scan_frame fin opcode
        (apply_mask (record { k0 = k0; k1 = k1; k2 = k2; k3 = k3 }) (take len rest)) (drop len rest)
scan_masked fin opcode len _ = scan_incomplete

unfoldable pub scan_body : Bool → ℕ → Bool → Length → Scan
unfolding scan_payload scan_masked
scan_body fin opcode masked len_more = scan_incomplete
scan_body fin opcode masked len_too_big = scan_too_big
scan_body fin opcode masked (len_known len rest) =
    if masked then scan_masked fin opcode len rest else scan_payload fin opcode len rest

-- The header and the payload in front of `this._buf`.
unfoldable pub scan : Bytes → Scan
scan (b0 ∷ b1 ∷ rest) =
    scan_body (not (bit_and b0 0x80 == 0)) (bit_and b0 0x0f) (not (bit_and b1 0x80 == 0))
      (read_length (bit_and b1 0x7f) rest)
scan _ = scan_incomplete

after_scan : Scan → WsDecoder → Parsed × WsDecoder
unfolding dispatch
after_scan scan_incomplete d = (incomplete, d)
after_scan scan_too_big d = (event (close_event []), record d { buf = [] })
after_scan (scan_frame fin opcode payload rest) d =
    let (p, frag) = dispatch fin opcode payload d.frag in (p, record { buf = rest; frag = frag })

-- `_parseOne()`
unfoldable pub parse_one : WsDecoder → Parsed × WsDecoder
unfolding after_scan
parse_one d = after_scan (scan d.buf) d

-- `parse()`. Each round but the last takes two bytes at least.
unfoldable pub parse_loop : ℕ → WsDecoder → List Event × WsDecoder
parse_loop zero d = ([], d)
parse_loop (suc fuel) d =
    let (p, d') = parse_one d in
    elim p [
      | incomplete ↦ ([], d')
      | more ↦ parse_loop fuel d'
      | event e ↦ (let (es, d'') = parse_loop fuel d' in (e ∷ es, d''))
    ]

unfoldable pub parse : WsDecoder → List Event × WsDecoder
parse d = parse_loop (suc (length d.buf)) d

-- ===== src/Forward/Sockets.antt =====
-- `forwardWebSocket` and `relayVisitorFrames` of forwarder.js: the bridges between visitors and local
-- WebSockets, and the map `activeWebSockets` that they share.
--   A bridge is an index, and stands in the list from its call on. An `await` is a later event: `accepted`
-- when `wsAccept` is settled, `switched` when the 101 is written. A backend that closes is not OPEN.
use wisper.Prelude.{
  ℕ, zero, suc, ◌+◌, ◌-◌, ◌*◌, ◌/◌, ◌%◌, ◌^◌, ◌≤◌, ◌<◌, min, ◌≡◌, refl, sym, ap, ◌∙◌, ◌≢◌, ◌↔◌, ◌⊎◌,
  inl, inr, Bool, true, false, not, ◌&&◌, ◌||◌, Option, none, some, List, [], ◌∷◌, ◌++◌, map,
  append-nil, append_assoc, arith, ltb, leb, ◌==◌, if◌then◌else◌, ==_iff, Bool-cases, Option-cases,
  length, get_elem?, get_or, set, take, drop, All, concat, length-append, take-append-drop,
  length-take, length-drop, take-append_left, drop-append_left, take-append_le, drop-append_le,
  All-append, Bytes, IsByte, u8, u16_be, get_u16_be, u16_le, get_u16_le, u32_le, get_u32_le,
  get_u16_be-u16_be, get_u16_le-u16_le, get_u32_le-u32_le, subst, if-both,
}
use wisper.Prelude.Text.{Text, TextCodec, codes, join, show_number}
use wisper.Forward.Bridge.{visitor_close, parse_close_code, strip_permessage_deflate}
use wisper.Forward.Response.{head_text, own_fields, crlf}
use wisper.Ws.Frame.{op_text, op_binary, op_pong}
use wisper.Ws.Decoder.{
  WsDecoder, push, parse, data_event, close_event, ping_event, pong_event, Event as WsEvent,
}
use wisper.Ws.Encode.{encode_ws_frame}
pub mod Keyed
pub mod Isolated
pub mod Live
pub mod Delivered

-- What `be.send` gets: a string, or an array of bytes.
pub data Sent : Type 0 where
  as_string : Text → Sent
  as_bytes : Bytes → Sent

pub record Bridge : Type 0 where
  pub stream_id : ℕ
  pub url : Text
  pub blocked : Bool
  pub protocol : Option Text
  pub extensions : Option Text
  pub responded : Bool
  pub relaying : Bool
  pub decoder : WsDecoder
  pub backend_open : Bool
  pub sent : List Sent
  pub written : List Bytes
  pub closed : Bool

-- All bridges, and `activeWebSockets`: of a stream id, the bridge whose backend is there.
pub record Sockets : Type 0 where
  pub bridges : List Bridge
  pub active : List (ℕ × ℕ)

unfoldable pub find : ℕ → List (ℕ × ℕ) → Option ℕ
find id [] = none
find id ((j, b) ∷ m) = if j == id then some b else find id m

unfoldable pub put : ℕ → ℕ → List (ℕ × ℕ) → List (ℕ × ℕ)
put id b [] = (id, b) ∷ []
put id b ((j, c) ∷ m) = let rest = (j, c) ∷ put id b m in if j == id then (id, b) ∷ m else rest

unfoldable pub remove : ℕ → List (ℕ × ℕ) → List (ℕ × ℕ)
remove id [] = []
remove id ((j, c) ∷ m) = let rest = remove id m in if j == id then rest else (j, c) ∷ rest

unfoldable pub on_bridge : ℕ → (Bridge → Bridge) → Sockets → Sockets
on_bridge i f s = elim (get_elem? s.bridges i) [
  | none ↦ s
  | some b ↦ record s { bridges = set s.bridges i (f b) }
]

-- `stream.write(bytes)`, which is refused when the stream is closed
unfoldable pub write : Bytes → Bridge → Bridge
write bytes b = if b.closed then b else record b { written = b.written ++ (bytes ∷ []) }

abbrev pub close_stream : Bridge → Bridge
close_stream b = record b { closed = true }

abbrev pub close_backend : Bridge → Bridge
close_backend b = record b { backend_open = false }

abbrev pub stop_relay : Bridge → Bridge
stop_relay b = record b { relaying = false }

-- The lines of the 101
unfoldable pub protocol_line : Option Text → List Text
protocol_line none = []
protocol_line (some []) = []
protocol_line (some (c ∷ cs)) = (codes "Sec-WebSocket-Protocol: " ++ (c ∷ cs)) ∷ []

unfoldable pub extensions_line : Text → List Text
extensions_line [] = []
extensions_line (c ∷ cs) = (codes "Sec-WebSocket-Extensions: " ++ (c ∷ cs)) ∷ []

unfoldable pub switching_text : Text → Option Text → Option Text → Text
unfolding protocol_line extensions_line strip_permessage_deflate join
switching_text accept protocol extensions = join crlf (
    (codes "HTTP/1.1 101 Switching Protocols"
      ∷ codes "Upgrade: websocket"
      ∷ codes "Connection: Upgrade"
      ∷ (codes "Sec-WebSocket-Accept: " ++ accept)
      ∷ protocol_line protocol)
    ++ (extensions_line (strip_permessage_deflate extensions) ++ ([] ∷ [] ∷ [])))

-- The reason that onerror gives
unfoldable pub error_reason : Bridge → Text
error_reason b =
    if b.blocked
    then codes
        "Chrome blocks ws:// from extension pages (secure context). Enable TLS on this tunnel to use wss:// instead. Backend: "
      ++ b.url
    else codes "backend unreachable: " ++ b.url

unfoldable pub close_reason : ℕ → Bridge → Text
unfolding show_number
close_reason code b =
    codes "backend closed before handshake: "
    ++ (b.url ++ (codes " (code=" ++ (show_number 10 code ++ codes ")")))

-- A close frame to the visitor while the stream's id is in the map, which then leaves the map.
unfoldable pub close_visitor : ℕ → ℕ → ℕ → Sockets → Sockets
unfolding find remove on_bridge write visitor_close
close_visitor i id code s = elim (find id s.active) [
  | none ↦ s
  | some k ↦ on_bridge i (write (visitor_close code)) (record s { active = remove id s.active })
]

-- `event.code || 1000`
abbrev pub code_or : ℕ → ℕ
code_or zero = 1000
code_or (suc n) = suc n

abbrev pub code_or_null : Option ℕ → ℕ
code_or_null none = 1000
code_or_null (some n) = code_or n

abbrev pub is_open : Option Bridge → Bool
is_open none = false
is_open (some b) = b.backend_open

-- What happens to a bridge: the events of its backend, what its awaits become, and what comes from its
-- visitor.
pub data Event : Type 0 where
  opened : Event
  accepted : Text → Event
  switched : Event
  failed : Event
  backend_closed : ℕ → Event
  message : Bool → Bytes → Event
  chunk : Bytes → Event
  ended : Event

-- The end of the visitor's stream: the backend that the map has is closed.
unfoldable pub end_relay : ℕ → ℕ → Sockets → Sockets
unfolding find remove on_bridge
end_relay i id s = elim (find id s.active) [
  | none ↦ on_bridge i stop_relay s
  | some k ↦
      on_bridge i stop_relay (on_bridge k close_backend (record s { active = remove id s.active }))
]

module _ (codec : TextCodec) where
  open codec use {encode, decode}

  -- What a data frame becomes: the payload of a text frame is decoded, any other goes as it is.
  unfoldable pub outgoing : ℕ → Bytes → Sent
  outgoing opcode payload =
      if opcode == op_text then as_string (decode payload) else as_bytes payload

  -- One event of the visitor's decoder: the state behind it, and whether the loop goes on. Data goes to
  -- the backend that the map has for the stream's id.
  unfoldable pub relay_event : ℕ → ℕ → ℕ → WsEvent → Sockets → Sockets × Bool
  unfolding outgoing on_bridge write parse_close_code visitor_close remove
  relay_event i id k (data_event opcode payload) s =
      (on_bridge k (λ b. record b { sent = b.sent ++ (outgoing opcode payload ∷ []) }) s, true)
  relay_event i id k (ping_event payload) s =
      (on_bridge i (write (encode_ws_frame op_pong payload none)) s, true)
  relay_event i id k (pong_event payload) s = (s, true)
  relay_event i id k (close_event payload) s =
      let code = code_or_null (parse_close_code payload) in
      (
        on_bridge i (λ b. write (visitor_close code) (close_backend b))
            (record s { active = remove id s.active }),
        false,
      )

  -- The loop over the events of a chunk. What stops it also stops the loop over the chunks.
  unfoldable pub relay_events : ℕ → ℕ → List WsEvent → Sockets → Sockets
  unfolding find relay_event on_bridge
  relay_events i id [] s = s
  relay_events i id (e ∷ es) s = elim (find id s.active) [
    | none ↦ on_bridge i stop_relay s
    | some k ↦
        let (s', goes_on) = relay_event i id k e s in
        let rest = relay_events i id es s' in
        if is_open (get_elem? s.bridges k)
        then (if goes_on then rest else on_bridge i stop_relay s')
        else on_bridge i stop_relay s
  ]

  -- `failVisitor(502, reason)` and the closing of the stream, where there is an answer already
  unfoldable pub fail_visitor : Text → Bridge → Bridge
  unfolding write head_text
  fail_visitor reason b =
      let payload = encode reason in
      if b.responded
      then close_stream b
      else close_stream (
          write (encode (head_text 502 reason (own_fields [] payload)) ++ payload)
            (record b { responded = true }))

  -- The handlers of the bridge `i`, which is `b`.
  unfoldable pub handle : ℕ → Bridge → Event → Sockets → Sockets
  unfolding on_bridge write switching_text close_visitor fail_visitor error_reason close_reason find
      put push parse relay_events end_relay
  handle i b opened s =
      on_bridge i (λ c. record c { backend_open = true })
        (record s { active = put b.stream_id i s.active })
  handle i b (accepted accept) s =
      if b.closed
      then on_bridge i close_backend s
      else on_bridge i (write (encode (switching_text accept b.protocol b.extensions))) s
  handle i b switched s = on_bridge i (λ c. record c { responded = true; relaying = true }) s
  handle i b failed s =
      on_bridge i (λ c. fail_visitor (error_reason c) (close_backend c))
        (close_visitor i b.stream_id 1011 s)
  handle i b (backend_closed code) s =
      on_bridge i (λ c. fail_visitor (close_reason code c) (close_backend c))
        (close_visitor i b.stream_id (code_or code) s)
  handle i b (message is_text payload) s = elim (find b.stream_id s.active) [
    | none ↦ s
    | some k ↦
        on_bridge i (write (encode_ws_frame (if is_text then op_text else op_binary) payload none))
          s
  ]
  handle i b (chunk bytes) s =
      let (es, d) = parse (push bytes b.decoder) in
      if b.relaying
      then relay_events i b.stream_id es (on_bridge i (λ c. record c { decoder = d }) s)
      else s
  handle i b ended s = if b.relaying then end_relay i b.stream_id s else s

  unfoldable pub step : ℕ × Event → Sockets → Sockets
  unfolding handle
  step (i, e) s = elim (get_elem? s.bridges i) [ none ↦ s | some b ↦ handle i b e s ]

  unfoldable pub run : List (ℕ × Event) → Sockets → Sockets
  unfolding step
  run [] s = s
  run (e ∷ es) s = run es (step e s)

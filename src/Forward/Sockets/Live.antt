-- ===== src/Forward/Sockets/Live.antt =====
-- A bridge in use, and what the events of a visitor's frames do to it.
use wisper.Prelude.{
  ℕ, zero, suc, ◌≡◌, refl, sym, ap, ◌∙◌, ◌≢◌, Bool, true, false, Option, none, some, List, [], ◌∷◌,
  ◌++◌, append-nil, append_assoc, if◌then◌else◌, get_elem?, set, All, Bytes, subst,
}
use wisper.Prelude.Text.{TextCodec}
use wisper.Ws.Frame.{op_text, op_binary, op_pong, MaskKey}
use wisper.Ws.Decoder.{data_event, ping_event, pong_event, Event as WsEvent}
use wisper.Ws.Decoder.Messages.{Message, text, binary, closing, ping, pong, events_of}
use wisper.Ws.Encode.{encode_ws_frame}
use wisper.Forward.Sockets.{
  Sent, as_string, as_bytes, outgoing, Bridge, Sockets, find, on_bridge, write, relay_event,
  relay_events,
}

-- What is sent to the backend: texts as strings, decoded, and binary payloads as they are.
unfoldable pub delivered : TextCodec → List (Message × Option MaskKey) → List Sent
delivered codec [] = []
delivered codec ((text p, k) ∷ ms) = as_string (codec.decode p) ∷ delivered codec ms
delivered codec ((binary p, k) ∷ ms) = as_bytes p ∷ delivered codec ms
delivered codec ((closing p, k) ∷ ms) = delivered codec ms
delivered codec ((ping p, k) ∷ ms) = delivered codec ms
delivered codec ((pong p, k) ∷ ms) = delivered codec ms

-- The frames that answer pings.
unfoldable pub ponged : List (Message × Option MaskKey) → List Bytes
unfolding encode_ws_frame
ponged [] = []
ponged ((text p, k) ∷ ms) = ponged ms
ponged ((binary p, k) ∷ ms) = ponged ms
ponged ((closing p, k) ∷ ms) = ponged ms
ponged ((ping p, k) ∷ ms) = encode_ws_frame op_pong p none ∷ ponged ms
ponged ((pong p, k) ∷ ms) = ponged ms

abbrev pub IsOngoing : Message × Option MaskKey → Type 0
IsOngoing (m, k) = (p : Bytes) → m ≢ closing p

-- A bridge whose backend is open, and which the map has for its stream id.
pub record IsLive (i : ℕ) (b : Bridge) (s : Sockets) : Type 0 where
  pub here : get_elem? s.bridges i ≡ some b
  pub found : find b.stream_id s.active ≡ some i
  pub opened : b.backend_open ≡ true
  pub unclosed : b.closed ≡ false

pub get-set_same :
    (bs : List Bridge) (i : ℕ) (b c : Bridge)
    → get_elem? bs i ≡ some b
    → get_elem? (set bs i c) i ≡ some c
get-set_same [] i b c h = absurd (cc h)
get-set_same (x ∷ bs) zero b c h = refl
get-set_same (x ∷ bs) (suc i) b c h = get-set_same bs i b c h

-- A change of a live bridge that leaves it live.
pub on_bridge-IsLive :
    (i : ℕ) (b : Bridge) (f : Bridge → Bridge) (s : Sockets)
    → IsLive i b s
    → (f b).stream_id ≡ b.stream_id
    → (f b).backend_open ≡ true
    → (f b).closed ≡ false
    → IsLive i (f b) (on_bridge i f s)
unfolding on_bridge
on_bridge-IsLive i b f s live id o c =
    rw (live.here, on_bridge)
      (record {
        here = get-set_same s.bridges i b (f b) live.here;
        found = ap (λ n. find n s.active) id ∙ live.found;
        opened = o;
        unclosed = c;
      })

-- A bridge behind more that was sent to its backend and written to its visitor.
abbrev pub grown : Bridge → List Sent → List Bytes → Bridge
grown b xs ys = record b { sent = b.sent ++ xs; written = b.written ++ ys }

pub grown-grown :
    (b : Bridge) (xs xs' : List Sent) (ys ys' : List Bytes)
    → grown (grown b xs ys) xs' ys' ≡ grown b (xs ++ xs') (ys ++ ys')
grown-grown b xs xs' ys ys' =
    ap (λ l. record b { sent = l; written = (b.written ++ ys) ++ ys' }) (append_assoc b.sent xs xs')
    ∙ ap (λ l. record b { sent = b.sent ++ (xs ++ xs'); written = l })
        (append_assoc b.written ys ys')

grown-nil : (b : Bridge) (xs : List Sent) → record b { sent = b.sent ++ xs } ≡ grown b xs []
grown-nil b xs =
    ap (λ l. record b { sent = b.sent ++ xs; written = l }) (sym (append-nil b.written))

nil-grown : (b : Bridge) (ys : List Bytes) → record b { written = b.written ++ ys } ≡ grown b [] ys
nil-grown b ys =
    ap (λ l. record b { sent = l; written = b.written ++ ys }) (sym (append-nil b.sent))

grown_none : (b : Bridge) → b ≡ grown b [] []
grown_none b = ap (λ l. record b { sent = l }) (sym (append-nil b.sent)) ∙ grown-nil b []

module _ (codec : TextCodec) where
  relay_events-next :
      (i : ℕ) (b : Bridge) (e : WsEvent) (es : List WsEvent) (s : Sockets)
      → IsLive i b s
      → (relay_event codec i b.stream_id i e s).1 ≡ true
      → relay_events codec i b.stream_id (e ∷ es) s
        ≡ relay_events codec i b.stream_id es (relay_event codec i b.stream_id i e s).0
  unfolding relay_events
  relay_events-next i b e es s live goes_on =
      rw (live.found, relay_events, live.here, live.opened, goes_on) refl

  -- What the events do to a live bridge: it grows by what they say, and stays live.
  unfoldable pub Grows : ℕ → List WsEvent → List Sent → List Bytes → Type 0
  Grows i es xs ys =
      (b : Bridge) (s : Sockets)
      → IsLive i b s
      → IsLive i (grown b xs ys) (relay_events codec i b.stream_id es s)

  -- An event that leaves the bridge live, and the events behind it.
  Grows-cons :
      (i : ℕ) (e : WsEvent) (es : List WsEvent) (xs xs' : List Sent) (ys ys' : List Bytes)
      → ((b : Bridge) (s : Sockets)
          → IsLive i b s
          → ((relay_event codec i b.stream_id i e s).1 ≡ true)
            × IsLive i (grown b xs ys) (relay_event codec i b.stream_id i e s).0)
      → Grows i es xs' ys'
      → Grows i (e ∷ es) (xs ++ xs') (ys ++ ys')
  unfolding Grows
  Grows-cons i e es xs xs' ys ys' one rest b s live =
      subst (λ t. IsLive i (grown b (xs ++ xs') (ys ++ ys')) t)
        (sym (relay_events-next i b e es s live (one b s live).0))
        (subst
          (λ c.
            IsLive i c
              (relay_events codec i b.stream_id es (relay_event codec i b.stream_id i e s).0))
          (grown-grown b xs xs' ys ys')
          (rest (grown b xs ys) (relay_event codec i b.stream_id i e s).0 (one b s live).1))

  data-IsLive :
      (i opcode : ℕ) (p : Bytes) (b : Bridge) (s : Sockets)
      → IsLive i b s
      → ((relay_event codec i b.stream_id i (data_event opcode p) s).1 ≡ true)
        × IsLive i
            (grown b (outgoing codec opcode p ∷ []) [])
            (relay_event codec i b.stream_id i (data_event opcode p) s).0
  unfolding relay_event
  data-IsLive i opcode p b s live = (
    refl,
    subst (λ c. IsLive i c (relay_event codec i b.stream_id i (data_event opcode p) s).0)
        (grown-nil b (outgoing codec opcode p ∷ []))
        (on_bridge-IsLive i b (λ c. record c { sent = c.sent ++ (outgoing codec opcode p ∷ []) }) s
          live refl live.opened live.unclosed),
  )

  write_open :
      (bytes : Bytes) (b : Bridge) → b.closed ≡ false → write bytes b ≡ grown b [] (bytes ∷ [])
  unfolding write
  write_open bytes b unclosed =
      ap (λ (t : Bool). if t then b else record b { written = b.written ++ (bytes ∷ []) }) unclosed
      ∙ nil-grown b (bytes ∷ [])

  ping-IsLive :
      (i : ℕ) (p : Bytes) (b : Bridge) (s : Sockets)
      → IsLive i b s
      → ((relay_event codec i b.stream_id i (ping_event p) s).1 ≡ true)
        × IsLive i
            (grown b [] (encode_ws_frame op_pong p none ∷ []))
            (relay_event codec i b.stream_id i (ping_event p) s).0
  unfolding relay_event
  ping-IsLive i p b s live =
      let same = write_open (encode_ws_frame op_pong p none) b live.unclosed in
      (
        refl,
        subst (λ c. IsLive i c (relay_event codec i b.stream_id i (ping_event p) s).0) same
            (on_bridge-IsLive i b (write (encode_ws_frame op_pong p none)) s live
              (ap Bridge.stream_id same) (ap Bridge.backend_open same ∙ live.opened)
              (ap Bridge.closed same ∙ live.unclosed)),
      )

  pong-IsLive :
      (i : ℕ) (p : Bytes) (b : Bridge) (s : Sockets)
      → IsLive i b s
      → ((relay_event codec i b.stream_id i (pong_event p) s).1 ≡ true)
        × IsLive i (grown b [] []) (relay_event codec i b.stream_id i (pong_event p) s).0
  unfolding relay_event
  pong-IsLive i p b s live = (refl, subst (λ c. IsLive i c s) (grown_none b) live)

  pub relay_events-delivers :
      (i : ℕ) (ms : List (Message × Option MaskKey))
      → All IsOngoing ms
      → Grows i (events_of ms) (delivered codec ms) (ponged ms)
  unfolding Grows relay_events delivered ponged
  relay_events-delivers i [] go = λ b s live. subst (λ c. IsLive i c s) (grown_none b) live
  relay_events-delivers i ((text p, k) ∷ ms) go =
      Grows-cons i (data_event op_text p) (events_of ms) _ (delivered codec ms) [] (ponged ms)
        (data-IsLive i op_text p) (relay_events-delivers i ms go.1)
  relay_events-delivers i ((binary p, k) ∷ ms) go =
      Grows-cons i (data_event op_binary p) (events_of ms) _ (delivered codec ms) [] (ponged ms)
        (data-IsLive i op_binary p) (relay_events-delivers i ms go.1)
  relay_events-delivers i ((closing p, k) ∷ ms) go = absurd (go.0 p refl)
  relay_events-delivers i ((ping p, k) ∷ ms) go =
      Grows-cons i (ping_event p) (events_of ms) [] (delivered codec ms) _ (ponged ms)
        (ping-IsLive i p) (relay_events-delivers i ms go.1)
  relay_events-delivers i ((pong p, k) ∷ ms) go =
      Grows-cons i (pong_event p) (events_of ms) [] (delivered codec ms) [] (ponged ms)
        (pong-IsLive i p) (relay_events-delivers i ms go.1)

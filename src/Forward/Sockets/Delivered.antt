-- ===== src/Forward/Sockets/Delivered.antt =====
-- What a visitor's frames become at its backend.
use wisper.Prelude.{
  ℕ, ◌≡◌, refl, sym, ap, ◌∙◌, Bool, true, Option, none, some, List, [], ◌∷◌, ◌++◌, append-nil,
  arith, ◌==◌, if◌then◌else◌, get_elem?, set, All, concat, Bytes, subst,
}
use wisper.Prelude.Text.{TextCodec}
use wisper.Ws.Frame.{op_pong, MaskKey}
use wisper.Ws.Decoder.{WsDecoder, push, parse, data_event, Event as WsEvent}
use wisper.Ws.Decoder.Messages.{
  Message, text, binary, closing, ping, pong, events_of, encode_all, AllFit, parse-messages,
}
use wisper.Ws.Decoder.Cuts.{parse-Part}
use wisper.Ws.Encode.{encode_ws_frame}
use wisper.Forward.Sockets.Keyed.{find-put}
use wisper.Forward.Sockets.{
  as_string, as_bytes, outgoing, Bridge, Sockets, find, put, on_bridge, opened, relay_event,
  relay_events, chunk, handle, step, run, Event,
}
use wisper.Forward.Sockets.Live.{
  delivered, ponged, IsOngoing, IsLive, get-set_same, on_bridge-IsLive, grown, grown-grown, Grows,
  relay_events-delivers,
}

delivered-append :
    (codec : TextCodec) (ms ns : List (Message × Option MaskKey))
    → delivered codec (ms ++ ns) ≡ delivered codec ms ++ delivered codec ns
unfolding delivered
delivered-append codec [] ns = refl
delivered-append codec ((text p, k) ∷ ms) ns =
    ap (λ l. as_string (codec.decode p) ∷ l) (delivered-append codec ms ns)
delivered-append codec ((binary p, k) ∷ ms) ns =
    ap (λ l. as_bytes p ∷ l) (delivered-append codec ms ns)
delivered-append codec ((closing p, k) ∷ ms) ns = delivered-append codec ms ns
delivered-append codec ((ping p, k) ∷ ms) ns = delivered-append codec ms ns
delivered-append codec ((pong p, k) ∷ ms) ns = delivered-append codec ms ns

ponged-append :
    (ms ns : List (Message × Option MaskKey)) → ponged (ms ++ ns) ≡ ponged ms ++ ponged ns
unfolding ponged
ponged-append [] ns = refl
ponged-append ((text p, k) ∷ ms) ns = ponged-append ms ns
ponged-append ((binary p, k) ∷ ms) ns = ponged-append ms ns
ponged-append ((closing p, k) ∷ ms) ns = ponged-append ms ns
ponged-append ((ping p, k) ∷ ms) ns =
    ap (λ l. encode_ws_frame op_pong p none ∷ l) (ponged-append ms ns)
ponged-append ((pong p, k) ∷ ms) ns = ponged-append ms ns

All-split :
    (ms ns : List (Message × Option MaskKey))
    → All IsOngoing (ms ++ ns)
    → All IsOngoing ms × All IsOngoing ns
All-split [] ns h = (tt, h)
All-split (m ∷ ms) ns h = let rest = All-split ms ns h.1 in ((h.0, rest.0), rest.1)

module _ (codec : TextCodec) where
  step-chunk :
      (i : ℕ) (b : Bridge) (s : Sockets) (bytes : Bytes) (es : List WsEvent) (d : WsDecoder)
      → get_elem? s.bridges i ≡ some b
      → b.relaying ≡ true
      → parse (push bytes b.decoder) ≡ (es, d)
      → step codec (i, chunk bytes) s
        ≡ relay_events codec i b.stream_id es (on_bridge i (λ c. record c { decoder = d }) s)
  unfolding step handle
  step-chunk i b s bytes es d here relays parsed =
      ap
        (λ (found : Option Bridge). elim found [
          | none ↦ s
          | some c ↦ handle codec i c (chunk bytes) s
        ])
        here
      ∙ ap
          (λ (r : List WsEvent × WsDecoder).
            if b.relaying
            then relay_events codec i b.stream_id r.0
                (on_bridge i (λ c. record c { decoder = r.1 }) s)
            else s)
          parsed
      ∙ ap
          (λ (t : Bool).
            if t
            then relay_events codec i b.stream_id es (on_bridge i (λ c. record c { decoder = d }) s)
            else s)
          relays

  -- A chunk that gives the events of messages.
  chunk-IsLive :
      (i : ℕ) (b : Bridge) (s : Sockets) (bytes : Bytes) (ms : List (Message × Option MaskKey))
      (d : WsDecoder)
      → IsLive i b s
      → b.relaying ≡ true
      → parse (push bytes b.decoder) ≡ (events_of ms, d)
      → All IsOngoing ms
      → IsLive i
          (grown (record b { decoder = d }) (delivered codec ms) (ponged ms))
          (step codec (i, chunk bytes) s)
  unfolding Grows
  chunk-IsLive i b s bytes ms d live relays parsed go =
      subst (λ t. IsLive i (grown (record b { decoder = d }) (delivered codec ms) (ponged ms)) t)
        (sym (step-chunk i b s bytes (events_of ms) d live.here relays parsed))
        (relay_events-delivers codec i ms go (record b { decoder = d }) _
          (on_bridge-IsLive i b (λ c. record c { decoder = d }) s live refl live.opened
            live.unclosed))

  -- The bridge behind the messages, with an empty buffer.
  abbrev pub served : Bridge → List (Message × Option MaskKey) → Bridge
  served b ms =
      grown (record b { decoder = record { buf = []; frag = b.decoder.frag } }) (delivered codec ms)
        (ponged ms)

  abbrev pub chunks : ℕ → List Bytes → List (ℕ × Event)
  chunks i [] = []
  chunks i (c ∷ cs) = (i, chunk c) ∷ chunks i cs

  served-served :
      (b : Bridge) (r : Bytes) (done left : List (Message × Option MaskKey))
      → served
          (grown
            (record b { decoder = record { buf = r; frag = b.decoder.frag } })
            (delivered codec done)
            (ponged done))
          left
        ≡ served b (done ++ left)
  served-served b r done left =
      grown-grown (record b { decoder = record { buf = []; frag = b.decoder.frag } })
        (delivered codec done) (delivered codec left) (ponged done) (ponged left)
      ∙ rw (delivered-append codec done left, ponged-append done left) refl

  run-chunks :
      (cs : List Bytes) (c : Bytes) (i : ℕ) (b : Bridge) (s : Sockets)
      (ms : List (Message × Option MaskKey))
      → IsLive i b s
      → b.relaying ≡ true
      → b.decoder.buf ++ concat (c ∷ cs) ≡ encode_all ms
      → AllFit ms
      → All IsOngoing ms
      → IsLive i (served b ms) (run codec (chunks i (c ∷ cs)) s)
  unfolding run push
  run-chunks [] c i b s ms live relays whole fit go =
      let all : b.decoder.buf ++ c ≡ encode_all ms = rw append-nil at whole in
      chunk-IsLive i b s c ms (record { buf = []; frag = b.decoder.frag }) live relays
        (ap (λ l. parse (record { buf = l; frag = b.decoder.frag })) all
          ∙ parse-messages ms b.decoder.frag fit)
        go
  run-chunks (c' ∷ cs) c i b s ms live relays whole fit go =
      let p = parse-Part ms b.decoder.buf c (concat (c' ∷ cs)) b.decoder.frag fit whole in
      let both = All-split p.done p.left (subst (All IsOngoing) p.parts go) in
      let next =
        chunk-IsLive i b s c p.done (record { buf = p.kept; frag = b.decoder.frag }) live relays
          p.gives both.0 in
      subst (λ x. IsLive i x (run codec (chunks i (c ∷ c' ∷ cs)) s))
        (served-served b p.kept p.done p.left ∙ ap (served b) (sym p.parts))
        (run-chunks cs c' i _ (step codec (i, chunk c) s) p.left next relays p.behind p.fits both.1)

  -- While a bridge whose handshake is done has an open backend, an open stream, and its stream's id in the
  -- map: chunks that make up, behind what the decoder has kept, the frames of messages, masked or not, of
  -- fewer than 2 ^ 32 bytes and other than a close, however they are cut, send to the backend exactly the
  -- data (of a text the string that TextDecoder makes of it, of a binary message its bytes) and to the
  -- visitor a pong for every ping, in order; but for the decoder's buffer, which is empty then, nothing
  -- else of the bridge changes.
  pub chunks-deliver :
      (i : ℕ) (b : Bridge) (s : Sockets) (c : Bytes) (cs : List Bytes)
      (ms : List (Message × Option MaskKey))
      → IsLive i b s
      → b.relaying ≡ true
      → b.decoder.buf ++ concat (c ∷ cs) ≡ encode_all ms
      → AllFit ms
      → All IsOngoing ms
      → get_elem? (run codec (chunks i (c ∷ cs)) s).bridges i
        ≡ some (record b {
          decoder = record { buf = []; frag = b.decoder.frag };
          sent = b.sent ++ delivered codec ms;
          written = b.written ++ ponged ms;
        })
  chunks-deliver i b s c cs ms live relays whole fit go =
      (run-chunks cs c i b s ms live relays whole fit go).here

  -- If two bridges have the same stream id, in whatever tunnels: once the backend of the second has
  -- opened, what the visitor of the first sends goes to the backend of the second.
  pub opened-crosses :
      (i j : ℕ) (b c : Bridge) (s : Sockets) (opcode : ℕ) (p : Bytes)
      → get_elem? s.bridges j ≡ some c
      → c.stream_id ≡ b.stream_id
      → get_elem?
          (relay_events codec i b.stream_id
            (data_event opcode p ∷ [])
            (step codec (j, opened) s)).bridges
          j
        ≡ some (record c { backend_open = true; sent = c.sent ++ (outgoing codec opcode p ∷ []) })
  unfolding step handle relay_events relay_event on_bridge
  opened-crosses i j b c s opcode p here same =
      let s' : Sockets = record {
        bridges = set s.bridges j (record c { backend_open = true });
        active = put c.stream_id j s.active;
      } in
      let opens : step codec (j, opened) s ≡ s' = rw (here, step, handle, here, on_bridge) refl in
      let there = get-set_same s.bridges j c (record c { backend_open = true }) here in
      let leads : find b.stream_id (put c.stream_id j s.active) ≡ some j =
        let equal : (c.stream_id == b.stream_id) ≡ true = ground arith in
        find-put c.stream_id j b.stream_id s.active ∙ rw equal refl in
      ap
        (λ t.
          get_elem?
            (Sockets.bridges (relay_events codec i b.stream_id (data_event opcode p ∷ []) t)) j)
        opens
      ∙ rw (leads, relay_events, there, on_bridge)
          (get-set_same s'.bridges j (record c { backend_open = true }) _ there)

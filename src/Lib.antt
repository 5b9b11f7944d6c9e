-- ===== src/Lib.antt =====
-- wisper: verification of the browser extension of wisper (extension/), which exposes a local web
-- server under a public address, and of the stores of its web interface (web-src/). Its parts, and how
-- they interact:
--   extension/offscreen.js hosts the tunnels. For each it opens a `TunnelConnection`
-- (extension/lib/tunnel-connection.js): a WebSocket to a GOST relay, on which it sends a bind request
-- in the relay protocol (extension/lib/relay.js), and which it then reads as SMUX frames
-- (extension/lib/smux.js). Each stream of the multiplexer carries one request of a visitor, which
-- extension/lib/forwarder.js takes to the local server, with WebSocket frames by
-- extension/lib/ws-codec.js. extension/lib/tunnel-stats.js counts what passes. The service worker
-- extension/background.js stores the tunnels and passes messages between the side panel and the
-- offscreen document.
--
-- Files:
--   Prelude: names and lemmas that all parts share; Prelude/Text has JavaScript strings as lists of
--     code units, and UTF-8 and `toLowerCase` beyond ASCII as the parameter `TextCodec`.
--   Smux (extension/lib/smux.js): Smux/Frame the wire format; Smux/Stream the class `StreamState` and
--     the operations of `Stream`; Smux/Stream/Write the writer, `_writeSync` and the jobs on
--     `_writeTail`; Smux/Stream/Read runs of a reader; Smux/Session the class `SmuxServer`, whose
--     streams live in a heap because the session and the consumers share them.
--   Relay (extension/lib/relay.js): Relay/Ip, Relay/Feature and Relay/Message.
--   Ws (extension/lib/ws-codec.js): Ws/Frame, Ws/Decoder, Ws/Encode and Ws/Accept.
--   Tunnel (extension/lib/tunnel-connection.js): Tunnel/Buffer reading until a buffer holds enough,
--     Tunnel/Chunked `readChunkedBody`, Tunnel/Request `_readHTTP` and `parseHTTPRequest`, Tunnel/Bind
--     `_sendBind` and `_readRelayResponse`, Tunnel/Connection `connect()`, its handlers and `close()`;
--     Tunnel/Visit `_handleStream`, from the peer's message to the delivered request; Tunnel/Id is
--     extension/lib/tunnel-id.js.
--   Forward (extension/lib/forwarder.js): Forward/Body the framing of response bodies,
--     Forward/Headers look-ups and filters, Forward/Auth `isAuthorized`, Forward/Response the request
--     to the backend and the heads of answers, Forward/Bridge helpers of the WebSocket bridge,
--     Forward/Sockets the bridges themselves, with `activeWebSockets`, as events in any order.
--   Offscreen: Offscreen/Stats (extension/lib/tunnel-stats.js) and Offscreen/Tunnels
--     (extension/offscreen.js), where each event is a step of a function on the whole state, with
--     what is reported of it in Offscreen/Reports.
--   Background (extension/background.js): Background/Json objects and their properties,
--     Background/Storage what the handlers do to the list of tunnels, Background/Worker the handlers as
--     jobs between `get` and `set` that interleave, Background/Rules the ids of dynamic rules,
--     Background/Document the calls of `ensureOffscreen` and the promise that they share.
--   Web (web-src/src): Web/Store the stores of tunnels and of entry points, as one program on the
--     interface `Item`, which Web/Items fills twice; Web/Polling the polls of statistics and their timer;
--     Web/LanRefusal the groups of refused claims.
--
-- Bytes are natural numbers; what the code stores in a byte or a word is reduced by a remainder. A
-- promise is a flag or a list of continuations that the event loop has still to run, and an `await`
-- ends a function and begins another. Loops that are not structural run on fuel: the length of the
-- data for the writer (each round sends a byte), of the buffer for the decoders (each round takes two
-- bytes at least), and of what the stream holds for chunked bodies.
--
-- Not modelled: the user interface (extension/sidepanel.js), the copies of other libraries
-- (extension/lib/md5.js, extension/lib/qrcode.js), failing calls of the browser in
-- extension/background.js, what is logged, the pages and components of the web interface
-- (web-src/src), which draw, its client of the backend, and the programs in other languages.
pub mod Prelude
pub mod Smux
pub mod Relay
pub mod Background
pub mod Forward
pub mod Tunnel
pub mod Offscreen
pub mod Ws
pub mod Web

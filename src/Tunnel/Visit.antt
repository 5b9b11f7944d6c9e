-- ===== src/Tunnel/Visit.antt =====
-- `_handleStream` of tunnel-connection.js: a stream of the multiplexer up to the request that is
-- delivered. The stream is the chunks that its reader gets; a rejection of either promise closes it.
use wisper.Prelude.{
  ℕ, zero, suc, ◌+◌, ◌-◌, ◌*◌, ◌/◌, ◌%◌, ◌^◌, ◌≤◌, ◌<◌, min, ◌≡◌, refl, sym, ap, ◌∙◌, ◌≢◌, ◌↔◌, ◌⊎◌,
  inl, inr, Bool, true, false, not, ◌&&◌, ◌||◌, Option, none, some, List, [], ◌∷◌, ◌++◌, map,
  append-nil, append_assoc, arith, ltb, leb, ◌==◌, if◌then◌else◌, ==_iff, Bool-cases, Option-cases,
  length, get_elem?, get_or, set, take, drop, All, concat, length-append, take-append-drop,
  length-take, length-drop, take-append_left, drop-append_left, take-append_le, drop-append_le,
  All-append, Bytes, IsByte, u8, u16_be, get_u16_be, u16_le, get_u16_le, u32_le, get_u32_le,
  get_u16_be-u16_be, get_u16_le-u16_le, get_u32_le-u32_le, subst, if-both,
}
use wisper.Prelude.Text.{TextCodec}
use wisper.Relay.Feature.{Value}
use wisper.Tunnel.Bind.{
  PeerResponse, peer, closed_before_response, closed_before_features, bad_version, bad_message,
  bad_status, read_relay_response,
}
use wisper.Tunnel.Request.{Request, ReadHttp, request, no_request, failed, no_fuel, read_http}
pub mod Delivers

-- What becomes of a stream: `_onStream` gets a request and the peer's address, or the stream is closed.
-- `unfinished` is no outcome of the program.
pub data Visit : Type 0 where
  delivered : Request → Option Value → Visit
  closed : Visit
  unfinished : Visit

-- The second step: the request, or its end.
unfoldable pub after_http : Option Value → ReadHttp → Visit
after_http addr (request req) = delivered req addr
after_http addr no_request = closed
after_http addr failed = closed
after_http addr no_fuel = unfinished

module _ (codec : TextCodec) where
  -- The first step: the peer's message. Without `_onStream` the stream is closed behind it.
  unfoldable pub after_response : Bool → PeerResponse → Visit
  unfolding read_http after_http
  after_response has_handler (peer addr carry left) =
      if has_handler then after_http addr (read_http codec carry left) else closed
  after_response has_handler closed_before_response = closed
  after_response has_handler closed_before_features = closed
  after_response has_handler (bad_version version) = closed
  after_response has_handler bad_message = closed
  after_response has_handler (bad_status status) = closed

  -- `_handleStream(stream)`
  unfoldable pub handle_stream : Bool → List Bytes → Visit
  unfolding read_relay_response after_response
  handle_stream has_handler cs = after_response has_handler (read_relay_response codec cs)

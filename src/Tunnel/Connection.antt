-- ===== src/Tunnel/Connection.antt =====
-- The life of a `TunnelConnection` (tunnel-connection.js): the promise of `connect()`, the handlers of
-- the WebSocket, and `close()`. What it hands to the multiplexer and to `onClose` is recorded.
use wisper.Prelude.{
  ℕ, zero, suc, ◌+◌, ◌-◌, ◌*◌, ◌/◌, ◌%◌, ◌^◌, ◌≤◌, ◌<◌, min, ◌≡◌, refl, sym, ap, ◌∙◌, ◌≢◌, ◌↔◌, ◌⊎◌,
  inl, inr, Bool, true, false, not, ◌&&◌, ◌||◌, Option, none, some, List, [], ◌∷◌, ◌++◌, map,
  append-nil, append_assoc, arith, ltb, leb, ◌==◌, if◌then◌else◌, ==_iff, Bool-cases, Option-cases,
  length, get_elem?, get_or, set, take, drop, All, concat, length-append, take-append-drop,
  length-take, length-drop, take-append_left, drop-append_left, take-append_le, drop-append_le,
  All-append, Bytes, IsByte, u8, u16_be, get_u16_be, u16_le, get_u16_le, u32_le, get_u32_le,
  get_u16_be-u16_be, get_u16_le-u16_le, get_u32_le-u32_le, subst, if-both,
}
use wisper.Prelude.Text.{Text, TextCodec, codes, text_eq}
use wisper.Relay.Feature.{Value, addr_value, tunnel_value, feature_addr, feature_tunnel}
use wisper.Relay.Message.{RelayResponse, status_ok, relay_response_from_wire, find_feature}
use wisper.Relay.Result.{Result, ok, err}
pub mod Closed

pub data Promise : Type 0 where
  waiting resolved rejected : Promise

pub record Connection : Type 0 where
  pub ws : Bool
  pub smux : Bool
  pub closed : Bool
  pub bound : Bool
  pub promise : Promise
  pub connector_id : Option Bytes
  pub bind_addr : Option Text
  pub fed : List Bytes
  pub close_calls : ℕ

-- `new TunnelConnection(config)` behind the first lines of `connect()`, where the WebSocket was made
abbrev pub connecting : Option Text → Connection
connecting entrypoint = record {
  ws = true;
  smux = false;
  closed = false;
  bound = false;
  promise = waiting;
  connector_id = none;
  bind_addr = entrypoint;
  fed = [];
  close_calls = 0;
}

-- Only the first call of `resolve` or `reject` counts.
first : Promise → Promise → Promise
first waiting outcome = outcome
first resolved outcome = resolved
first rejected outcome = rejected

unfoldable pub settle : Promise → Connection → Connection
unfolding first
settle outcome c = record c { promise = first c.promise outcome }

-- `_onSmuxClose()`
unfoldable pub on_smux_close : Connection → Connection
on_smux_close c = record c { bound = false; close_calls = c.close_calls + 1 }

-- `s.indexOf('.')` and `s.substring(dot)`
unfoldable pub from_dot : Text → Option Text
from_dot [] = none
from_dot (c ∷ cs) = if c == b'.' then some (c ∷ cs) else from_dot cs

with_host : Text → Option Text → Option Text
with_host host none = none
with_host host (some suffix) = some (codes "https://" ++ (host ++ suffix))

or_else : Option Text → Option Text → Option Text
or_else none d = d
or_else (some x) d = some x

-- The host of the relay's address in place of the first label of the entry point's
unfoldable pub negotiated : Option Value → Option Text → Option Text
unfolding from_dot text_eq with_host or_else
negotiated (some (addr_value [] port kind)) entrypoint = entrypoint
negotiated (some (addr_value (h ∷ hs) port kind)) none = none
negotiated (some (addr_value (h ∷ hs) port kind)) (some entrypoint) =
    if text_eq (h ∷ hs) (codes "0.0.0.0") || text_eq (h ∷ hs) (codes "::")
    then some entrypoint
    else or_else (with_host (h ∷ hs) (from_dot entrypoint)) (some entrypoint)
negotiated _ entrypoint = entrypoint

unfoldable pub connector_of : Option Value → Option Bytes
connector_of (some (tunnel_value id)) = some id
connector_of _ = none

-- The bind response
unfoldable pub on_bind_response : Result RelayResponse → Connection → Connection
unfolding settle negotiated connector_of find_feature
on_bind_response (err e) c = settle rejected c
on_bind_response (ok resp) c =
    if not (resp.status == status_ok)
    then settle rejected c
    else settle resolved (record c {
      smux = true;
      bound = true;
      connector_id = connector_of (find_feature feature_tunnel resp.features);
      bind_addr = negotiated (find_feature feature_addr resp.features) c.bind_addr;
    })

-- `get connected()`
abbrev pub connected : Connection → Bool
connected c = c.bound && not c.closed

-- `close()`. Closing the multiplexer calls `_onSmuxClose` at once; a multiplexer that was closed
-- before does not, and `smux_open` says whether it was not.
unfoldable pub close : Bool → Connection → Connection
unfolding on_smux_close
close smux_open c =
    let c' = record c { closed = true } in
    let c'' = if c.smux && smux_open then on_smux_close c' else c' in
    record c'' { smux = false; ws = false; bound = false }

-- What happens to a connection. `close_call` says whether the multiplexer is still open then.
pub data Event : Type 0 where
  message : Bytes → Event
  ws_closed : Event
  ws_error : Event
  smux_closed : Event
  close_call : Bool → Event

module _ (codec : TextCodec) where
  -- `this._ws.onmessage`
  unfoldable pub on_message : Bytes → Connection → Connection
  unfolding on_bind_response
  on_message payload c =
      if c.closed
      then c
      else if not c.bound
      then on_bind_response (relay_response_from_wire codec payload) c
      else record c { fed = c.fed ++ (payload ∷ []) }

  -- `onclose`, `onerror`, the callback `onClose` of the multiplexer, and `close()`
  unfoldable pub step : Event → Connection → Connection
  unfolding on_message on_smux_close close settle
  step (message payload) c = on_message payload c
  step ws_closed c = on_smux_close (if not c.bound && not c.closed then settle rejected c else c)
  step ws_error c = if not c.bound then settle rejected c else c
  step smux_closed c = on_smux_close c
  step (close_call smux_open) c = close smux_open c

  unfoldable pub run : List Event → Connection → Connection
  unfolding step
  run [] c = c
  run (e ∷ es) c = run es (step e c)

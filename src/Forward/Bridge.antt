-- ===== src/Forward/Bridge.antt =====
-- The small helpers of the WebSocket bridge in forwarder.js: close codes and extensions.
use wisper.Prelude.{
  ℕ, ◌<◌, ◌≡◌, ap, true, Option, none, some, List, [], ◌∷◌, ◌++◌, arith, if◌then◌else◌, Bytes,
  u16_be, get_u16_be, get_u16_be-u16_be,
}
use wisper.Prelude.Text.{Text, codes, split, join, trim, to_lower}
use wisper.Tunnel.Buffer.{starts_with}
use wisper.Ws.Frame.{op_close}
use wisper.Ws.Decoder.{scan, scan_frame}
use wisper.Ws.Encode.{encode_ws_frame}
use wisper.Ws.Encode.RoundTrip.{scan-encode_ws_frame}

-- `sendVisitorClose(stream, code)`: the bytes that are written
unfoldable pub visitor_close : ℕ → Bytes
visitor_close close_code = encode_ws_frame op_close (u16_be close_code) none

-- `parseCloseCode(payload)`; `none` is null.
unfoldable pub parse_close_code : Bytes → Option ℕ
parse_close_code (hi ∷ lo ∷ rest) = some (get_u16_be hi lo)
parse_close_code _ = none

kept_extensions : List Text → List Text
unfolding starts_with trim to_lower
kept_extensions [] = []
kept_extensions (e ∷ es) =
    let rest = kept_extensions es in
    if starts_with (codes "permessage-deflate") (to_lower (trim e)) then rest else trim e ∷ rest

-- `stripPermessageDeflate(extensions)`; `none` is undefined.
unfoldable pub strip_permessage_deflate : Option Text → Text
unfolding kept_extensions split join
strip_permessage_deflate none = []
strip_permessage_deflate (some []) = []
strip_permessage_deflate (some (c ∷ cs)) = join (codes ", ") (kept_extensions (split b',' (c ∷ cs)))

-- The frame that `sendVisitorClose` writes is read as one unmasked close frame with FIN, and
-- `parseCloseCode` finds the code in its payload.
pub parse_close_code-visitor_close :
    (close_code : ℕ) (rest : Bytes)
    → close_code < 65536
    → (scan (visitor_close close_code ++ rest) ≡ scan_frame true op_close (u16_be close_code) rest)
      × (parse_close_code (u16_be close_code) ≡ some close_code)
unfolding visitor_close parse_close_code
parse_close_code-visitor_close close_code rest h = (
  scan-encode_ws_frame op_close (u16_be close_code) rest none (omega arith) (omega arith),
  ap some (omega (arith, get_u16_be-u16_be close_code)),
)
